-- ===== src/Halt/Relaxation.antt =====
-- What `deescalate_one_step` does to its cause and to the others, and the test for a level.
use Prim.Native.String.{String}
use ai_system_trading.Prelude.{
  string_equality, ℕ, ◌-◌, ◌≤◌, ◌≡◌, ◌↔◌, ◌⊎◌, ap, ◌∙◌, Bool, true, false, Option, none, some, inl,
  inr, arith, if◌then◌else◌, Bool-cases, Option-cases, ◌&&◌, leb, ltb, beq_refl,
}
use ai_system_trading.Prelude.Rows.{
  find, count, any, find_holds, count-zero_find, any_witness, find-any,
}
use ai_system_trading.Prelude.Table.{save, find-save, find-save_other, count-save, one}
use ai_system_trading.Halt.Types.{Level, level_severity, is_active, HaltScope, TradingHalt, Store}
use ai_system_trading.Halt.Transitions.{
  in_scope, active_for, find_active_halt, step_down, is_emergency, deescalate_one_step,
  has_active_halt_at_or_above,
}
use ai_system_trading.Halt.Keys.{scope_of, active_for-key, active_for_other}
use ai_system_trading.Halt.Invariant.{IsValid, step_down_id}
use ai_system_trading.Halt.Escalation.{current, severity_pos}

-- The severity after one step down: one less, but an emergency stop does not step down.
abbrev pub relaxed : ℕ → ℕ
relaxed n = if ltb n 4 then n - 1 else n

step_down_last :
    (now : ℕ) (by : Option ℕ) (k : TradingHalt) (s : HaltScope) (r : String)
    → active_for s r k ≡ true
    → is_emergency k.level ≡ false
    → ((active_for s r (step_down now by k) ≡ true)
        × (level_severity (step_down now by k).level ≡ level_severity k.level - 1))
      ⊎ ((active_for s r (step_down now by k) ≡ false) × (level_severity k.level ≡ 1))
step_down_last now by k s r own other = ground arith

step_down_other :
    (s t : HaltScope) (r c : String) (now : ℕ) (by : Option ℕ) (k : TradingHalt)
    → scope_of k ≡ t
    → k.reason_code ≡ c
    → ¬ ((s ≡ t) × (r ≡ c))
    → active_for s r (step_down now by k) ≡ false
step_down_other s t r c now by k scope code other =
    ground (arith, active_for_other s t r c k scope code other)

-- A step down by one level, or the release of a warning. Only the single active row makes the
-- release of it leave no active halt.
step_down-current :
    (s : HaltScope) (r : String) (now : ℕ) (by : Option ℕ) (k : TradingHalt) (st : Store)
    → IsValid st
    → find (active_for s r) st.halts ≡ some k
    → is_emergency k.level ≡ false
    → current (find (active_for s r) (save (λ h. h.id) (step_down now by k) st.halts))
      ≡ level_severity k.level - 1
step_down-current s r now by k st v found other =
    let q = active_for s r in
    let k' = step_down now by k in
    let same : k'.id ≡ k.id = step_down_id now by k in
    let own : q k ≡ true = find_holds q st.halts k found in
    elim (step_down_last now by k s r own other) [
      | inl (still, lower) ↦
          rw (find-save (λ h. h.id) q k' k st.halts v.unique found same still) lower
      | inr (gone, last) ↦
          let rest : count q (save (λ h. h.id) k' st.halts) ≡ 0 = omega (
            arith,
            v.single s r,
            count-save (λ h. h.id) q q k' k st.halts v.unique found same,
            ap one own,
            ap one gone,
          ) in
          rw (count-zero_find q _ rest, last)
    ]

-- A call lowers the cause's severity by exactly one, where a warning's next step is the release;
-- with no active halt, or under an emergency stop, it changes nothing.
pub deescalate_one_step-current :
    (s : HaltScope) (r : String) (now : ℕ) (by : Option ℕ) (st : Store)
    → IsValid st
    → current (find_active_halt s r (deescalate_one_step s r now by st).1)
      ≡ relaxed (current (find_active_halt s r st))
unfolding deescalate_one_step find_active_halt
deescalate_one_step-current s r now by st v = elim (Option-cases (find (active_for s r) st.halts)) [
  | inl absent ↦ rw (absent, deescalate_one_step) (rw absent)
  | inr (k, found) ↦ elim (Bool-cases (is_emergency k.level)) [
    | inl emergency ↦ rw (found, deescalate_one_step, emergency) (rw found (ground arith))
    | inr other ↦
        rw (found, deescalate_one_step, other)
          (step_down-current s r now by k st v found other ∙ ground arith)
  ]
]

-- Every other cause keeps the active halt that it had.
pub deescalate_one_step-others :
    (s t : HaltScope) (r c : String) (now : ℕ) (by : Option ℕ) (st : Store)
    → IsValid st
    → ¬ ((s ≡ t) × (r ≡ c))
    → find_active_halt s r (deescalate_one_step t c now by st).1 ≡ find_active_halt s r st
unfolding deescalate_one_step find_active_halt
deescalate_one_step-others s t r c now by st v other =
    elim (Option-cases (find (active_for t c) st.halts)) [
      | inl absent ↦ rw (absent, deescalate_one_step)
      | inr (k, found) ↦ elim (Bool-cases (is_emergency k.level)) [
        | inl emergency ↦ rw (found, deescalate_one_step, emergency)
        | inr lower ↦
            let (scope, code) =
              active_for-key t c k (find_holds (active_for t c) st.halts k found) in
            rw (found, deescalate_one_step, lower)
              (find-save_other (λ h. h.id) (active_for t c) (active_for s r) (step_down now by k) k
                st.halts v.unique found (step_down_id now by k)
                (active_for_other s t r c k scope code other)
                (step_down_other s t r c now by k scope code other))
      ]
    ]

abbrev at_or_above : HaltScope → Level → TradingHalt → Bool
at_or_above s least h =
    in_scope s h && is_active h.status && leb (level_severity least) (level_severity h.level)

at_or_above-active :
    (s : HaltScope) (least : Level) (h : TradingHalt)
    → at_or_above s least h ≡ true
    → (active_for s h.reason_code h ≡ true) × (level_severity least ≤ level_severity h.level)
at_or_above-active s least h e = ground (arith, beq_refl h.reason_code)

active-at_or_above :
    (s : HaltScope) (r : String) (least : Level) (h : TradingHalt)
    → active_for s r h ≡ true
    → level_severity least ≤ level_severity h.level
    → at_or_above s least h ≡ true
active-at_or_above s r least h e le = ground arith

-- The test says whether some cause holds the scope at the level or above: the most severe of
-- several halts decides, whatever its reason code, and no halt of another scope counts.
pub has_active_halt_at_or_above_iff :
    (s : HaltScope) (least : Level) (st : Store)
    → IsValid st
    → (has_active_halt_at_or_above s least st ≡ true)
      ↔ ((r : String) × (level_severity least ≤ current (find_active_halt s r st)))
unfolding has_active_halt_at_or_above find_active_halt
has_active_halt_at_or_above_iff s least st v = (
  (λ e.
      let (h, passes, present, first) = any_witness (at_or_above s least) st.halts e in
      let (own, le) = at_or_above-active s least h passes in
      (h.reason_code, rw (first (active_for s h.reason_code) own (v.single s h.reason_code)) le)),
  (λ w. held w.0 w.1 (Option-cases (find (active_for s w.0) st.halts))),
)
  where
    held :
        (r : String)
        → level_severity least ≤ current (find (active_for s r) st.halts)
        → (find (active_for s r) st.halts ≡ none)
          ⊎ ((h : TradingHalt) × (find (active_for s r) st.halts ≡ some h))
        → any (at_or_above s least) st.halts ≡ true
    held r le (inl absent) = absurd (omega (arith, severity_pos least, ap current absent))
    held r le (inr (h, found)) = find-any (at_or_above s least) (active_for s r) st.halts h found (
        active-at_or_above s r least h (find_holds (active_for s r) st.halts h found)
          (omega (arith, ap current found)))
