-- ===== src/Halt/Owner.antt =====
-- The Owner's two release endpoints.
use Prim.Native.String.{String}
use ai_system_trading.Prelude.{
  string_equality, Result, ok, err, ℕ, ◌-◌, ◌≡◌, refl, ap, ◌∙◌, Bool, true, false, Option, none,
  some, inl, inr, ◌⊎◌, arith, if◌then◌else◌, Bool-cases, ◌==◌, nat_equality, option_equality, ◌&&◌,
}
use ai_system_trading.Prelude.Rows.{find, find_holds, count-zero_find, find_only}
use ai_system_trading.Prelude.Table.{count-save, one}
use ai_system_trading.Halt.Types.{
  Level, level_severity, active, is_active, scope_type_equality, HaltScope, TradingHalt, Store,
}
use ai_system_trading.Halt.Transitions.{
  active_for, find_active_halt, step_down, is_emergency, deescalate_one_step,
}
use ai_system_trading.Halt.Release.{
  unprocessable, unsupported, conflict, mark_released, release_lock, release_emergency_stop,
  get_halt, is_lock_reason, unreconciled, asserted, release_scoped, release_found,
  release_trading_halt, emergency_release_trading_halt,
}
use ai_system_trading.Halt.Keys.{scope_of, active_for_own}
use ai_system_trading.Halt.Invariant.{IsValid, release-IsValid, deescalate_one_step-IsValid}
use ai_system_trading.Halt.Escalation.{current}
use ai_system_trading.Halt.Relaxation.{relaxed, deescalate_one_step-current}

-- `_get_halt` finds the row with the identifier, active and of the workspace; and it is the row
-- that its cause's query finds.
abbrev requested : ℕ → ℕ → TradingHalt → Bool
requested w i h = h.id == i && (h.workspace_id == w && is_active h.status)

is_active-eq : (h : TradingHalt) → is_active h.status ≡ true → h.status ≡ active
is_active-eq h e = ground arith

get_halt-active :
    (w i : ℕ) (h : TradingHalt) (st : Store) → get_halt w i st ≡ some h → h.status ≡ active
unfolding get_halt
get_halt-active w i h st found =
    let hit : requested w i h ≡ true = find_holds (requested w i) st.halts h found in
    is_active-eq h (ground arith)

-- The row of a cause that any query finds is the cause's only active one.
own-found :
    (p : TradingHalt → Bool) (h : TradingHalt) (st : Store)
    → IsValid st
    → find p st.halts ≡ some h
    → h.status ≡ active
    → find_active_halt (scope_of h) h.reason_code st ≡ some h
unfolding find_active_halt
own-found p h st v found e =
    find_only p (active_for (scope_of h) h.reason_code) st.halts h found (active_for_own h e)
      (v.single (scope_of h) h.reason_code)

-- After a direct release the cause has no active halt.
release_lock-current :
    (p : TradingHalt → Bool) (h : TradingHalt) (owner now : ℕ) (st : Store)
    → IsValid st
    → find p st.halts ≡ some h
    → h.status ≡ active
    → find_active_halt (scope_of h) h.reason_code (release_lock h owner now st).1 ≡ none
unfolding find_active_halt release_lock
release_lock-current p h owner now st v found e =
    let q = active_for (scope_of h) h.reason_code in
    let own : q h ≡ true = active_for_own h e in
    let gone : q (mark_released owner now h) ≡ false = ground arith in
    count-zero_find q _ (
      omega (
        arith,
        v.single (scope_of h) h.reason_code,
        count-save (λ k. k.id) p q (mark_released owner now h) h st.halts v.unique found refl,
        ap one own,
        ap one gone,
      ))

-- What is left of a halt's cause after an endpoint: the table is valid and its severity is `n`.
abbrev pub Leaves : {E : Type 0} → TradingHalt → ℕ → Result E (TradingHalt × Store) → Type 0
Leaves h n (err e) = ⊥
Leaves h n (ok (h', after)) =
    IsValid after × (current (find_active_halt (scope_of h) h.reason_code after) ≡ n)

deescalate_one_step-found :
    (s : HaltScope) (r : String) (now : ℕ) (by : Option ℕ) (k : TradingHalt) (st : Store)
    → find_active_halt s r st ≡ some k
    → is_emergency k.level ≡ false
    → (deescalate_one_step s r now by st).0 ≡ some (step_down now by k)
deescalate_one_step-found s r now by k st found other =
    unfold deescalate_one_step in rw (found, deescalate_one_step) (rw other)

Leaves-asserted :
    (h k : TradingHalt) (n : ℕ) (r : Option TradingHalt × Store)
    → r.0 ≡ some k
    → IsValid r.1
    → current (find_active_halt (scope_of h) h.reason_code r.1) ≡ n
    → Leaves h n (asserted r)
Leaves-asserted h k n (none, st) e v c = cc
Leaves-asserted h k n (some _, st) e v c = (v, c)

relaxed_lower :
    (l : Level) → is_emergency l ≡ false → relaxed (level_severity l) ≡ level_severity l - 1
relaxed_lower l h = ground arith

release_scoped-Leaves :
    (p : TradingHalt → Bool) (h : TradingHalt) (owner now : ℕ) (st : Store)
    → IsValid st
    → find p st.halts ≡ some h
    → h.status ≡ active
    → is_emergency h.level ≡ false
    → Leaves h
        (if is_lock_reason h.reason_code then 0 else level_severity h.level - 1)
        (release_scoped h owner now st)
release_scoped-Leaves p h owner now st v found e other =
    let s = scope_of h in
    let r = h.reason_code in
    let own = own-found p h st v found e in
    elim (Bool-cases (is_lock_reason h.reason_code)) [
      | inl lock ↦
          unfold release_scoped in
          rw lock (
            release-IsValid p h owner now st found v,
            ap current (release_lock-current p h owner now st v found e),
          )
      | inr step ↦
          unfold release_scoped in
          rw step (
            Leaves-asserted h (step_down now (some owner) h) (level_severity h.level - 1)
              (deescalate_one_step s r now (some owner) st)
              (deescalate_one_step-found s r now (some owner) h st own other)
              (deescalate_one_step-IsValid s r now (some owner) st v)
              (deescalate_one_step-current s r now (some owner) st v
                ∙ ap relaxed (ap current own)
                ∙ relaxed_lower h.level other))
    ]

release_found-scoped :
    (h : TradingHalt) (k owner now : ℕ) (st : Store)
    → is_emergency h.level ≡ false
    → h.scope_id ≡ some k
    → release_found h owner now st ≡ release_scoped h owner now st
release_found-scoped h k owner now st other scoped =
    unfold release_found in rw other (named h.scope_id scoped)
  where
    named :
        (o : Option ℕ)
        → o ≡ some k
        → (elim o [ none ↦ err unsupported | some _ ↦ release_scoped h owner now st ])
          ≡ release_scoped h owner now st
    named none e = cc
    named (some _) e = refl

release_emergency_stop-released :
    (h : TradingHalt) (owner now : ℕ) (st : Store)
    → is_emergency h.level ≡ true
    → release_emergency_stop h owner now st ≡ ok (release_lock h owner now st)
unfolding release_emergency_stop release_lock
release_emergency_stop-released h owner now st emergency = rw emergency

-- POST /release on an active halt of the workspace that is no emergency stop and has a scope id:
-- a loss-streak or drawdown lock is released at once, any other halt goes down by exactly one
-- level; the call cannot fail, and the table stays valid.
pub release_trading_halt-Leaves :
    (w i k owner now : ℕ) (h : TradingHalt) (st : Store)
    → IsValid st
    → get_halt w i st ≡ some h
    → is_emergency h.level ≡ false
    → h.scope_id ≡ some k
    → Leaves h
        (if is_lock_reason h.reason_code then 0 else level_severity h.level - 1)
        (release_trading_halt w i owner now st)
release_trading_halt-Leaves w i k owner now h st v found other scoped =
    unfold release_trading_halt in
    rw (found, release_trading_halt)
      (rw (release_found-scoped h k owner now st other scoped) (
        release_scoped-Leaves (requested w i) h owner now st v (unfold get_halt in found)
          (get_halt-active w i h st found) other))

-- POST /release never touches an emergency stop: it answers 422 (`unprocessable`).
pub release_trading_halt_emergency :
    (w i owner now : ℕ) (h : TradingHalt) (st : Store)
    → get_halt w i st ≡ some h
    → is_emergency h.level ≡ true
    → release_trading_halt w i owner now st ≡ err unprocessable
release_trading_halt_emergency w i owner now h st found emergency =
    unfold release_trading_halt release_found in rw (found, release_trading_halt) (rw emergency)

module _ (disagrees : ℕ → Bool) where
  -- POST /emergency-release on an active emergency stop of the workspace, over a valid table:
  -- if its cause is a ledger mismatch of an account whose ledger still disagrees, the call fails
  -- with 409 (`conflict`); if not, the halt is released and the table stays valid.
  pub emergency_release_trading_halt-Leaves :
      (w i owner now : ℕ) (h : TradingHalt) (st : Store)
      → IsValid st
      → get_halt w i st ≡ some h
      → is_emergency h.level ≡ true
      → ((unreconciled disagrees h ≡ true)
          × (emergency_release_trading_halt disagrees w i owner now st ≡ err conflict))
        ⊎ ((unreconciled disagrees h ≡ false)
            × Leaves h 0 (emergency_release_trading_halt disagrees w i owner now st))
  emergency_release_trading_halt-Leaves w i owner now h st v found emergency =
      elim (Bool-cases (unreconciled disagrees h)) [
        | inl unsettled ↦ inl (
          unsettled,
          (unfold emergency_release_trading_halt in
              rw (found, emergency_release_trading_halt) (rw unsettled)),
        )
        | inr settled ↦ inr (
          settled,
          (unfold emergency_release_trading_halt in
              rw (found, emergency_release_trading_halt)
                (rw (settled, release_emergency_stop-released h owner now st emergency)
                  (
                    release-IsValid (requested w i) h owner now st (unfold get_halt in found) v,
                    ap current (
                        release_lock-current (requested w i) h owner now st v
                          (unfold get_halt in found) (get_halt-active w i h st found)),
                  ))),
        )
      ]
