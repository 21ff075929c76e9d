-- ===== src/Halt/Escalation.antt =====
-- What `activate_or_escalate` does to the cause that it is called for, to the others, and to the
-- event tables.
use Prim.Native.String.{String}
use ai_system_trading.Prelude.{
  ℕ, ◌+◌, ◌<◌, ◌≡◌, refl, ◌∙◌, true, false, Option, none, some, [], ◌∷◌, inl, inr, arith, ltb,
  ltb→lt, lt→ltb, if◌then◌else◌, max, Bool-cases, Option-cases,
}
use ai_system_trading.Prelude.Rows.{length, find-append_none, find-append_miss, find_holds}
use ai_system_trading.Prelude.Table.{find-save, find-save_other}
use ai_system_trading.Events.{EventLog}
use ai_system_trading.Events.Pairing.{publish_system_event_one}
use ai_system_trading.Halt.Types.{
  Level, level_severity, HaltScope, HaltEvent, TradingHalt, Store, Activation,
}
use ai_system_trading.Halt.Announce.{announcement, announce}
use ai_system_trading.Halt.Transitions.{
  new_halt, active_for, find_active_halt, create, escalate, activate_or_escalate,
}
use ai_system_trading.Halt.Keys.{active_for-key, active_for_own, active_for_other}
use ai_system_trading.Halt.Invariant.{IsValid}

-- The severity that a cause is under: 0 when it has no active halt.
abbrev pub current : Option TradingHalt → ℕ
current none = 0
current (some h) = level_severity h.level

pub severity_pos : (l : Level) → 0 < level_severity l
severity_pos l = ground arith

pub find-level :
    (s : HaltScope) (r : String) (k : TradingHalt) (l : Level)
    → active_for s r k ≡ true
    → active_for s r (record k { level = l }) ≡ true
find-level s r k l h = h

create-find :
    (a : Activation) (st : Store)
    → find_active_halt a.scope a.reason_code st ≡ none
    → find_active_halt a.scope a.reason_code (create a st).1 ≡ some (create a st).0
unfolding create find_active_halt new_halt
create-find a st absent =
    let halt = (create a st).0 in
    find-append_none (active_for a.scope a.reason_code) st.halts (halt ∷ []) absent
    ∙ rw (active_for_own halt refl)

escalate-find :
    (a : Activation) (k : TradingHalt) (st : Store)
    → IsValid st
    → find_active_halt a.scope a.reason_code st ≡ some k
    → let (h, after) = escalate a k st in
      (find_active_halt a.scope a.reason_code after ≡ some h)
      × (level_severity h.level ≡ max (level_severity k.level) (level_severity a.level))
unfolding escalate find_active_halt
escalate-find a k st v found =
    let q = active_for a.scope a.reason_code in
    let raised : TradingHalt = record k { level = a.level } in
    let own : q k ≡ true = find_holds q st.halts k found in
    elim (Bool-cases (ltb (level_severity k.level) (level_severity a.level))) [
      | inl more ↦ rw more (
        find-save (λ h. h.id) q raised k st.halts v.unique found refl own,
        omega (arith, ltb→lt _ _ more),
      )
      | inr kept ↦ rw kept (found, ground arith)
    ]

-- After the call the cause's active halt is the one returned, and its severity is the greater of
-- what it was (0 if there was none) and what was asked for: a halt is created or raised, and
-- never lowered.
pub activate_or_escalate-current :
    (a : Activation) (st : Store)
    → IsValid st
    → let (h, after) = activate_or_escalate a st in
      (find_active_halt a.scope a.reason_code after ≡ some h)
      × (level_severity h.level
          ≡ max (current (find_active_halt a.scope a.reason_code st)) (level_severity a.level))
unfolding activate_or_escalate
activate_or_escalate-current a st v =
    elim (Option-cases (find_active_halt a.scope a.reason_code st)) [
      | inl absent ↦ rw (absent, activate_or_escalate) (create-find a st absent, omega arith)
      | inr (k, found) ↦ rw (found, activate_or_escalate) (escalate-find a k st v found)
    ]

create-others :
    (a : Activation) (st : Store) (s : HaltScope) (r : String)
    → ¬ ((s ≡ a.scope) × (r ≡ a.reason_code))
    → find_active_halt s r (create a st).1 ≡ find_active_halt s r st
unfolding create find_active_halt new_halt
create-others a st s r other =
    let halt = (create a st).0 in
    find-append_miss (active_for s r) st.halts halt
      (active_for_other s a.scope r a.reason_code halt refl refl other)

escalate-others :
    (a : Activation) (k : TradingHalt) (st : Store) (s : HaltScope) (r : String)
    → IsValid st
    → find_active_halt a.scope a.reason_code st ≡ some k
    → ¬ ((s ≡ a.scope) × (r ≡ a.reason_code))
    → find_active_halt s r (escalate a k st).1 ≡ find_active_halt s r st
unfolding escalate find_active_halt
escalate-others a k st s r v found other =
    let q = active_for a.scope a.reason_code in
    let raised : TradingHalt = record k { level = a.level } in
    let (scope, code) = active_for-key a.scope a.reason_code k (find_holds q st.halts k found) in
    let silent : active_for s r k ≡ false =
      active_for_other s a.scope r a.reason_code k scope code other in
    elim (Bool-cases (ltb (level_severity k.level) (level_severity a.level))) [
      | inl more ↦ rw more (
          find-save_other (λ h. h.id) q (active_for s r) raised k st.halts v.unique found refl
            silent silent)
      | inr kept ↦ rw kept
    ]

-- Every other cause, of this scope or another, keeps the active halt that it had.
pub activate_or_escalate-others :
    (a : Activation) (st : Store) (s : HaltScope) (r : String)
    → IsValid st
    → ¬ ((s ≡ a.scope) × (r ≡ a.reason_code))
    → find_active_halt s r (activate_or_escalate a st).1 ≡ find_active_halt s r st
activate_or_escalate-others a st s r v other =
    elim (Option-cases (find_active_halt a.scope a.reason_code st)) [
      | inl absent ↦
          unfold activate_or_escalate in
          rw (absent, activate_or_escalate) (create-others a st s r other)
      | inr (k, found) ↦
          unfold activate_or_escalate in
          rw (found, activate_or_escalate) (escalate-others a k st s r v found other)
    ]

announce_one :
    (h : TradingHalt) (e : Option HaltEvent) (p : Option Level) (log : EventLog)
    → length (announce h e p log).1.system_events ≡ length log.system_events + 1
unfolding announce
announce_one h e p log = publish_system_event_one (announcement h e p) log

create_announces :
    (a : Activation) (st : Store)
    → length (create a st).1.log.system_events ≡ length st.log.system_events + 1
unfolding create
create_announces a st =
    announce_one (new_halt a st.log.fresh) a.event none (record st.log { fresh = st.log.fresh + 1 })

escalate_announces :
    (a : Activation) (k : TradingHalt) (st : Store)
    → length (escalate a k st).1.log.system_events
      ≡ length st.log.system_events
        + (if ltb (level_severity k.level) (level_severity a.level) then 1 else 0)
unfolding escalate
escalate_announces a k st =
    elim (Bool-cases (ltb (level_severity k.level) (level_severity a.level))) [
      | inl more ↦
          rw more (announce_one (record k { level = a.level }) a.event (some k.level) st.log)
      | inr kept ↦ rw kept (omega arith)
    ]

-- A halt is announced exactly when it is created or raised: one system event then, none else.
pub activate_or_escalate-announces :
    (a : Activation) (st : Store)
    → length (activate_or_escalate a st).1.log.system_events
      ≡ length st.log.system_events
        + (if ltb (current (find_active_halt a.scope a.reason_code st)) (level_severity a.level)
            then 1
            else 0)
unfolding activate_or_escalate
activate_or_escalate-announces a st =
    elim (Option-cases (find_active_halt a.scope a.reason_code st)) [
      | inl absent ↦
          rw
            (absent, activate_or_escalate, lt→ltb 0 (level_severity a.level) (severity_pos a.level))
            (create_announces a st)
      | inr (k, found) ↦ rw (found, activate_or_escalate) (escalate_announces a k st)
    ]
