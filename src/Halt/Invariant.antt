-- ===== src/Halt/Invariant.antt =====
-- The invariant of the table, under creating, raising and stepping down a halt.
use Prim.Native.String.{String}
use ai_system_trading.Prelude.{
  ℕ, ◌+◌, ◌<◌, ◌≤◌, ◌≡◌, refl, Bool, Option, none, some, List, [], ◌∷◌, ◌++◌, inl, inr, arith,
  is_some, ltb, Bool-cases, Option-cases,
}
use ai_system_trading.Prelude.Rows.{
  find, count, All, All-append, All-find, count-append, find-none-count,
}
use ai_system_trading.Prelude.Table.{
  save, UniqueIds, UniqueIds-save, UniqueIds-append, All-save, count-save, one,
}
use ai_system_trading.Events.{EventLog}
use ai_system_trading.Events.Pairing.{
  IsValid as IsPaired, take_id-IsValid, publish_system_event-IsValid,
}
use ai_system_trading.Halt.Types.{
  Level, level_severity, is_released, HaltScope, HaltEvent, TradingHalt, Store, Activation,
}
use ai_system_trading.Halt.Announce.{announcement, announce}
use ai_system_trading.Halt.Transitions.{
  active_for, new_halt, find_active_halt, create, escalate, activate_or_escalate, step_down,
  is_emergency, deescalate_one_step,
}
use ai_system_trading.Halt.Release.{mark_released, release_lock}
use ai_system_trading.Halt.Keys.{scope_of, active_for-key}

-- `ck_trading_halt_release`: released_at is set exactly on released rows.
abbrev pub IsStamped : TradingHalt → Type 0
IsStamped h = is_some h.released_at ≡ is_released h.status

pub record IsValid (st : Store) : Type 0 where
  pub unique : UniqueIds (λ h. h.id) st.halts
  pub used : All (λ h. h.id < st.log.fresh) st.halts
  -- "1つの原因につき行は1つ", which `uq_trading_halt_active` enforces
  pub single : (s : HaltScope) (r : String) → count (active_for s r) st.halts ≤ 1
  pub stamped : All IsStamped st.halts
  pub paired : IsPaired st.log

pub announce_fresh :
    (h : TradingHalt) (e : Option HaltEvent) (p : Option Level) (log : EventLog)
    → (announce h e p log).1.fresh ≡ log.fresh + 2
unfolding announce
announce_fresh h e p log = refl

announce-IsPaired :
    (h : TradingHalt) (e : Option HaltEvent) (p : Option Level) (log : EventLog)
    → IsPaired log
    → IsPaired (announce h e p log).1
unfolding announce
announce-IsPaired h e p log v = publish_system_event-IsValid (announcement h e p) log v

pub All-below :
    (n m : ℕ) (hs : List TradingHalt) → n ≤ m → All (λ h. h.id < n) hs → All (λ h. h.id < m) hs
All-below n m [] le all = tt
All-below n m (h ∷ hs) le all = (omega arith, All-below n m hs le all.1)

-- A row that a query found is changed: no cause gains an active row by it.
pub save-IsValid :
    (p : TradingHalt → Bool) (k h : TradingHalt) (st : Store) (log : EventLog)
    → IsValid st
    → find p st.halts ≡ some k
    → h.id ≡ k.id
    → ((s : HaltScope) (r : String) → one (active_for s r h) ≤ one (active_for s r k))
    → IsStamped h
    → st.log.fresh ≤ log.fresh
    → IsPaired log
    → IsValid (record st { halts = save (λ x. x.id) h st.halts; log = log })
save-IsValid p k h st log v found same fewer stamp le paired = record {
  unique = UniqueIds-save (λ x. x.id) h st.halts v.unique;
  used =
      All-save (λ x. x.id) (λ x. x.id < log.fresh) h st.halts
        (omega (arith, All-find (λ x. x.id < st.log.fresh) p st.halts k v.used found))
        (All-below st.log.fresh log.fresh st.halts le v.used);
  single = λ s r. omega (
    arith,
    v.single s r,
    fewer s r,
    count-save (λ x. x.id) p (active_for s r) h k st.halts v.unique found same,
  );
  stamped = All-save (λ x. x.id) IsStamped h st.halts stamp v.stamped;
  paired = paired;
}

-- Before the append no row of the cause is active, and the new row answers to no other cause.
create-single :
    (s s' : HaltScope) (r r' : String) (h : TradingHalt) (hs : List TradingHalt)
    → find (active_for s r) hs ≡ none
    → scope_of h ≡ s
    → h.reason_code ≡ r
    → count (active_for s' r') hs ≤ 1
    → count (active_for s' r') (hs ++ h ∷ []) ≤ 1
create-single s s' r r' h hs absent own reason few = elim (Bool-cases (active_for s' r' h)) [
  | inl answers ↦
      let (scope, code) = active_for-key s' r' h answers in
      let none_yet : count (active_for s' r') hs ≡ 0 =
        find-none-count (active_for s' r') hs (rw (← scope, own, ← code, reason) absent) in
      ground (arith, count-append (active_for s' r') hs (h ∷ []))
  | inr other ↦ ground (arith, count-append (active_for s' r') hs (h ∷ []))
]

pub create-IsValid :
    (a : Activation) (st : Store)
    → find_active_halt a.scope a.reason_code st ≡ none
    → IsValid st
    → IsValid (create a st).1
unfolding create find_active_halt new_halt
create-IsValid a st absent v =
    let n = st.log.fresh in
    let halt = (create a st).0 in
    let log' : EventLog = record st.log { fresh = n + 1 } in
    record {
      unique = UniqueIds-append (λ x. x.id) halt n st.halts v.used (omega arith) v.unique;
      used = rw (announce_fresh (new_halt a n) a.event none log') (
          All-append (λ x. x.id < n + 1 + 2) st.halts (halt ∷ [])
            (All-below n (n + 1 + 2) st.halts (omega arith) v.used) (omega arith, tt));
      single = λ s r.
          create-single a.scope s a.reason_code r halt st.halts absent refl refl (v.single s r);
      stamped = All-append IsStamped st.halts (halt ∷ []) v.stamped (refl, tt);
      paired = announce-IsPaired (new_halt a n) a.event none log' (take_id-IsValid st.log v.paired);
    }

escalate-IsValid :
    (a : Activation) (k : TradingHalt) (st : Store)
    → find_active_halt a.scope a.reason_code st ≡ some k
    → IsValid st
    → IsValid (escalate a k st).1
unfolding escalate find_active_halt
escalate-IsValid a k st found v =
    elim (Bool-cases (ltb (level_severity k.level) (level_severity a.level))) [
      | inl more ↦
          let raised : TradingHalt = record k { level = a.level } in
          rw more (
            save-IsValid (active_for a.scope a.reason_code) k raised st
              (announce raised a.event (some k.level) st.log).1 v found refl (λ s r. omega arith)
              (All-find IsStamped (active_for a.scope a.reason_code) st.halts k v.stamped found)
              (rw (announce_fresh raised a.event (some k.level) st.log) (omega arith))
              (announce-IsPaired raised a.event (some k.level) st.log v.paired))
      | inr kept ↦ rw kept v
    ]

-- Activating or escalating keeps the table valid: identifiers stay distinct, no cause ever has
-- two active rows, a release time stands exactly on the released rows, and every system event
-- has its outbox row.
pub activate_or_escalate-IsValid :
    (a : Activation) (st : Store) → IsValid st → IsValid (activate_or_escalate a st).1
unfolding activate_or_escalate
activate_or_escalate-IsValid a st v =
    elim (Option-cases (find_active_halt a.scope a.reason_code st)) [
      | inl absent ↦ rw (absent, activate_or_escalate) (create-IsValid a st absent v)
      | inr (k, found) ↦ rw (found, activate_or_escalate) (escalate-IsValid a k st found v)
    ]

-- One step down never makes a row active that was not, and stamps a release.
step_down_active :
    (now : ℕ) (by : Option ℕ) (k : TradingHalt) (s : HaltScope) (r : String)
    → one (active_for s r (step_down now by k)) ≤ one (active_for s r k)
step_down_active now by k s r = ground arith

step_down-IsStamped :
    (now : ℕ) (by : Option ℕ) (k : TradingHalt) → IsStamped k → IsStamped (step_down now by k)
step_down-IsStamped now by k h = ground arith

pub step_down_id : (now : ℕ) (by : Option ℕ) (k : TradingHalt) → (step_down now by k).id ≡ k.id
step_down_id now by k = ground arith

-- Stepping down keeps the table valid.
pub deescalate_one_step-IsValid :
    (s : HaltScope) (r : String) (now : ℕ) (by : Option ℕ) (st : Store)
    → IsValid st
    → IsValid (deescalate_one_step s r now by st).1
unfolding deescalate_one_step find_active_halt
deescalate_one_step-IsValid s r now by st v = elim (Option-cases (find (active_for s r) st.halts)) [
  | inl absent ↦ rw (absent, deescalate_one_step) v
  | inr (k, found) ↦ elim (Bool-cases (is_emergency k.level)) [
    | inl emergency ↦ rw (found, deescalate_one_step, emergency) v
    | inr other ↦
        rw (found, deescalate_one_step, other)
          (save-IsValid (active_for s r) k (step_down now by k) st st.log v found
            (step_down_id now by k) (step_down_active now by k)
            (step_down-IsStamped now by k
              (All-find IsStamped (active_for s r) st.halts k v.stamped found))
            (omega arith) v.paired)
  ]
]

-- An Owner's release of a row that a query found keeps the table valid.
pub release-IsValid :
    (p : TradingHalt → Bool) (h : TradingHalt) (owner now : ℕ) (st : Store)
    → find p st.halts ≡ some h
    → IsValid st
    → IsValid (release_lock h owner now st).1
unfolding release_lock
release-IsValid p h owner now st found v =
    save-IsValid p h (mark_released owner now h) st st.log v found refl (λ s r. ground arith) refl
      (omega arith) v.paired
