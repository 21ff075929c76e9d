-- ===== src/Halt/Runs.antt =====
-- Sequences of the calls that the program makes by itself.
use Prim.Native.String.{String}
use ai_system_trading.Prelude.{
  string_equality, ℕ, ◌-◌, ◌<◌, ◌≤◌, ◌≡◌, ap, ◌∙◌, Option, none, List, [], ◌∷◌, inl, inr, arith,
  Bool-cases, ◌==◌, nat_equality, option_equality,
}
use native.Mathlib.Decide.{ℕ_discrete}
use ai_system_trading.Prelude.Rows.{length}
use ai_system_trading.Halt.Types.{
  Level, level_severity, scope_type_equality, HaltScope, Store, Activation,
}
use ai_system_trading.Halt.Transitions.{find_active_halt, activate_or_escalate, deescalate_one_step}
use ai_system_trading.Halt.Invariant.{
  IsValid, activate_or_escalate-IsValid, deescalate_one_step-IsValid,
}
use ai_system_trading.Halt.Escalation.{
  current, activate_or_escalate-current, activate_or_escalate-others,
}
use ai_system_trading.Halt.Relaxation.{
  relaxed, deescalate_one_step-current, deescalate_one_step-others,
}

-- The calls that the program makes by itself, in any order and for any causes.
pub data Call : Type 0 where
  activate : Activation → Call
  deescalate : HaltScope → String → ℕ → Option ℕ → Call

abbrev pub perform : Call → Store → Store
perform (activate a) st = (activate_or_escalate a st).1
perform (deescalate s r now by) st = (deescalate_one_step s r now by st).1

pub run : List Call → Store → Store
run [] st = st
run (c ∷ cs) st = run cs (perform c st)

pub perform-IsValid : (c : Call) (st : Store) → IsValid st → IsValid (perform c st)
perform-IsValid (activate a) st v = activate_or_escalate-IsValid a st v
perform-IsValid (deescalate s r now by) st v = deescalate_one_step-IsValid s r now by st v

-- Whatever calls are made, the table stays valid.
pub run-IsValid : (cs : List Call) (st : Store) → IsValid st → IsValid (run cs st)
unfolding run
run-IsValid [] st v = v
run-IsValid (c ∷ cs) st v = run-IsValid cs (perform c st) (perform-IsValid c st v)

-- `deescalate_one_step` once for each time given, as the automatic recovery does.
pub relax : HaltScope → String → List ℕ → Store → Store
relax s r [] st = st
relax s r (now ∷ nows) st = relax s r nows (deescalate_one_step s r now none st).1

-- Each automatic recovery takes one level off, so as many as the halt's severity release it: at
-- most three for a halt that is no emergency stop.
pub relax-current :
    (s : HaltScope) (r : String) (nows : List ℕ) (st : Store)
    → IsValid st
    → current (find_active_halt s r st) < 4
    → current (find_active_halt s r (relax s r nows st))
      ≡ current (find_active_halt s r st) - length nows
unfolding relax
relax-current s r [] st v small = omega arith
relax-current s r (now ∷ nows) st v small =
    let step = deescalate_one_step-current s r now none st v in
    let lower : current (find_active_halt s r (deescalate_one_step s r now none st).1)
        ≡ current (find_active_halt s r st) - 1 =
      step ∙ ground arith in
    omega (
      arith,
      lower,
      relax-current s r nows (deescalate_one_step s r now none st).1
          (deescalate_one_step-IsValid s r now none st v) (omega (arith, lower)),
    )

HaltScope-discrete : Discrete HaltScope
HaltScope-discrete = hlevel ℕ_discrete

-- Whether a call is about the cause: the two halves of its key are compared.
same_key : (s t : HaltScope) (r c : String) → Dec ((s ≡ t) × (r ≡ c))
same_key s t r c = elim (HaltScope-discrete s t) [
  | no apart ↦ no (λ both. apart both.0)
  | yes scope ↦ elim (Bool-cases (r == c)) [
    | inl same ↦ yes (scope, (string_equality.beq_iff r c).0 same)
    | inr differ ↦ no (λ both. cc (differ, (string_equality.beq_iff r c).1 both.1))
  ]
]

pub severity_le : (l : Level) → level_severity l ≤ 4
severity_le l = ground arith

perform_severe :
    (s : HaltScope) (r : String) (c : Call) (st : Store)
    → IsValid st
    → current (find_active_halt s r st) ≡ 4
    → current (find_active_halt s r (perform c st)) ≡ 4
perform_severe s r (activate a) st v h = elim (same_key s a.scope r a.reason_code) [
  | yes (scope, code) ↦
      rw (scope, code)
        (let (after, raised) = activate_or_escalate-current a st v in
          rw after (omega (arith, raised, h_at scope code, severity_le a.level)))
  | no other ↦ rw (activate_or_escalate-others a st s r v other) h
]
  where
    h_at : s ≡ a.scope → r ≡ a.reason_code → current (find_active_halt a.scope a.reason_code st) ≡ 4
    h_at scope code = rw (← scope, ← code) h
perform_severe s r (deescalate t c now by) st v h = elim (same_key s t r c) [
  | yes (scope, code) ↦
      rw (scope, code) (deescalate_one_step-current t c now by st v ∙ ap relaxed (h_at scope code))
  | no other ↦ rw (deescalate_one_step-others s t r c now by st v other) h
]
  where
    h_at : s ≡ t → r ≡ c → current (find_active_halt t c st) ≡ 4
    h_at scope code = rw (← scope, ← code) h

-- No automatic call, for this cause or any other, in any order and number, ends or lowers an
-- emergency stop.
pub run_emergency :
    (s : HaltScope) (r : String) (cs : List Call) (st : Store)
    → IsValid st
    → current (find_active_halt s r st) ≡ 4
    → current (find_active_halt s r (run cs st)) ≡ 4
unfolding run
run_emergency s r [] st v h = h
run_emergency s r (c ∷ cs) st v h =
    run_emergency s r cs (perform c st) (perform-IsValid c st v) (perform_severe s r c st v h)
