-- ===== src/Risk/Reflected.antt =====
-- What a verdict makes of the two halts that the risk gate keeps.
use Prim.Native.String.{String}
use ai_system_trading.Prelude.{ℕ, ◌≡◌, Bool, true, false, none, if◌then◌else◌, max}
use ai_system_trading.Halt.{HaltScope, Store, find_active_halt}
use ai_system_trading.Halt.Invariant.{
  IsValid, activate_or_escalate-IsValid, deescalate_one_step-IsValid,
}
use ai_system_trading.Halt.Escalation.{
  current, activate_or_escalate-current, activate_or_escalate-others,
}
use ai_system_trading.Halt.Relaxation.{
  relaxed, deescalate_one_step-current, deescalate_one_step-others,
}
use ai_system_trading.Risk.Sync.{halting, reflect}

-- The severity of a cause after a verdict: one step less if its rules passed, else at least 2.
abbrev pub reflected : Bool → ℕ → ℕ
reflected passed n = if passed then relaxed n else max n 2

pub reflect-IsValid :
    (s : HaltScope) (r : String) (passed : Bool) (now : ℕ) (st : Store)
    → IsValid st
    → IsValid (reflect s r passed now st)
unfolding reflect
reflect-IsValid s r true now st v = deescalate_one_step-IsValid s r now none st v
reflect-IsValid s r false now st v = activate_or_escalate-IsValid (halting s r) st v

pub reflect-current :
    (s : HaltScope) (r : String) (passed : Bool) (now : ℕ) (st : Store)
    → IsValid st
    → current (find_active_halt s r (reflect s r passed now st))
      ≡ reflected passed (current (find_active_halt s r st))
unfolding reflect
reflect-current s r true now st v = deescalate_one_step-current s r now none st v
reflect-current s r false now st v =
    let (found, raised) = activate_or_escalate-current (halting s r) st v in rw found raised

pub reflect-others :
    (s t : HaltScope) (r c : String) (passed : Bool) (now : ℕ) (st : Store)
    → IsValid st
    → ¬ ((s ≡ t) × (r ≡ c))
    → find_active_halt s r (reflect t c passed now st) ≡ find_active_halt s r st
unfolding reflect
reflect-others s t r c true now st v other = deescalate_one_step-others s t r c now none st v other
reflect-others s t r c false now st v other =
    activate_or_escalate-others (halting t c) st s r v other
