-- ===== src/Bot/Blocking.antt =====
-- Starting and resuming a bot under an emergency stop.
use Prim.Native.String.{String}
use ai_system_trading.Prelude.{
  ◌≡◌, refl, ap, List, [], ◌∷◌, arith, inl, inr, ◌⊎◌, Option, none, some, ◌≤◌, Result, ok, err,
  ◌>>=◌, map_err, true, false, is_ok,
}
use ai_system_trading.Prelude.Rows.{find}
use ai_system_trading.Halt.{
  HaltScope, TradingHalt, Store, Activation, level_severity, emergency_stopped, find_active_halt,
  activate_or_escalate, has_active_halt_at_or_above,
}
use ai_system_trading.Halt.Invariant.{IsValid as IsValidTable, activate_or_escalate-IsValid}
use ai_system_trading.Halt.Escalation.{current, activate_or_escalate-current}
use ai_system_trading.Halt.Relaxation.{has_active_halt_at_or_above_iff}
use ai_system_trading.Halt.Runs.{Call, run, run-IsValid, run_emergency, severity_le}
use ai_system_trading.Bot.Types.{
  DesiredState, TradingBot, BotRun, Db, is_paused, no_paused_bot_run, LifecycleError, StartupError,
  startup_validation_failed,
}
use ai_system_trading.Bot.Startup.{Env, halt_scopes, any_emergency, validate_bot_startup}
use ai_system_trading.Bot.Commands.{
  run_of, open_run, mark_resumed, found_or, start_from, start_bot, resume_from, resume_bot,
}

-- The scopes whose emergency stops bind a bot: its own and its workspace's.
abbrev pub Binds : HaltScope → List HaltScope → Type 0
Binds s [] = ⊥
Binds s (t ∷ ts) = (s ≡ t) ⊎ Binds s ts

any_emergency-true :
    (s : HaltScope) (r : String) (scopes : List HaltScope) (st : Store)
    → IsValidTable st
    → current (find_active_halt s r st) ≡ 4
    → Binds s scopes
    → any_emergency st scopes ≡ true
any_emergency-true s r (t ∷ ts) st v h (inl here) =
    let held : has_active_halt_at_or_above t emergency_stopped st ≡ true =
      (has_active_halt_at_or_above_iff t emergency_stopped st v).1
        (r, rw (← here) (omega (arith, h))) in
    rw held
any_emergency-true s r (t ∷ ts) st v h (inr later) =
    let rest = any_emergency-true s r ts st v h later in ground (arith, rest)
any_emergency-true s r [] st v h b = absurd b

validate_blocked :
    (env : Env) (b : TradingBot)
    → any_emergency env.halts (halt_scopes b) ≡ true
    → is_ok (validate_bot_startup env b) ≡ false
unfolding validate_bot_startup
validate_blocked env b h = rw h (ground arith)

checked_blocked :
    {A : Type 0} (c : Result StartupError Unit) (next : Result LifecycleError A)
    → is_ok c ≡ false
    → is_ok (map_err startup_validation_failed c >>= λ _. next) ≡ false
checked_blocked (ok _) next h = cc
checked_blocked (err e) next h = refl

found_blocked :
    {A : Type 0} (e : LifecycleError) (o : Option BotRun) (next : BotRun → Result LifecycleError A)
    → ((r : BotRun) → is_ok (next r) ≡ false)
    → is_ok (found_or e o >>= next) ≡ false
found_blocked e none next h = refl
found_blocked e (some r) next h = h r

start_from_blocked :
    (d : DesiredState) (env : Env) (b : TradingBot) (db : Db)
    → is_ok (validate_bot_startup env b) ≡ false
    → is_ok (start_from d env b db) ≡ false
unfolding start_from
start_from_blocked DesiredState.running env b db h = refl
start_from_blocked DesiredState.paused env b db h = refl
start_from_blocked DesiredState.stopped env b db h =
    checked_blocked (validate_bot_startup env b) (ok (open_run env.now b db)) h

resume_from_blocked :
    (d : DesiredState) (env : Env) (b : TradingBot) (db : Db)
    → is_ok (validate_bot_startup env b) ≡ false
    → is_ok (resume_from d env b db) ≡ false
unfolding resume_from
resume_from_blocked DesiredState.running env b db h = refl
resume_from_blocked DesiredState.stopped env b db h = refl
resume_from_blocked DesiredState.paused env b db h =
    found_blocked no_paused_bot_run (find (run_of b.id is_paused) db.runs)
      (λ r. map_err startup_validation_failed (validate_bot_startup env b) >>= λ _.
        ok (mark_resumed env.now b r db))
      (λ r. checked_blocked (validate_bot_startup env b) (ok (mark_resumed env.now b r db)) h)

current_le : (o : Option TradingHalt) → current o ≤ 4
current_le none = omega arith
current_le (some h) = severity_le h.level

severe :
    (a : Activation) (st : Store)
    → IsValidTable st
    → a.level ≡ emergency_stopped
    → current (find_active_halt a.scope a.reason_code (activate_or_escalate a st).1) ≡ 4
severe a st v e =
    let (after, raised) = activate_or_escalate-current a st v in
    rw after (
      omega (
        arith,
        raised,
        ap level_severity e,
        current_le (find_active_halt a.scope a.reason_code st),
      ))

-- Once an emergency stop of the bot or of its workspace is activated, no calls that the program
-- makes by itself, for any causes and in any order, let the bot be started or resumed.
pub emergency_blocks :
    (a : Activation) (st : Store) (cs : List Call) (env : Env) (b : TradingBot) (db : Db)
    → IsValidTable st
    → a.level ≡ emergency_stopped
    → Binds a.scope (halt_scopes b)
    → env.halts ≡ run cs (activate_or_escalate a st).1
    → (is_ok (start_bot env b db) ≡ false) × (is_ok (resume_bot env b db) ≡ false)
unfolding start_bot resume_bot
emergency_blocks a st cs env b db v level binds later =
    let raised = activate_or_escalate-IsValid a st v in
    let blocked : is_ok (validate_bot_startup env b) ≡ false = validate_blocked env b (
      rw later (
        any_emergency-true a.scope a.reason_code (halt_scopes b)
          (run cs (activate_or_escalate a st).1)
          (run-IsValid cs (activate_or_escalate a st).1 raised)
          (run_emergency a.scope a.reason_code cs (activate_or_escalate a st).1 raised
            (severe a st v level))
          binds)) in
    (
      start_from_blocked b.desired_state env b db blocked,
      resume_from_blocked b.desired_state env b db blocked,
    )
