-- ===== src/Halt/Tests.antt =====
-- The halt theorems at concrete tables, and runs of the functions.
use Prim.Native.String.{String}
use ai_system_trading.Prelude.{
  ℕ, ◌-◌, ◌+◌, ◌≤◌, ◌≡◌, ◌↔◌, ◌⊎◌, refl, Bool, true, false, none, some, List, [], ◌∷◌, arith, max,
  ltb, if◌then◌else◌, err, string_equality,
}
use ai_system_trading.Prelude.Rows.{length}
use ai_system_trading.Events.Pairing.{none_left}
use ai_system_trading.Halt.Types.{
  Level, entry_halted, all_trading_halted, emergency_stopped, level_severity, HaltScope, bot,
  account, TradingHalt, Store, Activation,
}
use ai_system_trading.Halt.Transitions.{
  find_active_halt, create, activate_or_escalate, deescalate_one_step, has_active_halt_at_or_above,
  is_emergency,
}
use ai_system_trading.Halt.Release.{
  get_halt, is_lock_reason, unreconciled, release_trading_halt, emergency_release_trading_halt,
  conflict,
}
use ai_system_trading.Halt.Invariant.{IsValid, activate_or_escalate-IsValid}
use ai_system_trading.Halt.Escalation.{
  current, activate_or_escalate-current, activate_or_escalate-others,
  activate_or_escalate-announces,
}
use ai_system_trading.Halt.Relaxation.{
  relaxed, deescalate_one_step-current, has_active_halt_at_or_above_iff,
}
use ai_system_trading.Halt.Runs.{
  Call, activate, deescalate, run, run-IsValid, relax, relax-current, run_emergency,
}
use ai_system_trading.Halt.Owner.{
  Leaves, release_trading_halt-Leaves, emergency_release_trading_halt-Leaves,
}

abbrev pub no_halts : Store
no_halts = record {
  halts = [];
  log = record { system_events = []; outbox = []; fresh = 0 };
  reactivations = [];
}

pub no_halts-IsValid : IsValid no_halts
no_halts-IsValid = record {
  unique = tt;
  used = tt;
  single = λ s r. omega arith;
  stamped = tt;
  paired = record { paired = none_left; used = tt; unique = tt };
}

abbrev pub bot_scope : HaltScope
bot_scope = record { workspace_id = 1; scope_type = bot; scope_id = some 7 }

abbrev account_scope : HaltScope
account_scope = record { workspace_id = 1; scope_type = account; scope_id = some 5 }

abbrev pub asking : HaltScope → String → Level → Activation
asking s r l = record {
  scope = s;
  reason_code = r;
  level = l;
  auto_releasable = true;
  event = none;
}

abbrev halting : Activation
halting = asking bot_scope "stale_data" all_trading_halted

abbrev pub stopping : Activation
stopping = asking bot_scope "broker_down" emergency_stopped

abbrev mismatch : Activation
mismatch = asking account_scope "ledger_mismatch" emergency_stopped

-- One halt, of `entry_halted`.
abbrev entry_only : Store
entry_only = (activate_or_escalate (asking bot_scope "stale_data" entry_halted) no_halts).1

entry_only-IsValid : IsValid entry_only
entry_only-IsValid =
    activate_or_escalate-IsValid (asking bot_scope "stale_data" entry_halted) no_halts
      no_halts-IsValid

-- An emergency stop.
abbrev stopped_store : Store
stopped_store = (activate_or_escalate mismatch no_halts).1

stopped_store-IsValid : IsValid stopped_store
stopped_store-IsValid = activate_or_escalate-IsValid mismatch no_halts no_halts-IsValid

activate_or_escalate-current_example :
    let (h, after) = activate_or_escalate halting entry_only in
    (find_active_halt bot_scope "stale_data" after ≡ some h)
    × (level_severity h.level
        ≡ max (current (find_active_halt bot_scope "stale_data" entry_only)) 3)
activate_or_escalate-current_example =
    activate_or_escalate-current halting entry_only entry_only-IsValid

activate_or_escalate-others_example :
    find_active_halt bot_scope "latency" (activate_or_escalate halting entry_only).1
    ≡ find_active_halt bot_scope "latency" entry_only
activate_or_escalate-others_example =
    activate_or_escalate-others halting entry_only bot_scope "latency" entry_only-IsValid
      (λ both. absurd (other ((string_equality.beq_iff "latency" "stale_data").1 both.1)))
  where
    other : false ≡ true → ⊥
    other e = cc

activate_or_escalate-announces_example :
    length (activate_or_escalate halting entry_only).1.log.system_events
    ≡ length entry_only.log.system_events
      + (if ltb (current (find_active_halt bot_scope "stale_data" entry_only)) 3 then 1 else 0)
activate_or_escalate-announces_example = activate_or_escalate-announces halting entry_only

deescalate_one_step-current_example :
    current (
      find_active_halt bot_scope "stale_data"
        (deescalate_one_step bot_scope "stale_data" 60 none entry_only).1)
    ≡ relaxed (current (find_active_halt bot_scope "stale_data" entry_only))
deescalate_one_step-current_example =
    deescalate_one_step-current bot_scope "stale_data" 60 none entry_only entry_only-IsValid

has_active_halt_at_or_above_iff_example :
    (has_active_halt_at_or_above bot_scope entry_halted entry_only ≡ true)
    ↔ ((r : String) × (2 ≤ current (find_active_halt bot_scope r entry_only)))
has_active_halt_at_or_above_iff_example =
    has_active_halt_at_or_above_iff bot_scope entry_halted entry_only entry_only-IsValid

abbrev calls : List Call
calls = activate halting ∷ deescalate bot_scope "stale_data" 60 none ∷ []

run-IsValid_example : IsValid (run calls entry_only)
run-IsValid_example = run-IsValid calls entry_only entry_only-IsValid

entry_only-current : current (find_active_halt bot_scope "stale_data" entry_only) ≡ 2
unfolding find_active_halt activate_or_escalate create
entry_only-current = refl

relax-current_example :
    current (
      find_active_halt bot_scope "stale_data"
        (relax bot_scope "stale_data" (60 ∷ 120 ∷ []) entry_only))
    ≡ current (find_active_halt bot_scope "stale_data" entry_only) - 2
relax-current_example =
    relax-current bot_scope "stale_data" (60 ∷ 120 ∷ []) entry_only entry_only-IsValid
      (omega (arith, entry_only-current))

stopped_store-current : current (find_active_halt account_scope "ledger_mismatch" stopped_store) ≡ 4
unfolding find_active_halt activate_or_escalate create
stopped_store-current = refl

run_emergency_example :
    current (find_active_halt account_scope "ledger_mismatch" (run calls stopped_store)) ≡ 4
run_emergency_example =
    run_emergency account_scope "ledger_mismatch" calls stopped_store stopped_store-IsValid
      stopped_store-current

abbrev entry_halt : TradingHalt
entry_halt = (activate_or_escalate (asking bot_scope "stale_data" entry_halted) no_halts).0

entry_halt_found : get_halt 1 entry_halt.id entry_only ≡ some entry_halt
unfolding get_halt find_active_halt activate_or_escalate create
entry_halt_found = refl

entry_halt_level : is_emergency entry_halt.level ≡ false
unfolding find_active_halt activate_or_escalate create
entry_halt_level = refl

entry_halt_scope : entry_halt.scope_id ≡ some 7
unfolding find_active_halt activate_or_escalate create
entry_halt_scope = refl

release_trading_halt-Leaves_example :
    Leaves entry_halt
      (if is_lock_reason entry_halt.reason_code then 0 else level_severity entry_halt.level - 1)
      (release_trading_halt 1 entry_halt.id 9 60 entry_only)
release_trading_halt-Leaves_example =
    release_trading_halt-Leaves 1 entry_halt.id 7 9 60 entry_halt entry_only entry_only-IsValid
      entry_halt_found entry_halt_level entry_halt_scope

abbrev stop_halt : TradingHalt
stop_halt = (activate_or_escalate mismatch no_halts).0

stop_halt_found : get_halt 1 stop_halt.id stopped_store ≡ some stop_halt
unfolding get_halt find_active_halt activate_or_escalate create
stop_halt_found = refl

stop_halt_level : is_emergency stop_halt.level ≡ true
unfolding find_active_halt activate_or_escalate create
stop_halt_level = refl

abbrev disagrees : ℕ → Bool
disagrees account_id = false

emergency_release_trading_halt-Leaves_example :
    ((unreconciled disagrees stop_halt ≡ true)
      × (emergency_release_trading_halt disagrees 1 stop_halt.id 9 60 stopped_store ≡ err conflict))
    ⊎ ((unreconciled disagrees stop_halt ≡ false)
        × Leaves stop_halt 0
            (emergency_release_trading_halt disagrees 1 stop_halt.id 9 60 stopped_store))
emergency_release_trading_halt-Leaves_example =
    emergency_release_trading_halt-Leaves disagrees 1 stop_halt.id 9 60 stop_halt stopped_store
      stopped_store-IsValid stop_halt_found stop_halt_level
