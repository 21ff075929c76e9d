-- ===== src/Halt/Types.antt =====
-- The rows and arguments of trading_halt.py, and its tables of levels.
use Prim.Native.String.{String}
use ai_system_trading.Prelude.{
  ℕ, ◌≡◌, ◌↔◌, Bool, true, false, Option, none, some, List, arith, Equality, nat_beq,
}
use ai_system_trading.Events.{Severity, Payload, EventLog}

pub data Level : Type 0 where
  warning entry_halted all_trading_halted emergency_stopped : Level

-- `_LEVEL_SEVERITY`
abbrev pub level_severity : Level → ℕ
level_severity warning = 1
level_severity entry_halted = 2
level_severity all_trading_halted = 3
level_severity emergency_stopped = 4

-- `_ONE_STEP_DOWN`
abbrev pub one_step_down : Level → Option Level
one_step_down emergency_stopped = none
one_step_down all_trading_halted = some entry_halted
one_step_down entry_halted = some warning
one_step_down warning = none

-- `_SEVERITY_BY_LEVEL`
abbrev pub severity_by_level : Level → Severity
severity_by_level warning = Severity.warning
severity_by_level entry_halted = Severity.warning
severity_by_level all_trading_halted = Severity.error
severity_by_level emergency_stopped = Severity.critical

pub data ScopeType : Type 0 where
  system workspace connection account bot instrument : ScopeType

abbrev pub scope_type_rank : ScopeType → ℕ
scope_type_rank system = 0
scope_type_rank workspace = 1
scope_type_rank connection = 2
scope_type_rank account = 3
scope_type_rank bot = 4
scope_type_rank instrument = 5

pub scope_type_beq_iff :
    (a b : ScopeType) → (nat_beq (scope_type_rank a) (scope_type_rank b) ≡ true) ↔ (a ≡ b)
scope_type_beq_iff a b = ground arith

instance abbrev pub scope_type_equality : Equality ScopeType
scope_type_equality = record {
  beq = λ a b. nat_beq (scope_type_rank a) (scope_type_rank b);
  beq_iff = scope_type_beq_iff;
}

-- The module uses two of the three statuses that the table allows.
pub data Status : Type 0 where
  active released : Status

abbrev pub is_active : Status → Bool
is_active active = true
is_active released = false

abbrev pub is_released : Status → Bool
is_released active = false
is_released released = true

pub record HaltScope : Type 0 where
  pub workspace_id : ℕ
  pub scope_type : ScopeType
  pub scope_id : Option ℕ

pub record HaltEvent : Type 0 where
  pub event_type : String
  pub message : String
  pub payload : Payload
  pub source_type : String
  pub source_id : Option ℕ
  pub correlation_id : Option ℕ

-- A row of `trading_halt`. `halted_at` and `release_condition`, which no operation reads, are
-- left out.
pub record TradingHalt : Type 0 where
  pub id : ℕ
  pub workspace_id : ℕ
  pub scope_type : ScopeType
  pub scope_id : Option ℕ
  pub level : Level
  pub reason_code : String
  pub auto_releasable : Bool
  pub status : Status
  pub trigger_event_id : Option ℕ
  pub released_at : Option ℕ
  pub released_by : Option ℕ

-- What `logger.warning("trading_halt_reactivated_after_manual_release", ...)` records.
pub record Reactivation : Type 0 where
  pub scope : HaltScope
  pub reason_code : String
  pub level : Level
  pub released_by : ℕ
  pub released_at : Option ℕ

-- What the functions read and write: the table, the events, and the structured log.
pub record Store : Type 0 where
  pub halts : List TradingHalt
  pub log : EventLog
  pub reactivations : List Reactivation

-- The arguments of `activate_or_escalate`.
pub record Activation : Type 0 where
  pub scope : HaltScope
  pub reason_code : String
  pub level : Level
  pub auto_releasable : Bool
  pub event : Option HaltEvent

pub data TradingHaltError : Type 0 where
  not_emergency_stopped : TradingHaltError
