-- ===== src/Bot/Types.antt =====
-- The rows that the lifecycle commands read and write.
use Prim.Native.String.{String}
use ai_system_trading.Prelude.{ℕ, Bool, true, false, Option, List}
use ai_system_trading.Events.{Payload, EventLog}

-- `trading_bot.desired_state`
pub data DesiredState : Type 0 where
  stopped running paused : DesiredState

-- `trading_bot.actual_state`, the states that the program sets
pub data ActualState : Type 0 where
  stopped running paused failed : ActualState

-- `bot_run.status`
pub data RunStatus : Type 0 where
  starting running paused stopping stopped failed : RunStatus

-- `trade_order.status`
pub data OrderStatus : Type 0 where
  pending submitted partially_filled filled cancel_pending cancelled rejected expired unknown :
      OrderStatus

pub record TradingBot : Type 0 where
  pub id : ℕ
  pub workspace_id : ℕ
  pub name : String
  pub execution_mode : String
  pub connection_id : ℕ
  pub account_id : ℕ
  pub instrument_id : ℕ
  pub timeframe : String
  pub strategy_version_id : ℕ
  pub risk_profile_version_id : ℕ
  pub desired_state : DesiredState
  pub actual_state : ActualState
  pub version : ℕ
  pub updated_at : ℕ

pub record BotRun : Type 0 where
  pub id : ℕ
  pub bot_id : ℕ
  pub status : RunStatus
  pub code_version : String
  pub started_at : ℕ
  pub stopped_at : Option ℕ
  pub stop_reason : Option String
  pub heartbeat_at : Option ℕ

-- The columns of `trade_order` that a cancellation reads or writes.
pub record TradeOrder : Type 0 where
  pub id : ℕ
  pub workspace_id : ℕ
  pub account_id : ℕ
  pub status : OrderStatus
  pub updated_at : ℕ

-- `order_status_history`
pub record StatusChange : Type 0 where
  pub order_id : ℕ
  pub from_status : OrderStatus
  pub to_status : OrderStatus
  pub reason_code : String
  pub occurred_at : ℕ

-- `audit_log`: what the audit rows of this program part say
pub record AuditRow : Type 0 where
  pub workspace_id : ℕ
  pub action : String
  pub resource_type : String
  pub resource_id : ℕ
  pub after_data : Payload

-- `trading_position`, as far as `fail_bot` asks for it
pub record OpenPosition : Type 0 where
  pub account_id : ℕ
  pub instrument_id : ℕ
  pub is_open : Bool

pub record Db : Type 0 where
  pub bots : List TradingBot
  pub runs : List BotRun
  pub orders : List TradeOrder
  pub history : List StatusChange
  pub positions : List OpenPosition
  pub audit : List AuditRow
  pub log : EventLog

-- `_CANCELLABLE_STATUSES`, of bot_lifecycle.py and of order_flow.py
abbrev pub is_cancellable : OrderStatus → Bool
is_cancellable OrderStatus.pending = true
is_cancellable OrderStatus.submitted = true
is_cancellable OrderStatus.partially_filled = true
is_cancellable _ = false

abbrev pub is_running : RunStatus → Bool
is_running RunStatus.running = true
is_running _ = false

abbrev pub is_paused : RunStatus → Bool
is_paused RunStatus.paused = true
is_paused _ = false

-- `status.in_(("running", "paused"))`
abbrev pub is_live : RunStatus → Bool
is_live RunStatus.running = true
is_live RunStatus.paused = true
is_live _ = false

pub data StartupError : Type 0 where
  secrets trading_permission account emergency_stop strategy risk_profile instrument data_freshness
        unknown_timeframe :
      StartupError

pub data LifecycleError : Type 0 where
  already_in_target_state invalid_state no_active_bot_run no_paused_bot_run : LifecycleError
  startup_validation_failed : StartupError → LifecycleError
  invalid_status_transition : LifecycleError
