-- ===== src/Emergency/Stop.antt =====
-- `emergency_stop_bot` and `emergency_stop_workspace`, up to the commit: the halt, the bots and the
-- audit row. `_close_open_positions`, which places orders afterwards, is not modelled.
use Prim.Native.String
use Prim.Native.String.{String}
use ai_system_trading.Prelude.{
  ℕ, ◌+◌, Bool, false, Option, none, some, List, [], ◌∷◌, ◌++◌, map, if◌then◌else◌, is_some, Result,
  ok, err, ◌>>=◌, ◌==◌, nat_equality,
}
use ai_system_trading.Prelude.Rows.{select}
use ai_system_trading.Events.{Value, words, uuid, uuids, coded, flag, null}
use ai_system_trading.Halt.{
  ScopeType, bot, workspace, emergency_stopped, HaltScope, TradingHalt, Reactivation, Store,
  Activation, find_active_halt, activate_or_escalate,
}
use ai_system_trading.Halt.Announce.{scope_type_text}
use ai_system_trading.Bot.Types.{
  DesiredState, TradingBot, AuditRow, Db, StartupError, LifecycleError, already_in_target_state,
  invalid_state, no_active_bot_run, no_paused_bot_run, startup_validation_failed,
  invalid_status_transition,
}
use ai_system_trading.Bot.Commands.{stop_bot}

infixr 66 ◌+++◌
abbrev ◌+++◌ : String → String → String
s +++ t = String.◌++◌ s t

abbrev pub reason_code : String
reason_code = "user_emergency_stop"

-- `_SCOPE_LABEL.get(type, type)`
abbrev stop_label : ScopeType → String
stop_label bot = "Bot単位"
stop_label workspace = "ワークスペース全体"
stop_label other = scope_type_text other

-- The keyword arguments of both functions.
pub record Request : Type 0 where
  pub requested_by : Option ℕ
  pub close_positions : Bool
  pub reason : Option String

-- The database: the tables of the bots, and those of the halts, which share one event log.
pub record World : Type 0 where
  pub db : Db
  pub halts : List TradingHalt
  pub reactivations : List Reactivation

abbrev pub halt_store : World → Store
halt_store w = record { halts = w.halts; log = w.db.log; reactivations = w.reactivations }

-- What the loop over the bots has collected.
pub record Stopped : Type 0 where
  pub stopped_bot_ids : List ℕ
  pub bot_stop_failures : List (ℕ × LifecycleError)

-- `EmergencyStopResult`, before any position is closed
pub record EmergencyStopResult : Type 0 where
  pub halt : TradingHalt
  pub already_active : Bool
  pub bots : Stopped

abbrev failure_code : StartupError → String
failure_code StartupError.secrets = "secrets"
failure_code StartupError.trading_permission = "trading_permission"
failure_code StartupError.account = "account"
failure_code StartupError.emergency_stop = "emergency_stop"
failure_code StartupError.strategy = "strategy"
failure_code StartupError.risk_profile = "risk_profile"
failure_code StartupError.instrument = "instrument"
failure_code StartupError.data_freshness = "data_freshness"
failure_code StartupError.unknown_timeframe = "unknown_timeframe"

-- `exc.code`
abbrev error_code : LifecycleError → String
error_code already_in_target_state = "already_in_target_state"
error_code invalid_state = "invalid_state"
error_code no_active_bot_run = "no_active_bot_run"
error_code no_paused_bot_run = "no_paused_bot_run"
error_code (startup_validation_failed e) = "startup_validation_failed_" +++ failure_code e
error_code invalid_status_transition = "invalid_status_transition"

-- The `try` around `stop_bot`, in its savepoint. A failed cancellation is an `OrderFlowError`,
-- which is not caught.
abbrev pub attempted :
    TradingBot → Db → Result LifecycleError Db → Result LifecycleError (Stopped × Db)
attempted b db (ok db') = ok (record { stopped_bot_ids = b.id ∷ []; bot_stop_failures = [] }, db')
attempted b db (err invalid_status_transition) = err invalid_status_transition
attempted b db (err e) =
    ok (record { stopped_bot_ids = []; bot_stop_failures = (b.id, e) ∷ [] }, db)

unfoldable pub stop_if_active :
    DesiredState → ℕ → TradingBot → Db → Result LifecycleError (Stopped × Db)
unfolding stop_bot
stop_if_active DesiredState.stopped now b db =
    ok (record { stopped_bot_ids = []; bot_stop_failures = [] }, db)
stop_if_active _ now b db =
    attempted b db (stop_bot (some "emergency stop") now b db >>= λ x. ok x.1)

abbrev pub both : Stopped → Stopped → Stopped
both s t = record {
  stopped_bot_ids = s.stopped_bot_ids ++ t.stopped_bot_ids;
  bot_stop_failures = s.bot_stop_failures ++ t.bot_stop_failures;
}

-- The loop over the bots.
unfoldable pub stop_each : ℕ → List TradingBot → Db → Result LifecycleError (Stopped × Db)
unfolding stop_if_active
stop_each now [] db = ok (record { stopped_bot_ids = []; bot_stop_failures = [] }, db)
stop_each now (b ∷ bs) db = do
  (s, db') ← stop_if_active b.desired_state now b db
  (t, db'') ← stop_each now bs db'
  ok (both s t, db'')

abbrev optional_words : Option String → Value
optional_words none = null
optional_words (some w) = words w

abbrev optional_uuid : Option ℕ → Value
optional_uuid none = null
optional_uuid (some i) = uuid i

abbrev pub stop_activation : HaltScope → Request → ℕ → Activation
stop_activation s q correlation_id = record {
  scope = s;
  reason_code = reason_code;
  level = emergency_stopped;
  auto_releasable = false;
  event = some (record {
    event_type = "user_emergency_stop";
    message = "緊急停止が実行されました(" +++ stop_label s.scope_type +++ ")";
    payload =
        ("close_positions", flag q.close_positions) ∷ ("reason", optional_words q.reason) ∷ [];
    source_type = if is_some q.requested_by then "user" else "operator_script";
    source_id = q.requested_by;
    correlation_id = some correlation_id;
  });
}

abbrev pub stop_audit : HaltScope → Request → EmergencyStopResult → Db → Db
stop_audit s q result db =
    let row : AuditRow = record {
      workspace_id = s.workspace_id;
      action = "trading_halt.user_emergency_stop";
      resource_type = "trading_halt";
      resource_id = result.halt.id;
      after_data =
          ("scope_type", words (scope_type_text s.scope_type))
          ∷ ("scope_id", optional_uuid s.scope_id)
          ∷ ("already_active", flag result.already_active)
          ∷ ("close_positions", flag q.close_positions)
          ∷ ("reason", optional_words q.reason)
          ∷ ("stopped_bot_ids", uuids result.bots.stopped_bot_ids)
          ∷ (
            "bot_stop_failures",
            coded (map (λ f. (f.0, error_code f.1)) result.bots.bot_stop_failures),
          )
          ∷ [];
    } in
    record db { audit = db.audit ++ row ∷ [] }

-- The tables once the halt is active, with the halt and whether it was there before.
unfoldable pub activate_stop : HaltScope → Request → World → TradingHalt × Bool × World
unfolding find_active_halt activate_or_escalate
activate_stop s q w =
    let st : Store = record (halt_store w) {
      log = record w.db.log { fresh = w.db.log.fresh + 1 };
    } in
    let (h, st') = activate_or_escalate (stop_activation s q w.db.log.fresh) st in
    (
      h,
      is_some (find_active_halt s reason_code st),
      record {
        db = record w.db { log = st'.log };
        halts = st'.halts;
        reactivations = st'.reactivations;
      },
    )

-- `_activate_and_stop`; an exception rolls everything back (`_stop`).
unfoldable pub activate_and_stop :
    HaltScope
    → List TradingBot
    → Request
    → ℕ
    → World
    → Result LifecycleError (EmergencyStopResult × World)
unfolding activate_stop stop_each
activate_and_stop s bots q now w =
    let (h, already, w') = activate_stop s q w in
    stop_each now bots w'.db >>= λ x.
    let result : EmergencyStopResult = record { halt = h; already_active = already; bots = x.0 } in
    ok (result, record w' { db = stop_audit s q result x.1 })

unfoldable pub emergency_stop_bot :
    TradingBot → Request → ℕ → World → Result LifecycleError (EmergencyStopResult × World)
unfolding activate_and_stop
emergency_stop_bot b q now w =
    activate_and_stop
      (record { workspace_id = b.workspace_id; scope_type = bot; scope_id = some b.id }) (b ∷ []) q
      now w

unfoldable pub emergency_stop_workspace :
    ℕ → Request → ℕ → World → Result LifecycleError (EmergencyStopResult × World)
unfolding activate_and_stop
emergency_stop_workspace id q now w =
    activate_and_stop (record { workspace_id = id; scope_type = workspace; scope_id = none })
      (select (λ b. b.workspace_id == id) w.db.bots) q now w
