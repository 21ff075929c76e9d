-- ===== src/Bot/Commands.antt =====
-- The commands of bot_lifecycle.py. The clock is read once for each command.
use Prim.Native.String.{String}
use text.Mathlib.Text.{◌==◌ as str_eq}
use ai_system_trading.Prelude.{
  ℕ, ◌+◌, Bool, ◌&&◌, Option, none, some, List, [], ◌∷◌, ◌++◌, if◌then◌else◌, Result, ok, err,
  ◌>>=◌, map_err, ◌==◌, nat_equality, map,
}
use ai_system_trading.Prelude.Rows.{find}
use ai_system_trading.Prelude.Table.{save}
use ai_system_trading.Events.{words, uuid, uuids, Payload, EventLog}
use ai_system_trading.Bot.Types.{
  DesiredState, ActualState, RunStatus, TradingBot, BotRun, TradeOrder, AuditRow, Db, is_running,
  is_paused, is_live, LifecycleError, already_in_target_state, invalid_state, no_active_bot_run,
  no_paused_bot_run, startup_validation_failed,
}
use ai_system_trading.Bot.Startup.{Env, validate_bot_startup}
use ai_system_trading.Bot.Orders.{cancel_open_orders}

-- `db.scalar(select(BotRun).where(BotRun.bot_id == bot.id, ...))`
abbrev pub run_of : ℕ → (RunStatus → Bool) → BotRun → Bool
run_of bot_id test r = r.bot_id == bot_id && test r.status

-- `_audit`
abbrev pub audited : TradingBot → String → Payload → Db → Db
audited b action after db =
    let row : AuditRow = record {
      workspace_id = b.workspace_id;
      action = action;
      resource_type = "trading_bot";
      resource_id = b.id;
      after_data = after;
    } in
    record db { audit = db.audit ++ row ∷ [] }

-- The four assignments to the bot, flushed to its row.
abbrev pub with_state : DesiredState → ActualState → ℕ → TradingBot → TradingBot
with_state desired actual now b = record b {
  desired_state = desired;
  actual_state = actual;
  version = b.version + 1;
  updated_at = now;
}

abbrev pub save_bot : TradingBot → Db → Db
save_bot b db = record db { bots = save (λ x. x.id) b db.bots }

abbrev pub save_run : BotRun → Db → Db
save_run r db = record db { runs = save (λ x. x.id) r db.runs }

abbrev order_ids : List TradeOrder → Payload
order_ids os = ("cancelled_order_ids", uuids (map (λ o. o.id) os)) ∷ []

abbrev pub new_run : ℕ → TradingBot → ℕ → BotRun
new_run id b now = record {
  id = id;
  bot_id = b.id;
  status = RunStatus.running;
  code_version = "dummy-pipeline-0.1";
  started_at = now;
  stopped_at = none;
  stop_reason = none;
  heartbeat_at = none;
}

-- The part of `start_bot` after its guards.
unfoldable pub open_run : ℕ → TradingBot → Db → BotRun × Db
open_run now b db =
    let r = new_run db.log.fresh b now in
    let log : EventLog = record db.log { fresh = db.log.fresh + 1 } in
    let b' = with_state DesiredState.running ActualState.running now b in
    (
      r,
      audited b "trading_bot.started" (("bot_run_id", uuid r.id) ∷ [])
          (save_bot b' (record db { runs = db.runs ++ r ∷ []; log = log })),
    )

unfoldable pub start_from :
    DesiredState → Env → TradingBot → Db → Result LifecycleError (BotRun × Db)
unfolding open_run validate_bot_startup
start_from DesiredState.running env b db = err already_in_target_state
start_from DesiredState.paused env b db = err invalid_state
start_from DesiredState.stopped env b db =
    map_err startup_validation_failed (validate_bot_startup env b) >>= λ _.
    ok (open_run env.now b db)

unfoldable pub start_bot : Env → TradingBot → Db → Result LifecycleError (BotRun × Db)
unfolding start_from
start_bot env b db = start_from b.desired_state env b db

-- `raise BotLifecycleError(...)` where the query found no run
abbrev pub found_or : LifecycleError → Option BotRun → Result LifecycleError BotRun
found_or e none = err e
found_or e (some r) = ok r

-- The part of `pause_bot` after the cancellations.
unfoldable pub mark_paused : ℕ → TradingBot → BotRun → List TradeOrder → Db → BotRun × Db
mark_paused now b r orders db =
    let r' = record r { status = RunStatus.paused; heartbeat_at = some now } in
    (
      r',
      audited b "trading_bot.paused" (order_ids orders)
          (save_run r' (save_bot (with_state DesiredState.paused ActualState.paused now b) db)),
    )

unfoldable pub pause_from : DesiredState → ℕ → TradingBot → Db → Result LifecycleError (BotRun × Db)
unfolding mark_paused cancel_open_orders
pause_from DesiredState.paused now b db = err already_in_target_state
pause_from DesiredState.stopped now b db = err invalid_state
pause_from DesiredState.running now b db = do
  r ← found_or no_active_bot_run (find (run_of b.id is_running) db.runs)
  (orders, db') ← cancel_open_orders b "bot_paused" now db
  ok (mark_paused now b r orders db')

unfoldable pub pause_bot : ℕ → TradingBot → Db → Result LifecycleError (BotRun × Db)
unfolding pause_from
pause_bot now b db = pause_from b.desired_state now b db

unfoldable pub mark_resumed : ℕ → TradingBot → BotRun → Db → BotRun × Db
mark_resumed now b r db =
    let r' = record r { status = RunStatus.running; heartbeat_at = some now } in
    (
      r',
      audited b "trading_bot.resumed" (("bot_run_id", uuid r.id) ∷ [])
          (save_run r' (save_bot (with_state DesiredState.running ActualState.running now b) db)),
    )

unfoldable pub resume_from :
    DesiredState → Env → TradingBot → Db → Result LifecycleError (BotRun × Db)
unfolding mark_resumed validate_bot_startup
resume_from DesiredState.running env b db = err already_in_target_state
resume_from DesiredState.stopped env b db = err invalid_state
resume_from DesiredState.paused env b db = do
  r ← found_or no_paused_bot_run (find (run_of b.id is_paused) db.runs)
  map_err startup_validation_failed (validate_bot_startup env b) >>= λ _.
      ok (mark_resumed env.now b r db)

unfoldable pub resume_bot : Env → TradingBot → Db → Result LifecycleError (BotRun × Db)
unfolding resume_from
resume_bot env b db = resume_from b.desired_state env b db

-- `reason or "stop command"`: an empty text counts as none
abbrev stop_reason_or : Option String → String
stop_reason_or none = "stop command"
stop_reason_or (some reason) = if str_eq reason "" then "stop command" else reason

unfoldable pub mark_stopped :
    Option String → ℕ → TradingBot → BotRun → List TradeOrder → Db → BotRun × Db
mark_stopped reason now b r orders db =
    let why = stop_reason_or reason in
    let r' = record r {
      status = RunStatus.stopped;
      stopped_at = some now;
      stop_reason = some why;
    } in
    (
      r',
      audited b "trading_bot.stopped" (order_ids orders ++ ("reason", words why) ∷ [])
          (save_run r' (save_bot (with_state DesiredState.stopped ActualState.stopped now b) db)),
    )

unfoldable pub stop_live : Option String → ℕ → TradingBot → Db → Result LifecycleError (BotRun × Db)
unfolding mark_stopped cancel_open_orders
stop_live reason now b db = do
  r ← found_or no_active_bot_run (find (run_of b.id is_live) db.runs)
  (orders, db') ← cancel_open_orders b "bot_stopped" now db
  ok (mark_stopped reason now b r orders db')

-- The second guard, `desired_state not in ("running", "paused")`, has no state left to refuse.
unfoldable pub stop_from :
    DesiredState → Option String → ℕ → TradingBot → Db → Result LifecycleError (BotRun × Db)
unfolding stop_live
stop_from DesiredState.stopped reason now b db = err already_in_target_state
stop_from DesiredState.running reason now b db = stop_live reason now b db
stop_from DesiredState.paused reason now b db = stop_live reason now b db

unfoldable pub stop_bot : Option String → ℕ → TradingBot → Db → Result LifecycleError (BotRun × Db)
unfolding stop_from
stop_bot reason now b db = stop_from b.desired_state reason now b db
