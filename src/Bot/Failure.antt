-- ===== src/Bot/Failure.antt =====
-- `fail_bot`: what the worker does with a bot whose evaluation keeps raising.
use Prim.Native.String
use Prim.Native.String.{String}
use ai_system_trading.Prelude.{
  ℕ, Bool, ◌&&◌, Option, none, some, List, [], ◌∷◌, if◌then◌else◌, Result, ok, ◌>>=◌, ◌==◌,
  nat_equality, map,
}
use ai_system_trading.Prelude.Decimal.{decimal}
use ai_system_trading.Prelude.Rows.{find, any}
use ai_system_trading.Events.{
  error, words, uuid, uuids, flag, number, NewEvent, publish_system_event,
}
use ai_system_trading.Bot.Types.{
  DesiredState, ActualState, RunStatus, TradingBot, BotRun, TradeOrder, OpenPosition, Db, is_live,
  LifecycleError,
}
use ai_system_trading.Bot.Orders.{cancel_open_orders}
use ai_system_trading.Bot.Commands.{run_of, audited, with_state, save_bot, save_run}

infixr 66 ◌+++◌
abbrev ◌+++◌ : String → String → String
s +++ t = String.◌++◌ s t

-- The query for an open position of the account in the instrument.
abbrev holds : TradingBot → List OpenPosition → Bool
holds b =
    any (λ p. p.account_id == b.account_id && (p.instrument_id == b.instrument_id && p.is_open))

failure_message : TradingBot → String → ℕ → Bool → String
failure_message b error_type failures holds_position =
    "Bot「"
    +++ b.name
    +++ "」の評価が"
    +++ decimal failures
    +++ "回続けて失敗したため停止しました"
    +++ "(原因の種類: "
    +++ error_type
    +++ ")"
    +++ (if holds_position then "。建玉が残っており、損切りの監視も止まっています。確認してください" else "")

abbrev failure_event : TradingBot → String → ℕ → Bool → NewEvent
failure_event b error_type failures holds_position = record {
  workspace_id = b.workspace_id;
  severity = error;
  category = "system";
  event_type = "bot_failed";
  reason_code = some "evaluation_failed";
  message = failure_message b error_type failures holds_position;
  payload =
      ("bot_id", uuid b.id)
      ∷ ("bot_name", words b.name)
      ∷ ("error_type", words error_type)
      ∷ ("consecutive_failures", number failures)
      ∷ ("holds_position", flag holds_position)
      ∷ [];
  aggregate_type = "trading_bot";
  aggregate_id = b.id;
  source_type = "trading_worker";
  source_id = none;
  target_type = some "bot";
  target_id = some b.id;
  correlation_id = none;
}

abbrev pub failed_run : ℕ → String → BotRun → BotRun
failed_run now error_type r = record r {
  status = RunStatus.failed;
  stopped_at = some now;
  stop_reason = some ("evaluation failed: " +++ error_type);
}

-- `if bot_run is not None: ...`
abbrev pub end_run : ℕ → String → Option BotRun → Db → Db
end_run now error_type none db = db
end_run now error_type (some r) db = save_run (failed_run now error_type r) db

-- The audit row and the notice, after the rows of bot and run.
unfoldable pub report_failure : TradingBot → String → ℕ → List TradeOrder → Db → Db
unfolding failure_message publish_system_event
report_failure b error_type failures orders db =
    let holds_position = holds b db.positions in
    let db' =
      audited b "trading_bot.failed"
        (("error_type", words error_type)
          ∷ ("consecutive_failures", number failures)
          ∷ ("cancelled_order_ids", uuids (map (λ o. o.id) orders))
          ∷ ("holds_position", flag holds_position)
          ∷ [])
        db in
    record db' {
      log = (publish_system_event (failure_event b error_type failures holds_position) db'.log).1;
    }

unfoldable pub mark_failed : ℕ → TradingBot → String → ℕ → Option BotRun → List TradeOrder → Db → Db
unfolding report_failure
mark_failed now b error_type failures run orders db = report_failure b error_type failures orders (
    end_run now error_type run
      (save_bot (with_state DesiredState.stopped ActualState.failed now b) db))

unfoldable pub fail_bot : ℕ → TradingBot → String → ℕ → Db → Result LifecycleError Db
unfolding mark_failed cancel_open_orders
fail_bot now b error_type failures db = do
  let run = find (run_of b.id is_live) db.runs
  (orders, db') ← cancel_open_orders b "bot_failed" now db
  ok (mark_failed now b error_type failures run orders db')
