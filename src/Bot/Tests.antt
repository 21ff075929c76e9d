-- ===== src/Bot/Tests.antt =====
-- The lifecycle theorems at concrete bots.
use ai_system_trading.Prelude.{◌≡◌, refl, false, none, some, List, [], ◌∷◌, inl, is_ok, arith}
use ai_system_trading.Halt.{Store, activate_or_escalate}
use ai_system_trading.Halt.Runs.{Call, deescalate, run}
use ai_system_trading.Halt.Tests.{no_halts, no_halts-IsValid, bot_scope, stopping}
use ai_system_trading.Bot.Types.{
  DesiredState, ActualState, RunStatus, OrderStatus, TradingBot, BotRun, TradeOrder, Db,
}
use ai_system_trading.Bot.Startup.{Env}
use ai_system_trading.Bot.Orders.{cancel_open_orders}
use ai_system_trading.Bot.Commands.{start_bot, pause_bot, resume_bot, stop_bot}
use ai_system_trading.Bot.Failure.{fail_bot}
use ai_system_trading.Bot.Cancelling.{Cancelled, cancel_open_orders-Cancelled}
use ai_system_trading.Bot.Lockstep.{IsValid}
use ai_system_trading.Bot.Outcomes.{
  PauseOutcome, pause_bot_outcome, ResumeOutcome, resume_bot_outcome,
}
use ai_system_trading.Bot.Stopping.{StopOutcome, stop_bot_outcome}
use ai_system_trading.Bot.Starting.{StartOutcome, start_bot_outcome}
use ai_system_trading.Bot.Blocking.{emergency_blocks}
use ai_system_trading.Bot.Failing.{Failed, fail_bot_outcome}

abbrev pub a_bot : DesiredState → ActualState → TradingBot
a_bot desired actual = record {
  id = 7;
  workspace_id = 1;
  name = "breakout";
  execution_mode = "paper";
  connection_id = 3;
  account_id = 5;
  instrument_id = 2;
  timeframe = "1m";
  strategy_version_id = 4;
  risk_profile_version_id = 6;
  desired_state = desired;
  actual_state = actual;
  version = 1;
  updated_at = 0;
}

abbrev pub running_bot : TradingBot
running_bot = a_bot DesiredState.running ActualState.running

abbrev paused_bot : TradingBot
paused_bot = a_bot DesiredState.paused ActualState.paused

abbrev stopped_bot : TradingBot
stopped_bot = a_bot DesiredState.stopped ActualState.failed

abbrev pub a_run : RunStatus → BotRun
a_run status = record {
  id = 11;
  bot_id = 7;
  status = status;
  code_version = "dummy-pipeline-0.1";
  started_at = 0;
  stopped_at = none;
  stop_reason = none;
  heartbeat_at = none;
}

abbrev pub pending_order : TradeOrder
pending_order = record {
  id = 12;
  workspace_id = 1;
  account_id = 5;
  status = OrderStatus.pending;
  updated_at = 0;
}

abbrev pub a_db : TradingBot → RunStatus → Db
a_db b status = record {
  bots = b ∷ [];
  runs = a_run status ∷ [];
  orders = pending_order ∷ [];
  history = [];
  positions = [];
  audit = [];
  log = record { system_events = []; outbox = []; fresh = 20 };
}

pub running_db-IsValid : IsValid (a_db running_bot RunStatus.running)
running_db-IsValid = record {
  unique_bots = (tt, tt);
  unique_runs = (tt, tt);
  unique_orders = (tt, tt);
  used = (omega arith, tt);
  in_step = (record { running = refl; paused = refl; actual = refl }, tt);
}

paused_db-IsValid : IsValid (a_db paused_bot RunStatus.paused)
paused_db-IsValid = record {
  unique_bots = (tt, tt);
  unique_runs = (tt, tt);
  unique_orders = (tt, tt);
  used = (omega arith, tt);
  in_step = (record { running = refl; paused = refl; actual = refl }, tt);
}

stopped_db-IsValid : IsValid (a_db stopped_bot RunStatus.failed)
stopped_db-IsValid = record {
  unique_bots = (tt, tt);
  unique_runs = (tt, tt);
  unique_orders = (tt, tt);
  used = (omega arith, tt);
  in_step = (record { running = refl; paused = refl; actual = refl }, tt);
}

abbrev calls : List Call
calls = deescalate bot_scope "broker_down" 60 none ∷ []

-- A bot that passes every check but that of the emergency stop.
abbrev an_env : Store → Env
an_env halts = record {
  connection = λ i. some (record { exchange_id = 1; secret_ref = some "key"; status = "verified" });
  account = λ i. some (record { status = "active" });
  strategy_version = λ i. some (record { lifecycle_status = "paper_approved"; definition = none });
  risk_profile_version = λ i. some (record { status = "approved" });
  instrument_exchange_code = λ i. some "gmo_coin";
  exchange_code = λ i. some "gmo_coin";
  latest_final_close = λ i tf. some 0;
  halts = halts;
  now = 0;
}

emergency_blocks_example :
    (is_ok (
        start_bot
          (an_env (run calls (activate_or_escalate stopping no_halts).1))
          stopped_bot
          (a_db stopped_bot RunStatus.failed))
      ≡ false)
    × (is_ok (
          resume_bot
            (an_env (run calls (activate_or_escalate stopping no_halts).1))
            stopped_bot
            (a_db stopped_bot RunStatus.failed))
        ≡ false)
emergency_blocks_example =
    emergency_blocks stopping no_halts calls
      (an_env (run calls (activate_or_escalate stopping no_halts).1)) stopped_bot
      (a_db stopped_bot RunStatus.failed) no_halts-IsValid refl (inl refl) refl

pause_bot_outcome_example :
    PauseOutcome 60 running_bot
      (a_db running_bot RunStatus.running)
      DesiredState.running
      (pause_bot 60 running_bot (a_db running_bot RunStatus.running))
pause_bot_outcome_example =
    pause_bot_outcome 60 running_bot (a_db running_bot RunStatus.running) running_db-IsValid refl

resume_bot_outcome_example :
    ResumeOutcome
      (an_env no_halts)
      paused_bot
      (a_db paused_bot RunStatus.paused)
      DesiredState.paused
      (resume_bot (an_env no_halts) paused_bot (a_db paused_bot RunStatus.paused))
resume_bot_outcome_example =
    resume_bot_outcome (an_env no_halts) paused_bot (a_db paused_bot RunStatus.paused)
      paused_db-IsValid refl

stop_bot_outcome_example :
    StopOutcome 60 running_bot DesiredState.running
      (stop_bot none 60 running_bot (a_db running_bot RunStatus.running))
stop_bot_outcome_example =
    stop_bot_outcome none 60 running_bot (a_db running_bot RunStatus.running) running_db-IsValid
      refl

start_bot_outcome_example :
    StartOutcome
      (an_env no_halts)
      stopped_bot
      (a_db stopped_bot RunStatus.failed)
      DesiredState.stopped
      (start_bot (an_env no_halts) stopped_bot (a_db stopped_bot RunStatus.failed))
start_bot_outcome_example =
    start_bot_outcome (an_env no_halts) stopped_bot (a_db stopped_bot RunStatus.failed)
      stopped_db-IsValid refl

fail_bot_outcome_example :
    Failed 60 running_bot
      (fail_bot 60 running_bot "ValueError" 3 (a_db running_bot RunStatus.running))
fail_bot_outcome_example =
    fail_bot_outcome 60 running_bot "ValueError" 3 (a_db running_bot RunStatus.running)
      running_db-IsValid refl

cancel_open_orders-Cancelled_example :
    Cancelled 5
      (a_db running_bot RunStatus.running)
      (cancel_open_orders running_bot "bot_paused" 60 (a_db running_bot RunStatus.running))
cancel_open_orders-Cancelled_example =
    cancel_open_orders-Cancelled running_bot "bot_paused" 60 (a_db running_bot RunStatus.running)
      (tt, tt)
