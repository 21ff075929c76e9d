-- ===== src/Risk/Tests.antt =====
-- The theorems on the risk gate at concrete states.
use ai_system_trading.Prelude.{
  ℕ, ◌≡◌, ◌≢◌, ◌↔◌, refl, true, false, Option, none, some, [], ◌∷◌, ok, is_ok, value_or, arith,
}
use ai_system_trading.Money.Decimal.{
  Decimal, whole, decimal_of, negated, less, at_most, ◌+𝔻◌, ◌-𝔻◌, ◌*𝔻◌, ◌/𝔻◌, difference, floor,
  smaller, larger,
}
use ai_system_trading.Halt.{Store, find_active_halt, last_release_time}
use ai_system_trading.Halt.Invariant.{IsValid}
use ai_system_trading.Halt.Escalation.{current}
use ai_system_trading.Halt.Tests.{no_halts, no_halts-IsValid}
use ai_system_trading.Bot.Types.{TradingBot, DesiredState, ActualState}
use ai_system_trading.Trade.Types.{oanda, SignalAction, OrderSide, EntryType, LedgerEntry, Db}
use ai_system_trading.Trade.Position.{open_position}
use ai_system_trading.Trade.Place.{place_order}
use ai_system_trading.Trade.Tests.{dollar_yen, oanda_db, asking}
use ai_system_trading.Risk.Types.{RiskState, conservative_v1_rules, deny, hard_limit_breach}
use ai_system_trading.Risk.Indicators.{average_true_range}
use ai_system_trading.Risk.Sizing.{sized_quantity}
use ai_system_trading.Risk.Checks.{delay_bars}
use ai_system_trading.Risk.Evaluate.{evaluate_conservative_v1}
use ai_system_trading.Risk.Limits.{Permitted}
use ai_system_trading.Risk.Approval.{approved_iff_Permitted}
use ai_system_trading.Risk.Sync.{delay_scope, account_scope, sync_trading_halts}
use ai_system_trading.Risk.Reflected.{reflected}
use ai_system_trading.Risk.Recorded.{delay_kept}
use ai_system_trading.Risk.Halting.{losses_kept, sync_trading_halts_outcome}
use ai_system_trading.Risk.Blocking.{breach_stops_entries}
use ai_system_trading.Risk.Signals.{Question, Evaluation, record_no_equity, evaluate_signal}
use ai_system_trading.Risk.Approved.{Approved, evaluate_signal-Approved}
use ai_system_trading.Risk.Locks.{reading_of, sync_lock_halts}
use ai_system_trading.Risk.Locked.{lock_stops_entries}

-- A buy at 150 with an equity of a million and a stop 0.5 away, `late` seconds after the bar.
abbrev a_state : ℕ → RiskState
a_state late = record {
  signal_action = SignalAction.buy;
  now = late;
  rules = conservative_v1_rules;
  exchange_code = oanda;
  instrument = dollar_yen;
  market_price = whole 150;
  latest_candle_close_time = 0;
  bar_seconds = 60;
  stop_distance = decimal_of 5 1;
  expected_slippage = decimal_of 1 2;
  fee_buffer_per_unit = whole 0;
  equity = whole 1000000;
  available_cash = whole 1000000;
  existing_open_risk = whole 0;
  has_open_position = false;
  existing_position_quantity = whole 0;
  day_start_equity = some (whole 1010000);
  week_start_equity = none;
  peak_equity = some (whole 1020000);
  consecutive_losses = 1;
  minutes_since_last_order = some (whole 20);
}

abbrev a_bot : TradingBot
a_bot = record {
  id = 7;
  workspace_id = 1;
  name = "trend";
  execution_mode = "paper";
  connection_id = 3;
  account_id = 1;
  instrument_id = 5;
  timeframe = "1m";
  strategy_version_id = 1;
  risk_profile_version_id = 1;
  desired_state = DesiredState.running;
  actual_state = ActualState.running;
  version = 1;
  updated_at = 0;
}

-- 5000 / 0.51 units, in whole steps
sizes : less (sized_quantity (a_state 60)) (whole 9804) ≡ true
unfolding sized_quantity less ◌+𝔻◌ ◌-𝔻◌ ◌*𝔻◌ ◌/𝔻◌ floor smaller
sizes = refl

approves : (evaluate_conservative_v1 (a_state 60)).reason_code ≡ none
unfolding evaluate_conservative_v1 less at_most difference ◌+𝔻◌ ◌-𝔻◌ ◌*𝔻◌ ◌/𝔻◌ larger floor smaller
approves = refl

denies_late : (evaluate_conservative_v1 (a_state 600)).reason_code ≡ some hard_limit_breach
unfolding evaluate_conservative_v1 less at_most difference ◌+𝔻◌ ◌-𝔻◌ ◌*𝔻◌ ◌/𝔻◌ larger floor smaller
denies_late = refl

approved_iff_Permitted_example :
    ((evaluate_conservative_v1 (a_state 60)).outcome ≢ deny) ↔ Permitted (a_state 60)
approved_iff_Permitted_example = approved_iff_Permitted (a_state 60)

sync_trading_halts_outcome_example :
    (end : Store) × (sync_trading_halts a_bot 1
        (evaluate_conservative_v1 (a_state 600))
        600
        no_halts
      ≡ ok end)
    × IsValid end
    × (current (find_active_halt (delay_scope a_bot) "data_delay" end)
        ≡ reflected
            (delay_kept (a_state 600))
            (current (find_active_halt (delay_scope a_bot) "data_delay" no_halts)))
    × (current (find_active_halt (account_scope 1 1) "daily_loss_dd_limit" end)
        ≡ reflected
            (losses_kept (a_state 600))
            (current (find_active_halt (account_scope 1 1) "daily_loss_dd_limit" no_halts)))
sync_trading_halts_outcome_example =
    sync_trading_halts_outcome (a_state 600) a_bot 1 600 no_halts no_halts-IsValid

abbrev after_late : Store
after_late =
    value_or no_halts
      (sync_trading_halts a_bot 1 (evaluate_conservative_v1 (a_state 600)) 600 no_halts)

breach_stops_entries_example :
    is_ok (place_order (asking OrderSide.buy 2) 700 after_late oanda_db) ≡ false
unfolding sync_trading_halts evaluate_conservative_v1 open_position delay_bars less at_most
    difference ◌+𝔻◌ ◌-𝔻◌ ◌*𝔻◌ ◌/𝔻◌ larger
breach_stops_entries_example =
    breach_stops_entries (a_state 600) a_bot 600 no_halts after_late (asking OrderSide.buy 2) 700
      oanda_db no_halts-IsValid refl refl refl refl refl

-- An account with a deposit of a million, and one that then lost four trades in a row.
abbrev booked : EntryType → ℕ → Decimal → LedgerEntry
booked type at amount = record {
  transaction_id = 1;
  account_id = 1;
  fill_id = none;
  asset = "JPY";
  amount = amount;
  entry_type = type;
  occurred_at = at;
}

abbrev funded : Db
funded = record oanda_db { entries = booked EntryType.deposit 1 (whole 1000000) ∷ [] }

abbrev lost : ℕ → LedgerEntry
lost at = booked EntryType.realized_pnl at (negated (whole 100))

abbrev unlucky : Db
unlucky = record oanda_db { entries = lost 2 ∷ lost 3 ∷ lost 4 ∷ lost 5 ∷ [] }

abbrev buying : Question
buying = record {
  signal = record { id = 1; bot_run_id = 1; action = SignalAction.buy };
  account_id = 1;
  instrument = dollar_yen;
  bot = a_bot;
  rules_id = 1;
  rules = conservative_v1_rules;
  exchange_code = oanda;
  now = 200;
}

abbrev granted : Option Decimal → Decimal
granted none = whole 0
granted (some quantity) = quantity

abbrev evaluated : Evaluation
evaluated =
    value_or (record_no_equity buying (whole 0) no_halts funded)
      (evaluate_signal buying no_halts funded)

evaluate_signal-Approved_example :
    Approved buying no_halts funded evaluated (granted evaluated.approved_quantity)
unfolding evaluate_signal at_most ◌+𝔻◌ less ◌/𝔻◌ ◌*𝔻◌ floor smaller ◌-𝔻◌ larger average_true_range
evaluate_signal-Approved_example =
    evaluate_signal-Approved buying no_halts funded evaluated (granted evaluated.approved_quantity)
      refl refl

no_lock : ◌≢◌ {A = ℕ} 0 1
no_lock = omega arith

lock_stops_entries_example :
    is_ok (
      place_order
        (asking OrderSide.buy 2)
        700
        (sync_lock_halts 1 a_bot dollar_yen conservative_v1_rules unlucky no_halts).1
        unlucky)
    ≡ false
unfolding find_active_halt reading_of last_release_time less negated
lock_stops_entries_example =
    lock_stops_entries a_bot dollar_yen conservative_v1_rules unlucky no_halts
      (asking OrderSide.buy 2) 700 unlucky no_halts-IsValid no_lock no_lock refl refl refl
