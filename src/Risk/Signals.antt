-- ===== src/Risk/Signals.antt =====
-- `evaluate_signal`: the state is gathered, judged and recorded, and the halts follow.
use ai_system_trading.Prelude.{
  ℕ, ◌+◌, ◌-◌, ◌*◌, ◌/◌, ◌%◌, Bool, true, false, Option, none, some, [], ◌∷◌, ◌++◌, if◌then◌else◌,
  Result, ok, err, ◌>>=◌,
}
use ai_system_trading.Money.Decimal.{Decimal, whole, ◌*𝔻◌, at_most}
use ai_system_trading.Halt.{Store, last_release_time}
use ai_system_trading.Bot.Types.{TradingBot}
use ai_system_trading.Bot.Startup.{timeframe_seconds}
use ai_system_trading.Trade.Types.{
  ExchangeCode, Instrument, SignalAction, Signal, Candle, TradingPosition, Db,
}
use ai_system_trading.Trade.Position.{open_position}
use ai_system_trading.Trade.Market.{slippage_coefficient, AccountValuation, value_account}
use ai_system_trading.Risk.Types.{
  Rules, RiskState, Rule, Outcome, deny, hard_limit_breach, PureRiskResult, RiskDecision,
}
use ai_system_trading.Risk.Queries.{
  recent_final_candles, last_of, fee_buffer_per_unit, stop_distance, spread, existing_open_risk,
  equity_at, peak_equity, consecutive_losses, minutes_since_last_order,
}
use ai_system_trading.Risk.Evaluate.{evaluate_conservative_v1}
use ai_system_trading.Risk.Sync.{
  RiskGateError, invalid_signal_action, market_price_unavailable, missing_rule, account_scope,
  sync_trading_halts,
}

-- The arguments of `evaluate_signal`, with the clock.
pub record Question : Type 0 where
  pub signal : Signal
  pub account_id : ℕ
  pub instrument : Instrument
  pub bot : TradingBot
  pub rules_id : ℕ
  pub rules : Rules
  pub exchange_code : ExchangeCode
  pub now : ℕ

-- `_ATR_HISTORY_CANDLES`
abbrev pub atr_history_candles : ℕ
atr_history_candles = 260

-- `now.replace(hour=0, ...)`, in seconds since 1970-01-01, a Thursday
abbrev pub day_start : ℕ → ℕ
day_start now = now - now % 86400

abbrev weekday : ℕ → ℕ
weekday now = (now / 86400 + 3) % 7

abbrev pub week_start : ℕ → ℕ
week_start now = day_start now - weekday now * 86400

abbrev pub tradable : SignalAction → Result RiskGateError Unit
tradable SignalAction.buy = ok tt
tradable SignalAction.sell = ok tt
tradable SignalAction.hold = err invalid_signal_action

abbrev pub known {ℓ} : {A E : Type ℓ} → E → Option A → Result E A
known e none = err e
known e (some a) = ok a

abbrev or_zero : Option Decimal → Decimal
or_zero none = whole 0
or_zero (some d) = d

abbrev held_quantity : Option TradingPosition → Decimal
held_quantity none = whole 0
held_quantity (some p) = p.quantity

abbrev has_position : Option TradingPosition → Bool
has_position none = false
has_position (some p) = true

-- The position is asked for on Binance only.
unfoldable pub binance_position : Question → Db → Option TradingPosition
unfolding open_position
binance_position q db = elim q.exchange_code [
  | ExchangeCode.binance ↦ open_position q.account_id q.instrument.id db
  | _ ↦ none
]

-- The `RiskState` of a signal.
unfoldable pub gather :
    Question
    → Store
    → Db
    → Candle
    → (stop fee : Decimal) → AccountValuation
    → (bar_seconds : ℕ) → RiskState
unfolding binance_position existing_open_risk equity_at peak_equity consecutive_losses
    minutes_since_last_order spread
gather q halts db candle stop fee valuation bar_seconds =
    let scope = account_scope q.bot.workspace_id q.account_id in
    let held = binance_position q db in
    record {
      signal_action = q.signal.action;
      now = q.now;
      rules = q.rules;
      exchange_code = q.exchange_code;
      instrument = q.instrument;
      market_price = candle.close;
      latest_candle_close_time = candle.close_time;
      bar_seconds = bar_seconds;
      stop_distance = stop;
      expected_slippage =
          spread q.exchange_code q.instrument.id db
          *𝔻 or_zero (slippage_coefficient q.exchange_code);
      fee_buffer_per_unit = fee;
      equity = valuation.equity;
      available_cash = valuation.cash;
      existing_open_risk = existing_open_risk q.account_id q.instrument.id db;
      has_open_position = has_position held;
      existing_position_quantity = held_quantity held;
      day_start_equity = equity_at q.account_id (day_start q.now) db;
      week_start_equity = equity_at q.account_id (week_start q.now) db;
      peak_equity =
          peak_equity q.account_id (last_release_time scope "peak_drawdown_limit" halts) db;
      consecutive_losses =
          consecutive_losses q.account_id (last_release_time scope "consecutive_loss_limit" halts)
            db;
      minutes_since_last_order = minutes_since_last_order q.bot.id q.now db;
    }

abbrev adjusted : PureRiskResult → Option Decimal
adjusted result = elim result.outcome [
  | Outcome.allow ↦ none
  | Outcome.allow_with_adjustment ↦ result.approved_quantity
  | Outcome.deny ↦ none
]

-- The decision's row; the order flow reads its identifier and its signal.
unfoldable pub decide : Question → PureRiskResult → Db → RiskDecision × Db
decide q result db =
    let decision : RiskDecision = record {
      id = db.fresh;
      signal_id = q.signal.id;
      risk_profile_version_id = q.rules_id;
      outcome = result.outcome;
      rule_results = result.rule_results;
      adjusted_quantity = adjusted result;
      reason_code = result.reason_code;
    } in
    (
      decision,
      record db {
        decisions =
            db.decisions ++ record { id = decision.id; signal_id = decision.signal_id } ∷ [];
        fresh = db.fresh + 1;
      },
    )

-- What is recorded when there is no equity left: the one rule that failed.
abbrev pub no_equity : Decimal → PureRiskResult
no_equity equity = record {
  rule_results = record { rule = Rule.equity; passed = false; value = some equity } ∷ [];
  outcome = deny;
  approved_quantity = none;
  reason_code = some hard_limit_breach;
}

pub record Evaluation : Type 0 where
  pub decision : RiskDecision
  pub approved_quantity : Option Decimal
  pub db : Db
  pub halts : Store

-- The verdict recorded, and the halts synchronised with it.
unfoldable pub record_verdict :
    Question → PureRiskResult → Store → Db → Result RiskGateError Evaluation
unfolding decide sync_trading_halts
record_verdict q result halts db =
    let (decision, after) = decide q result db in
    sync_trading_halts q.bot q.account_id result q.now halts >>= λ synced. ok (record {
      decision = decision;
      approved_quantity = result.approved_quantity;
      db = after;
      halts = synced;
    })

-- Without equity the halts are left alone.
unfoldable pub record_no_equity : Question → Decimal → Store → Db → Evaluation
unfolding decide
record_no_equity q equity halts db =
    let (decision, after) = decide q (no_equity equity) db in
    record { decision = decision; approved_quantity = none; db = after; halts = halts }

-- The judging of a signal whose prices are known.
unfoldable pub judge_valued :
    Question
    → Store
    → Db
    → Candle
    → (stop fee : Decimal) → AccountValuation
    → Result RiskGateError Evaluation
unfolding gather evaluate_conservative_v1 record_verdict record_no_equity
judge_valued q halts db candle stop fee valuation =
    if at_most valuation.equity (whole 0)
    then ok (record_no_equity q valuation.equity halts db)
    else (known missing_rule (timeframe_seconds q.bot.timeframe) >>= λ bar_seconds.
        record_verdict q
          (evaluate_conservative_v1 (gather q halts db candle stop fee valuation bar_seconds)) halts
          db)

unfoldable pub evaluate_signal : Question → Store → Db → Result RiskGateError Evaluation
unfolding recent_final_candles stop_distance fee_buffer_per_unit value_account judge_valued spread
evaluate_signal q halts db =
    let candles = recent_final_candles q.instrument.id q.bot.timeframe atr_history_candles db in
    tradable q.signal.action >>= λ _. known market_price_unavailable (last_of candles) >>= λ candle.
    stop_distance q.exchange_code q.instrument candles (spread q.exchange_code q.instrument.id db)
      q.rules
    >>= λ stop. fee_buffer_per_unit q.exchange_code candle.close q.rules >>= λ fee.
        judge_valued q halts db candle stop fee (value_account q.account_id q.instrument db)
