-- ===== src/Risk/Types.antt =====
-- The rules, the state and the result of app/trading/application/risk_gate.py.
use ai_system_trading.Prelude.{ℕ, Bool, Option, List}
use ai_system_trading.Money.Decimal.{Decimal, decimal_of}
use ai_system_trading.Trade.Types.{Instrument, ExchangeCode, SignalAction}

-- `rules["oanda"]`
pub record OandaRules : Type 0 where
  pub leverage_cap : Decimal
  pub stop_atr_multiplier : Decimal
  pub stop_spread_multiplier : Decimal

-- `rules["binance"]`
pub record BinanceRules : Type 0 where
  pub stop_atr_multiplier : Decimal
  pub stop_spread_multiplier : Decimal
  pub fee_rate : Decimal
  pub order_limit_pct_of_available : Decimal
  pub btc_holding_cap_pct_of_equity : Decimal

-- The JSON payload of a risk profile version, its numbers read. The two reward rules, which the
-- gate does not read, are left out.
pub record Rules : Type 0 where
  pub risk_per_trade : Decimal
  pub risk_per_trade_hard : Decimal
  pub all_open_risk_limit : Decimal
  pub all_open_risk_limit_hard : Decimal
  pub daily_loss_limit : Decimal
  pub daily_loss_limit_hard : Decimal
  pub weekly_loss_limit : Decimal
  pub weekly_loss_limit_hard : Decimal
  pub peak_drawdown_limit : Decimal
  pub peak_drawdown_limit_hard : Decimal
  pub consecutive_loss_limit : ℕ
  pub consecutive_loss_limit_hard : ℕ
  pub min_order_interval_minutes : ℕ
  pub min_order_interval_minutes_hard : ℕ
  pub max_data_delay_bars : ℕ
  pub max_data_delay_bars_hard : ℕ
  pub oanda : OandaRules
  pub binance : BinanceRules

-- `CONSERVATIVE_V1_RULES`
abbrev pub conservative_v1_rules : Rules
conservative_v1_rules = record {
  risk_per_trade = decimal_of 5 3;
  risk_per_trade_hard = decimal_of 2 2;
  all_open_risk_limit = decimal_of 15 3;
  all_open_risk_limit_hard = decimal_of 5 2;
  daily_loss_limit = decimal_of 2 2;
  daily_loss_limit_hard = decimal_of 5 2;
  weekly_loss_limit = decimal_of 4 2;
  weekly_loss_limit_hard = decimal_of 8 2;
  peak_drawdown_limit = decimal_of 5 2;
  peak_drawdown_limit_hard = decimal_of 10 2;
  consecutive_loss_limit = 3;
  consecutive_loss_limit_hard = 7;
  min_order_interval_minutes = 15;
  min_order_interval_minutes_hard = 1;
  max_data_delay_bars = 2;
  max_data_delay_bars_hard = 5;
  oanda = record {
    leverage_cap = decimal_of 30 1;
    stop_atr_multiplier = decimal_of 15 1;
    stop_spread_multiplier = decimal_of 30 1;
  };
  binance = record {
    stop_atr_multiplier = decimal_of 20 1;
    stop_spread_multiplier = decimal_of 30 1;
    fee_rate = decimal_of 1 3;
    order_limit_pct_of_available = decimal_of 10 2;
    btc_holding_cap_pct_of_equity = decimal_of 25 2;
  };
}

-- Times are in whole seconds.
pub record RiskState : Type 0 where
  pub signal_action : SignalAction
  pub now : ℕ
  pub rules : Rules
  pub exchange_code : ExchangeCode
  pub instrument : Instrument
  pub market_price : Decimal
  pub latest_candle_close_time : ℕ
  pub bar_seconds : ℕ
  pub stop_distance : Decimal
  pub expected_slippage : Decimal
  pub fee_buffer_per_unit : Decimal
  pub equity : Decimal
  pub available_cash : Decimal
  pub existing_open_risk : Decimal
  pub has_open_position : Bool
  pub existing_position_quantity : Decimal
  pub day_start_equity : Option Decimal
  pub week_start_equity : Option Decimal
  pub peak_equity : Option Decimal
  pub consecutive_losses : ℕ
  pub minutes_since_last_order : Option Decimal

-- The keys of `rule_results`
pub data Rule : Type 0 where
  equity quantity_calculation per_trade_loss all_open_risk daily_loss weekly_loss peak_drawdown
        consecutive_losses reward_risk order_interval data_delay binance_no_short
        binance_btc_holding_cap :
      Rule

abbrev pub rule_rank : Rule → ℕ
rule_rank equity = 0
rule_rank quantity_calculation = 1
rule_rank per_trade_loss = 2
rule_rank all_open_risk = 3
rule_rank daily_loss = 4
rule_rank weekly_loss = 5
rule_rank peak_drawdown = 6
rule_rank consecutive_losses = 7
rule_rank reward_risk = 8
rule_rank order_interval = 9
rule_rank data_delay = 10
rule_rank binance_no_short = 11
rule_rank binance_btc_holding_cap = 12

-- An entry of `rule_results`: its key, whether it passed, and the number that was judged.
pub record RuleResult : Type 0 where
  pub rule : Rule
  pub passed : Bool
  pub value : Option Decimal

pub data Outcome : Type 0 where
  allow allow_with_adjustment deny : Outcome

pub data ReasonCode : Type 0 where
  hard_limit_breach initial_threshold_breach : ReasonCode

pub record PureRiskResult : Type 0 where
  pub rule_results : List RuleResult
  pub outcome : Outcome
  pub approved_quantity : Option Decimal
  pub reason_code : Option ReasonCode

-- A row of `risk_decision`.
pub record RiskDecision : Type 0 where
  pub id : ℕ
  pub signal_id : ℕ
  pub risk_profile_version_id : ℕ
  pub outcome : Outcome
  pub rule_results : List RuleResult
  pub adjusted_quantity : Option Decimal
  pub reason_code : Option ReasonCode
