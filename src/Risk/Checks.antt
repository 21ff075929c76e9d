-- ===== src/Risk/Checks.antt =====
-- The threshold checks of `_evaluate_conservative_v1`, each as a step on what has been found so far.
use ai_system_trading.Prelude.{
  ℕ, Bool, true, false, not, ◌&&◌, ◌||◌, Option, none, some, List, [], ◌∷◌, ◌++◌, if◌then◌else◌,
  ltb, leb,
}
use ai_system_trading.Money.Decimal.{
  Decimal, whole, ◌+𝔻◌, ◌-𝔻◌, ◌*𝔻◌, ◌/𝔻◌, difference, less, at_most, larger, positive,
}
use ai_system_trading.Trade.Types.{ExchangeCode, SignalAction, binance}
use ai_system_trading.Risk.Types.{RiskState, Rule, RuleResult}
use ai_system_trading.Risk.Sizing.{stress_adjusted_stop, sized_quantity}

-- `results`, `hard_breach` and `initial_breach`
pub record Findings : Type 0 where
  pub results : List RuleResult
  pub hard_breach : Bool
  pub initial_breach : Bool

-- One entry of `results`, and `if hard: hard_breach = True elif initial: initial_breach = True`.
unfoldable pub judge : Rule → Option Decimal → (passed hard initial : Bool) → Findings → Findings
judge rule value passed hard initial f = record {
  results = f.results ++ record { rule = rule; passed = passed; value = value } ∷ [];
  hard_breach = hard || f.hard_breach;
  initial_breach = (not hard && initial) || f.initial_breach;
}

-- A share that must not exceed its two limits.
unfoldable pub judge_share :
    Rule → Decimal → (initial_limit hard_limit : Decimal) → Findings → Findings
unfolding judge
judge_share rule pct limit hard f =
    judge rule (some pct) (at_most pct hard) (less hard pct) (less limit pct) f

unfoldable pub start : RiskState → Findings
start s = record {
  results = record { rule = Rule.equity; passed = true; value = some s.equity } ∷ [];
  hard_breach = false;
  initial_breach = false;
}

abbrev pub below_minimum : Option Decimal → Decimal → Bool
below_minimum none quantity = false
below_minimum (some least) quantity = less quantity least

unfoldable pub quantity_too_small : RiskState → Bool
unfolding sized_quantity
quantity_too_small s =
    at_most (sized_quantity s) (whole 0)
    || below_minimum s.instrument.min_quantity (sized_quantity s)

unfoldable pub check_quantity : RiskState → Findings → Findings
unfolding judge quantity_too_small
check_quantity s f =
    judge Rule.quantity_calculation (some (sized_quantity s)) (not (quantity_too_small s))
      (quantity_too_small s) false f

unfoldable pub loss_at_stop : RiskState → Decimal
unfolding sized_quantity stress_adjusted_stop
loss_at_stop s = sized_quantity s *𝔻 stress_adjusted_stop s

unfoldable pub loss_pct : RiskState → Decimal
unfolding loss_at_stop
loss_pct s = if positive s.equity then loss_at_stop s /𝔻 s.equity else whole 1

unfoldable pub check_per_trade_loss : RiskState → Findings → Findings
unfolding judge_share loss_pct
check_per_trade_loss s f =
    judge_share Rule.per_trade_loss (loss_pct s) s.rules.risk_per_trade s.rules.risk_per_trade_hard
      f

unfoldable pub all_open_pct : RiskState → Decimal
unfolding loss_at_stop
all_open_pct s =
    if positive s.equity then (s.existing_open_risk +𝔻 loss_at_stop s) /𝔻 s.equity else whole 1

unfoldable pub check_all_open_risk : RiskState → Findings → Findings
unfolding judge_share all_open_pct
check_all_open_risk s f =
    judge_share Rule.all_open_risk (all_open_pct s) s.rules.all_open_risk_limit
      s.rules.all_open_risk_limit_hard f

-- The share that was lost since a recorded equity, if there is one to measure from.
unfoldable pub lost_share : Option Decimal → Decimal → Option Decimal
lost_share none equity = none
lost_share (some base) equity =
    if at_most base (whole 0) then none else some (larger (whole 0) ((base -𝔻 equity) /𝔻 base))

-- A rule with no snapshot to measure from passes.
unfoldable pub judge_lost : Rule → Option Decimal → (limit hard : Decimal) → Findings → Findings
unfolding judge judge_share
judge_lost rule none limit hard f = judge rule none true false false f
judge_lost rule (some pct) limit hard f = judge_share rule pct limit hard f

unfoldable pub check_daily_loss : RiskState → Findings → Findings
unfolding judge_lost lost_share
check_daily_loss s f =
    judge_lost Rule.daily_loss (lost_share s.day_start_equity s.equity) s.rules.daily_loss_limit
      s.rules.daily_loss_limit_hard f

unfoldable pub check_weekly_loss : RiskState → Findings → Findings
unfolding judge_lost lost_share
check_weekly_loss s f =
    judge_lost Rule.weekly_loss (lost_share s.week_start_equity s.equity) s.rules.weekly_loss_limit
      s.rules.weekly_loss_limit_hard f

unfoldable pub check_peak_drawdown : RiskState → Findings → Findings
unfolding judge_lost lost_share
check_peak_drawdown s f =
    judge_lost Rule.peak_drawdown (lost_share s.peak_equity s.equity) s.rules.peak_drawdown_limit
      s.rules.peak_drawdown_limit_hard f

unfoldable pub check_consecutive_losses : RiskState → Findings → Findings
unfolding judge
check_consecutive_losses s f =
    judge Rule.consecutive_losses (some (whole s.consecutive_losses))
      (leb s.consecutive_losses s.rules.consecutive_loss_limit_hard)
      (ltb s.rules.consecutive_loss_limit_hard s.consecutive_losses)
      (ltb s.rules.consecutive_loss_limit s.consecutive_losses) f

-- Not applicable: entries have no profit target.
unfoldable pub check_reward_risk : Findings → Findings
unfolding judge
check_reward_risk f = judge Rule.reward_risk none true false false f

unfoldable pub judge_interval : Option Decimal → (least least_hard : ℕ) → Findings → Findings
unfolding judge
judge_interval none least hard f = judge Rule.order_interval none true false false f
judge_interval (some minutes) least hard f =
    judge Rule.order_interval (some minutes) (at_most (whole hard) minutes)
      (less minutes (whole hard)) (less minutes (whole least)) f

unfoldable pub check_order_interval : RiskState → Findings → Findings
unfolding judge_interval
check_order_interval s f =
    judge_interval s.minutes_since_last_order s.rules.min_order_interval_minutes
      s.rules.min_order_interval_minutes_hard f

-- `(now - latest_candle_close_time).total_seconds()` over the length of a bar
unfoldable pub delay_bars : RiskState → Decimal
delay_bars s = difference s.now s.latest_candle_close_time 0 /𝔻 whole s.bar_seconds

unfoldable pub check_data_delay : RiskState → Findings → Findings
unfolding judge_share delay_bars
check_data_delay s f =
    judge_share Rule.data_delay (delay_bars s) (whole s.rules.max_data_delay_bars)
      (whole s.rules.max_data_delay_bars_hard) f

abbrev pub is_buy : SignalAction → Bool
is_buy SignalAction.buy = true
is_buy _ = false

abbrev pub is_sell : SignalAction → Bool
is_sell SignalAction.sell = true
is_sell _ = false

unfoldable pub shorts : RiskState → Bool
shorts s = is_sell s.signal_action && not s.has_open_position

unfoldable pub check_no_short : RiskState → Findings → Findings
unfolding judge shorts
check_no_short s f = judge Rule.binance_no_short none (not (shorts s)) (shorts s) false f

-- A buy grows the position that is held, anything else shrinks it.
unfoldable pub prospective_position_quantity : RiskState → Decimal
unfolding sized_quantity
prospective_position_quantity s =
    if is_buy s.signal_action
    then s.existing_position_quantity +𝔻 sized_quantity s
    else larger (whole 0) (s.existing_position_quantity -𝔻 sized_quantity s)

unfoldable pub prospective_notional : RiskState → Decimal
unfolding prospective_position_quantity
prospective_notional s = prospective_position_quantity s *𝔻 s.market_price

unfoldable pub btc_cap : RiskState → Decimal
btc_cap s = s.equity *𝔻 s.rules.binance.btc_holding_cap_pct_of_equity

unfoldable pub check_holding_cap : RiskState → Findings → Findings
unfolding judge prospective_notional btc_cap
check_holding_cap s f =
    judge Rule.binance_btc_holding_cap (some (prospective_notional s))
      (at_most (prospective_notional s) (btc_cap s)) (less (btc_cap s) (prospective_notional s))
      false f

abbrev pub is_binance : ExchangeCode → Bool
is_binance binance = true
is_binance _ = false

-- The two checks that only Binance has.
unfoldable pub check_binance : RiskState → Findings → Findings
unfolding check_no_short check_holding_cap
check_binance s f =
    if is_binance s.exchange_code then check_holding_cap s (check_no_short s f) else f
