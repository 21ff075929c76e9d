-- ===== src/Risk/Evaluate.antt =====
-- `_evaluate_conservative_v1`.
use ai_system_trading.Prelude.{◌||◌, none, some, if◌then◌else◌}
use ai_system_trading.Risk.Types.{
  RiskState, PureRiskResult, allow, allow_with_adjustment, deny, hard_limit_breach,
  initial_threshold_breach,
}
use ai_system_trading.Risk.Sizing.{sized_quantity, was_adjusted}
use ai_system_trading.Risk.Checks.{
  Findings, start, check_quantity, check_per_trade_loss, check_all_open_risk, check_daily_loss,
  check_weekly_loss, check_peak_drawdown, check_consecutive_losses, check_reward_risk,
  check_order_interval, check_data_delay, check_binance,
}

-- The checks on the size of the order and on the losses.
unfoldable pub judge_losses : RiskState → Findings
unfolding start check_quantity check_per_trade_loss check_all_open_risk check_daily_loss
    check_weekly_loss check_peak_drawdown
judge_losses s = check_peak_drawdown s (
    check_weekly_loss s (
      check_daily_loss s
        (check_all_open_risk s (check_per_trade_loss s (check_quantity s (start s))))))

unfoldable pub judge_all : RiskState → Findings
unfolding judge_losses check_consecutive_losses check_reward_risk check_order_interval
    check_data_delay check_binance
judge_all s = check_binance s (
    check_data_delay s
      (check_order_interval s (check_reward_risk (check_consecutive_losses s (judge_losses s)))))

-- The outcome of what was found.
unfoldable pub conclude : RiskState → Findings → PureRiskResult
unfolding sized_quantity was_adjusted
conclude s f =
    if f.hard_breach || f.initial_breach
    then record {
      rule_results = f.results;
      outcome = deny;
      approved_quantity = none;
      reason_code = some (if f.hard_breach then hard_limit_breach else initial_threshold_breach);
    }
    else record {
      rule_results = f.results;
      outcome = if was_adjusted s then allow_with_adjustment else allow;
      approved_quantity = some (sized_quantity s);
      reason_code = none;
    }

unfoldable pub evaluate_conservative_v1 : RiskState → PureRiskResult
unfolding judge_all conclude
evaluate_conservative_v1 s = conclude s (judge_all s)
