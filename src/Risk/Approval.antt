-- ===== src/Risk/Approval.antt =====
-- When `_evaluate_conservative_v1` approves an order, and what it approves.
use ai_system_trading.Prelude.{◌≡◌, ◌↔◌, ◌≢◌, refl, true, false, none, some, arith}
use ai_system_trading.Risk.Types.{RiskState, Rule, deny}
use ai_system_trading.Risk.Sizing.{sized_quantity}
use ai_system_trading.Risk.Checks.{
  Findings, start, check_per_trade_loss, check_all_open_risk, check_daily_loss, check_weekly_loss,
  check_peak_drawdown, check_reward_risk, check_order_interval, check_data_delay,
}
use ai_system_trading.Risk.Evaluate.{judge_losses, judge_all, conclude, evaluate_conservative_v1}
use ai_system_trading.Risk.Limits.{
  Permitted, IsQuiet, after, judge-IsQuiet, judge_share-IsQuiet, judge_lost-IsQuiet,
  judge_interval-IsQuiet, check_quantity-IsQuiet, check_consecutive_losses-IsQuiet,
  check_binance-IsQuiet,
}

start-IsQuiet : (s : RiskState) → ◌↔◌ {0, 0} (IsQuiet (start s)) Unit
unfolding start IsQuiet
start-IsQuiet s = ((λ _. tt), λ _. (refl, refl))

-- Every check in turn, the last one first.
judge_all-Permitted : (s : RiskState) → IsQuiet (judge_all s) ↔ Permitted s
unfolding judge_all judge_losses check_per_trade_loss check_all_open_risk check_daily_loss
    check_weekly_loss check_peak_drawdown check_reward_risk check_order_interval check_data_delay
judge_all-Permitted s =
    let chain = after (check_binance-IsQuiet s _) (
      after (judge_share-IsQuiet _ _ _ _ _) (
        after (judge_interval-IsQuiet _ _ _ _) (
          after (judge-IsQuiet Rule.reward_risk none true false false _) (
            after (check_consecutive_losses-IsQuiet s _) (
              after (judge_lost-IsQuiet _ _ _ _ _) (
                after (judge_lost-IsQuiet _ _ _ _ _) (
                  after (judge_lost-IsQuiet _ _ _ _ _) (
                    after (judge_share-IsQuiet _ _ _ _ _) (
                      after (judge_share-IsQuiet _ _ _ _ _)
                        (after (check_quantity-IsQuiet s _) (start-IsQuiet s))))))))))) in
    (
      (λ q.
          let (binance, (delay, (interval, (_, (losses, found))))) = chain.0 q in
          let (drawdown, (weekly, (daily, (all_open, (per_trade, (quantity, _)))))) = found in
          record {
            quantity = quantity;
            per_trade = per_trade;
            all_open = all_open;
            daily = daily;
            weekly = weekly;
            drawdown = drawdown;
            losses = losses;
            interval = interval;
            delay = delay;
            on_binance = binance;
          }),
      λ p. chain.1 (
        p.on_binance,
        (
          p.delay,
          (
            p.interval,
            (
              (refl, refl),
              (
                p.losses,
                (p.drawdown, (p.weekly, (p.daily, (p.all_open, (p.per_trade, (p.quantity, tt)))))),
              ),
            ),
          ),
        ),
      ),
    )

conclude-approved :
    (s : RiskState) (f : Findings)
    → ((conclude s f).approved_quantity ≡ some (sized_quantity s)) ↔ IsQuiet f
unfolding conclude IsQuiet
conclude-approved s f = ground arith

conclude-deny : (s : RiskState) (f : Findings) → ((conclude s f).outcome ≢ deny) ↔ IsQuiet f
unfolding conclude IsQuiet
conclude-deny s f = ground arith

-- An order is not denied exactly when it keeps every limit, the initial ones and the hard ones
-- (its size, the loss at its stop, the risk of all positions, the losses of the day and the week,
-- the drawdown, the run of losses, the interval between orders, the delay of the data, and on
-- Binance the ban on short sales and the cap on the holding).
pub approved_iff_Permitted :
    (s : RiskState) → ((evaluate_conservative_v1 s).outcome ≢ deny) ↔ Permitted s
unfolding evaluate_conservative_v1
approved_iff_Permitted s =
    let verdict = conclude-deny s (judge_all s) in
    let limits = judge_all-Permitted s in
    ((λ h. limits.0 (verdict.0 h)), λ p. verdict.1 (limits.1 p))
