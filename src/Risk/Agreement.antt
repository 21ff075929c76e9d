-- ===== src/Risk/Agreement.antt =====
-- The recorded results and the two breach flags, which the code keeps side by side.
use ai_system_trading.Prelude.{
  ◌↔◌, ℕ, ◌≡◌, refl, Bool, true, false, not, Option, none, some, [], ◌∷◌, inl, inr, arith,
  Bool-cases, ltb, leb,
}
use ai_system_trading.Prelude.Rows.{any, any-append}
use ai_system_trading.Money.Decimal.{Decimal, whole, less}
use ai_system_trading.Money.Order.{at_most-less}
use ai_system_trading.Risk.Types.{RiskState, Rule, RuleResult, hard_limit_breach}
use ai_system_trading.Risk.Sizing.{sized_quantity}
use ai_system_trading.Risk.Checks.{
  Findings, judge, judge_share, start, check_quantity, check_per_trade_loss, check_all_open_risk,
  judge_lost, check_daily_loss, check_weekly_loss, check_peak_drawdown, check_consecutive_losses,
  check_reward_risk, judge_interval, check_order_interval, check_data_delay, check_no_short,
  check_holding_cap, is_binance, check_binance, quantity_too_small, shorts, prospective_notional,
  btc_cap,
}
use ai_system_trading.Risk.Evaluate.{judge_losses, judge_all, conclude, evaluate_conservative_v1}

abbrev pub failed : RuleResult → Bool
failed r = not r.passed

-- The hard flag is set exactly when a recorded rule has failed.
unfoldable Agrees : Findings → Type 0
Agrees f = f.hard_breach ≡ any failed f.results

judge-Agrees :
    (rule : Rule) (value : Option Decimal) (passed hard initial : Bool) (f : Findings)
    → passed ≡ not hard
    → Agrees f
    → Agrees (judge rule value passed hard initial f)
unfolding judge Agrees
judge-Agrees rule value passed hard initial f opposite agrees = ground (
  arith,
  any-append failed f.results (record { rule = rule; passed = passed; value = value } ∷ []),
)

judge_share-Agrees :
    (rule : Rule) (pct limit hard : Decimal) (f : Findings)
    → Agrees f
    → Agrees (judge_share rule pct limit hard f)
unfolding judge_share
judge_share-Agrees rule pct limit hard f =
    judge-Agrees rule (some pct) _ _ (less limit pct) f (at_most-less pct hard)

judge_lost-Agrees :
    (rule : Rule) (pct : Option Decimal) (limit hard : Decimal) (f : Findings)
    → Agrees f
    → Agrees (judge_lost rule pct limit hard f)
unfolding judge_lost
judge_lost-Agrees rule none limit hard f = judge-Agrees rule none true false false f refl
judge_lost-Agrees rule (some pct) limit hard f = judge_share-Agrees rule pct limit hard f

judge_interval-Agrees :
    (minutes : Option Decimal) (least hard : ℕ) (f : Findings)
    → Agrees f
    → Agrees (judge_interval minutes least hard f)
unfolding judge_interval
judge_interval-Agrees none least hard f =
    judge-Agrees Rule.order_interval none true false false f refl
judge_interval-Agrees (some minutes) least hard f =
    judge-Agrees Rule.order_interval (some minutes) _ _ (less minutes (whole least)) f
      (at_most-less (whole hard) minutes)

check_binance-Agrees : (s : RiskState) (f : Findings) → Agrees f → Agrees (check_binance s f)
unfolding check_binance check_no_short check_holding_cap
check_binance-Agrees s f h = elim (Bool-cases (is_binance s.exchange_code)) [
  | inl hit ↦ rw hit (
      judge-Agrees Rule.binance_btc_holding_cap (some (prospective_notional s)) _ _ false _
        (at_most-less (prospective_notional s) (btc_cap s))
        (judge-Agrees Rule.binance_no_short none _ (shorts s) false f refl h))
  | inr other ↦ rw other h
]

start-Agrees : (s : RiskState) → Agrees (start s)
unfolding start Agrees
start-Agrees s = refl

judge_losses-Agrees : (s : RiskState) → Agrees (judge_losses s)
unfolding judge_losses check_quantity check_per_trade_loss check_all_open_risk check_daily_loss
    check_weekly_loss check_peak_drawdown
judge_losses-Agrees s = judge_lost-Agrees _ _ _ _ _ (
    judge_lost-Agrees _ _ _ _ _ (
      judge_lost-Agrees _ _ _ _ _ (
        judge_share-Agrees _ _ _ _ _ (
          judge_share-Agrees _ _ _ _ _ (
            judge-Agrees Rule.quantity_calculation (some (sized_quantity s)) _
              (quantity_too_small s) false (start s) refl (start-Agrees s))))))

counts_opposite : (a b : ℕ) → leb a b ≡ not (ltb b a)
counts_opposite a b = ground arith

judge_all-Agrees : (s : RiskState) → Agrees (judge_all s)
unfolding judge_all check_consecutive_losses check_reward_risk check_order_interval check_data_delay
judge_all-Agrees s = check_binance-Agrees s _ (
    judge_share-Agrees _ _ _ _ _ (
      judge_interval-Agrees _ _ _ _ (
        judge-Agrees Rule.reward_risk none true false false _ refl (
          judge-Agrees Rule.consecutive_losses (some (whole s.consecutive_losses)) _ _
            (ltb s.rules.consecutive_loss_limit s.consecutive_losses) _ (counts_opposite _ _)
            (judge_losses-Agrees s)))))

conclude-reason :
    (s : RiskState) (f : Findings)
    → Agrees f
    → ((conclude s f).reason_code ≡ some hard_limit_breach)
      ↔ (any failed (conclude s f).rule_results ≡ true)
unfolding conclude Agrees
conclude-reason s f agrees = ground arith

-- The verdict's reason is a breach of a hard limit exactly when one of the results that are
-- recorded with it has not passed.
pub reason-hard_iff_failed :
    (s : RiskState)
    → ((evaluate_conservative_v1 s).reason_code ≡ some hard_limit_breach)
      ↔ (any failed (evaluate_conservative_v1 s).rule_results ≡ true)
unfolding evaluate_conservative_v1
reason-hard_iff_failed s = conclude-reason s (judge_all s) (judge_all-Agrees s)
