-- ===== src/Risk/Recorded.antt =====
-- What `rule_results` holds under the keys that `_sync_trading_halts` reads.
use ai_system_trading.Prelude.{
  ℕ, ◌≡◌, refl, ◌∙◌, Bool, true, false, not, Option, none, some, List, [], ◌∷◌, ◌++◌, if◌then◌else◌,
  inl, inr, arith, Bool-cases, nat_beq, ok,
}
use ai_system_trading.Prelude.Rows.{find, find-append_miss}
use ai_system_trading.Money.Decimal.{Decimal, at_most, whole}
use ai_system_trading.Risk.Types.{RiskState, Rule, RuleResult, rule_rank}
use ai_system_trading.Risk.Sizing.{sized_quantity}
use ai_system_trading.Risk.Checks.{
  Findings, judge, judge_share, start, check_quantity, check_per_trade_loss, check_all_open_risk,
  judge_lost, check_daily_loss, check_weekly_loss, check_peak_drawdown, check_consecutive_losses,
  check_reward_risk, judge_interval, check_order_interval, check_data_delay, check_no_short,
  check_holding_cap, is_binance, check_binance, loss_pct, all_open_pct, delay_bars, lost_share,
  quantity_too_small,
}
use ai_system_trading.Risk.Evaluate.{judge_losses, judge_all, conclude, evaluate_conservative_v1}
use ai_system_trading.Risk.Sync.{for_rule, rule_passed}

-- The entry under a key.
abbrev pub recorded : Rule → Findings → Option RuleResult
recorded k f = find (for_rule k) f.results

abbrev or_else : Option RuleResult → Option RuleResult → Option RuleResult
or_else none later = later
or_else (some r) later = some r

abbrev entry : Rule → Rule → Bool → Option Decimal → Option RuleResult
entry k rule passed value =
    if nat_beq (rule_rank rule) (rule_rank k)
    then some (record { rule = rule; passed = passed; value = value })
    else none

find_last :
    (p : RuleResult → Bool) (r : RuleResult) (rs : List RuleResult)
    → find p (rs ++ r ∷ []) ≡ or_else (find p rs) (if p r then some r else none)
find_last p r [] = refl
find_last p r (q ∷ rs) = elim (Bool-cases (p q)) [
  | inl hit ↦ rw hit
  | inr miss ↦ rw miss (find_last p r rs)
]

judge-recorded :
    (k rule : Rule) (value : Option Decimal) (passed hard initial : Bool) (f : Findings)
    → recorded k (judge rule value passed hard initial f)
      ≡ or_else (recorded k f) (entry k rule passed value)
unfolding judge
judge-recorded k rule value passed hard initial f = find_last (for_rule k) _ f.results

judge_share-recorded :
    (k rule : Rule) (pct limit hard : Decimal) (f : Findings)
    → recorded k (judge_share rule pct limit hard f)
      ≡ or_else (recorded k f) (entry k rule (at_most pct hard) (some pct))
unfolding judge_share judge
judge_share-recorded k rule pct limit hard f = find_last (for_rule k) _ f.results

-- A share of losses passes if it is under the hard limit or there is none.
abbrev pub lost_passed : Option Decimal → Decimal → Bool
lost_passed none hard = true
lost_passed (some pct) hard = at_most pct hard

judge_lost-recorded :
    (k rule : Rule) (pct : Option Decimal) (limit hard : Decimal) (f : Findings)
    → recorded k (judge_lost rule pct limit hard f)
      ≡ or_else (recorded k f) (entry k rule (lost_passed pct hard) pct)
unfolding judge_lost judge
judge_lost-recorded k rule none limit hard f = find_last (for_rule k) _ f.results
judge_lost-recorded k rule (some pct) limit hard f = judge_share-recorded k rule pct limit hard f

-- The later checks keep the keys that are there.
append-keeps :
    (k : Rule) (r x : RuleResult) (rs : List RuleResult)
    → find (for_rule k) rs ≡ some r
    → find (for_rule k) (rs ++ x ∷ []) ≡ some r
append-keeps k r x rs h = find_last (for_rule k) x rs ∙ rw h

judge_interval-recorded :
    (k : Rule) (minutes : Option Decimal) (least hard : ℕ) (f : Findings)
    → nat_beq 9 (rule_rank k) ≡ false
    → recorded k (judge_interval minutes least hard f) ≡ recorded k f
unfolding judge_interval judge
judge_interval-recorded k none least hard f apart = find-append_miss (for_rule k) f.results _ apart
judge_interval-recorded k (some minutes) least hard f apart =
    find-append_miss (for_rule k) f.results _ apart

check_binance-keeps :
    (k : Rule) (s : RiskState) (f : Findings) (r : RuleResult)
    → recorded k f ≡ some r
    → recorded k (check_binance s f) ≡ some r
unfolding check_binance check_no_short check_holding_cap judge
check_binance-keeps k s f r h = elim (Bool-cases (is_binance s.exchange_code)) [
  | inl hit ↦ rw hit (append-keeps k r _ _ (append-keeps k r _ f.results h))
  | inr other ↦ rw other h
]

abbrev daily_share : RiskState → Option Decimal
daily_share s = lost_share s.day_start_equity s.equity

abbrev weekly_share : RiskState → Option Decimal
weekly_share s = lost_share s.week_start_equity s.equity

abbrev peak_share : RiskState → Option Decimal
peak_share s = lost_share s.peak_equity s.equity

abbrev pub daily_kept : RiskState → Bool
daily_kept s = lost_passed (daily_share s) s.rules.daily_loss_limit_hard

abbrev pub weekly_kept : RiskState → Bool
weekly_kept s = lost_passed (weekly_share s) s.rules.weekly_loss_limit_hard

abbrev pub drawdown_kept : RiskState → Bool
drawdown_kept s = lost_passed (peak_share s) s.rules.peak_drawdown_limit_hard

abbrev pub delay_kept : RiskState → Bool
delay_kept s = at_most (delay_bars s) (whole s.rules.max_data_delay_bars_hard)

-- The entries that the six checks of `judge_losses` leave under a key, in their order.
losses-recorded :
    (k : Rule) (s : RiskState)
    → recorded k (judge_losses s)
      ≡ or_else
          (or_else
            (or_else
              (or_else
                (or_else
                  (or_else (recorded k (start s)) (
                    entry k Rule.quantity_calculation
                      (not (quantity_too_small s))
                      (some (sized_quantity s))))
                  (entry k Rule.per_trade_loss
                    (at_most (loss_pct s) s.rules.risk_per_trade_hard)
                    (some (loss_pct s))))
                (entry k Rule.all_open_risk
                  (at_most (all_open_pct s) s.rules.all_open_risk_limit_hard)
                  (some (all_open_pct s))))
              (entry k Rule.daily_loss (daily_kept s) (daily_share s)))
            (entry k Rule.weekly_loss (weekly_kept s) (weekly_share s)))
          (entry k Rule.peak_drawdown (drawdown_kept s) (peak_share s))
unfolding judge_losses check_quantity check_per_trade_loss check_all_open_risk check_daily_loss
    check_weekly_loss check_peak_drawdown
losses-recorded k s = rw (
  judge_lost-recorded k Rule.peak_drawdown (peak_share s) s.rules.peak_drawdown_limit
      s.rules.peak_drawdown_limit_hard,
  judge_lost-recorded k Rule.weekly_loss (weekly_share s) s.rules.weekly_loss_limit
      s.rules.weekly_loss_limit_hard,
  judge_lost-recorded k Rule.daily_loss (daily_share s) s.rules.daily_loss_limit
      s.rules.daily_loss_limit_hard,
  judge_share-recorded k Rule.all_open_risk,
  judge_share-recorded k Rule.per_trade_loss,
  judge-recorded k Rule.quantity_calculation,
)

all-keeps :
    (k : Rule) (s : RiskState) (r : RuleResult)
    → nat_beq 9 (rule_rank k) ≡ false
    → recorded k (judge_losses s) ≡ some r
    → recorded k (judge_all s) ≡ some r
unfolding judge_all check_consecutive_losses check_reward_risk check_order_interval check_data_delay
    judge judge_share
all-keeps k s r apart h = check_binance-keeps k s _ r (
    append-keeps k r _ _ (
      judge_interval-recorded k s.minutes_since_last_order _ _ _ apart
      ∙ append-keeps k r _ _ (append-keeps k r _ _ h)))

delay-recorded :
    (s : RiskState)
    → recorded Rule.data_delay (judge_all s)
      ≡ some (record { rule = Rule.data_delay; passed = delay_kept s; value = some (delay_bars s) })
unfolding judge_all check_consecutive_losses check_reward_risk check_order_interval check_data_delay
    start
delay-recorded s = check_binance-keeps Rule.data_delay s _ _ (
    rw
      (
        judge_share-recorded Rule.data_delay Rule.data_delay,
        judge_interval-recorded Rule.data_delay s.minutes_since_last_order
            s.rules.min_order_interval_minutes s.rules.min_order_interval_minutes_hard,
        judge-recorded Rule.data_delay Rule.reward_risk,
        judge-recorded Rule.data_delay Rule.consecutive_losses,
        losses-recorded Rule.data_delay s,
      )
      refl)

conclude-results : (s : RiskState) (f : Findings) → (conclude s f).rule_results ≡ f.results
unfolding conclude
conclude-results s f = ground arith

read :
    (s : RiskState) (k : Rule) (r : RuleResult)
    → recorded k (judge_all s) ≡ some r
    → rule_passed (evaluate_conservative_v1 s).rule_results k ≡ ok r.passed
unfolding evaluate_conservative_v1 rule_passed
read s k r h = rw (conclude-results s (judge_all s), h)

-- The four entries are there, each with what its rule says.
pub read_delay :
    (s : RiskState)
    → rule_passed (evaluate_conservative_v1 s).rule_results Rule.data_delay ≡ ok (delay_kept s)
read_delay s = read s Rule.data_delay _ (delay-recorded s)

pub read_daily :
    (s : RiskState)
    → rule_passed (evaluate_conservative_v1 s).rule_results Rule.daily_loss ≡ ok (daily_kept s)
unfolding start
read_daily s =
    read s Rule.daily_loss _
      (all-keeps Rule.daily_loss s _ refl (losses-recorded Rule.daily_loss s))

pub read_weekly :
    (s : RiskState)
    → rule_passed (evaluate_conservative_v1 s).rule_results Rule.weekly_loss ≡ ok (weekly_kept s)
unfolding start
read_weekly s =
    read s Rule.weekly_loss _
      (all-keeps Rule.weekly_loss s _ refl (losses-recorded Rule.weekly_loss s))

pub read_drawdown :
    (s : RiskState)
    → rule_passed (evaluate_conservative_v1 s).rule_results Rule.peak_drawdown
      ≡ ok (drawdown_kept s)
unfolding start
read_drawdown s =
    read s Rule.peak_drawdown _
      (all-keeps Rule.peak_drawdown s _ refl (losses-recorded Rule.peak_drawdown s))
