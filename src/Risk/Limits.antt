-- ===== src/Risk/Limits.antt =====
-- The limits that an approved order keeps, stated apart from the order of the checks.
use ai_system_trading.Prelude.{
  ℕ, ◌≤◌, ◌≡◌, ◌↔◌, refl, ap, if◌then◌else◌, Bool, true, false, not, ◌||◌, Option, none, some, inl,
  inr, arith, Bool-cases,
}
use mathlib.Core.Path.{subst}
use ai_system_trading.Money.Decimal.{Decimal, whole, ◌+𝔻◌, ◌-𝔻◌, ◌*𝔻◌, larger, less, at_most}
use ai_system_trading.Trade.Types.{SignalAction}
use ai_system_trading.Money.Order.{◌≤𝔻◌, less-false, at_most-false}
use ai_system_trading.Risk.Types.{RiskState, Rule}
use ai_system_trading.Risk.Sizing.{sized_quantity}
use ai_system_trading.Risk.Checks.{
  Findings, judge, judge_share, below_minimum, quantity_too_small, check_quantity, judge_lost,
  check_consecutive_losses, judge_interval, check_no_short, check_holding_cap, is_binance,
  check_binance, loss_pct, all_open_pct, delay_bars, lost_share, shorts, is_buy,
  prospective_position_quantity, prospective_notional, btc_cap,
}

-- Both limits on a share are kept.
abbrev pub Within : Decimal → (limit hard : Decimal) → Type 0
Within pct limit hard = (pct ≤𝔻 limit) × (pct ≤𝔻 hard)

abbrev pub WithinLost : Option Decimal → (limit hard : Decimal) → Type 0
WithinLost none limit hard = Unit
WithinLost (some pct) limit hard = Within pct limit hard

abbrev pub AtLeast : Option Decimal → Decimal → Type 0
AtLeast none quantity = Unit
AtLeast (some least) quantity = least ≤𝔻 quantity

-- The last order is as long ago as both intervals say, if there is one.
abbrev pub LongAgo : Option Decimal → (least hard : ℕ) → Type 0
LongAgo none least hard = Unit
LongAgo (some minutes) least hard = (whole least ≤𝔻 minutes) × (whole hard ≤𝔻 minutes)

abbrev pub QuantityKept : RiskState → Type 0
QuantityKept s =
    (less (whole 0) (sized_quantity s) ≡ true)
    × AtLeast s.instrument.min_quantity (sized_quantity s)

abbrev pub LossesKept : RiskState → Type 0
LossesKept s =
    (s.consecutive_losses ≤ s.rules.consecutive_loss_limit)
    × (s.consecutive_losses ≤ s.rules.consecutive_loss_limit_hard)

-- What is held after an order: a purchase adds to it, anything else takes from it, down to zero.
abbrev holding_after : SignalAction → (held size : Decimal) → Decimal
holding_after SignalAction.buy held size = held +𝔻 size
holding_after SignalAction.sell held size = larger (whole 0) (held -𝔻 size)
holding_after SignalAction.hold held size = larger (whole 0) (held -𝔻 size)

-- The worth of the holding after the order is at most its share of the equity.
abbrev pub HoldingKept : RiskState → Type 0
HoldingKept s =
    holding_after s.signal_action s.existing_position_quantity (sized_quantity s) *𝔻 s.market_price
    ≤𝔻 s.equity *𝔻 s.rules.binance.btc_holding_cap_pct_of_equity

prospective_notional-holding :
    (s : RiskState)
    → prospective_notional s
      ≡ holding_after s.signal_action s.existing_position_quantity (sized_quantity s)
        *𝔻 s.market_price
unfolding prospective_notional prospective_position_quantity
prospective_notional-holding s = ap (λ q. q *𝔻 s.market_price) (of s.signal_action)
  where
    of :
        (a : SignalAction)
        → (if is_buy a
            then s.existing_position_quantity +𝔻 sized_quantity s
            else larger (whole 0) (s.existing_position_quantity -𝔻 sized_quantity s))
          ≡ holding_after a s.existing_position_quantity (sized_quantity s)
    of SignalAction.buy = refl
    of SignalAction.sell = refl
    of SignalAction.hold = refl

-- On Binance no position is opened by a sale, and the holding stays under its cap.
abbrev pub BinanceKept : RiskState → Type 0
BinanceKept s = is_binance s.exchange_code ≡ true → (shorts s ≡ false) × HoldingKept s

-- All limits of the risk profile, the initial ones and the hard ones.
pub record Permitted (s : RiskState) : Type 0 where
  pub quantity : QuantityKept s
  pub per_trade : Within (loss_pct s) s.rules.risk_per_trade s.rules.risk_per_trade_hard
  pub all_open :
      Within (all_open_pct s) s.rules.all_open_risk_limit s.rules.all_open_risk_limit_hard
  pub daily :
      WithinLost
        (lost_share s.day_start_equity s.equity)
        s.rules.daily_loss_limit
        s.rules.daily_loss_limit_hard
  pub weekly :
      WithinLost
        (lost_share s.week_start_equity s.equity)
        s.rules.weekly_loss_limit
        s.rules.weekly_loss_limit_hard
  pub drawdown :
      WithinLost
        (lost_share s.peak_equity s.equity)
        s.rules.peak_drawdown_limit
        s.rules.peak_drawdown_limit_hard
  pub losses : LossesKept s
  pub interval :
      LongAgo s.minutes_since_last_order s.rules.min_order_interval_minutes
        s.rules.min_order_interval_minutes_hard
  pub delay :
      Within
        (delay_bars s)
        (whole s.rules.max_data_delay_bars)
        (whole s.rules.max_data_delay_bars_hard)
  pub on_binance : BinanceKept s

unfoldable pub IsQuiet : Findings → Type 0
IsQuiet f = (f.hard_breach ≡ false) × (f.initial_breach ≡ false)

-- A step that says something of its own, after steps that are quiet on their own terms.
pub after {ℓ} : {Q L P M : Type ℓ} → (Q ↔ (L × P)) → (P ↔ M) → Q ↔ (L × M)
after step before =
    ((λ q. ((step.0 q).0, before.0 (step.0 q).1)), λ lm. step.1 (lm.0, before.1 lm.1))

pub judge-IsQuiet :
    (rule : Rule) (value : Option Decimal) (passed hard initial : Bool) (f : Findings)
    → IsQuiet (judge rule value passed hard initial f)
      ↔ (((hard ≡ false) × (initial ≡ false)) × IsQuiet f)
unfolding judge IsQuiet
judge-IsQuiet rule value passed hard initial f = ground arith

pub judge_share-IsQuiet :
    (rule : Rule) (pct limit hard : Decimal) (f : Findings)
    → IsQuiet (judge_share rule pct limit hard f) ↔ (Within pct limit hard × IsQuiet f)
unfolding judge_share
judge_share-IsQuiet rule pct limit hard f =
    let step =
      judge-IsQuiet rule (some pct) (at_most pct hard) (less hard pct) (less limit pct) f in
    let low = less-false pct limit in
    let high = less-false pct hard in
    (
      (λ q. let (flags, quiet) = step.0 q in ((low.0 flags.1, high.0 flags.0), quiet)),
      λ l. step.1 ((high.1 l.0.1, low.1 l.0.0), l.1),
    )

pub judge_lost-IsQuiet :
    (rule : Rule) (pct : Option Decimal) (limit hard : Decimal) (f : Findings)
    → IsQuiet (judge_lost rule pct limit hard f) ↔ (WithinLost pct limit hard × IsQuiet f)
unfolding judge_lost
judge_lost-IsQuiet rule none limit hard f =
    let step = judge-IsQuiet rule none true false false f in
    ((λ q. (tt, (step.0 q).1)), λ l. step.1 ((refl, refl), l.1))
judge_lost-IsQuiet rule (some pct) limit hard f = judge_share-IsQuiet rule pct limit hard f

pub judge_interval-IsQuiet :
    (minutes : Option Decimal) (least hard : ℕ) (f : Findings)
    → IsQuiet (judge_interval minutes least hard f) ↔ (LongAgo minutes least hard × IsQuiet f)
unfolding judge_interval
judge_interval-IsQuiet none least hard f =
    let step = judge-IsQuiet Rule.order_interval none true false false f in
    ((λ q. (tt, (step.0 q).1)), λ l. step.1 ((refl, refl), l.1))
judge_interval-IsQuiet (some minutes) least hard f =
    let step =
      judge-IsQuiet Rule.order_interval (some minutes) (at_most (whole hard) minutes)
        (less minutes (whole hard)) (less minutes (whole least)) f in
    let low = less-false (whole least) minutes in
    let high = less-false (whole hard) minutes in
    (
      (λ q. let (flags, quiet) = step.0 q in ((low.0 flags.1, high.0 flags.0), quiet)),
      λ l. step.1 ((high.1 l.0.1, low.1 l.0.0), l.1),
    )

minimum_kept :
    (least : Option Decimal) (q : Decimal) → (below_minimum least q ≡ false) ↔ AtLeast least q
minimum_kept none q = ((λ _. tt), λ _. refl)
minimum_kept (some least) q = less-false least q

or_false : (a b : Bool) → ((a || b) ≡ false) ↔ ((a ≡ false) × (b ≡ false))
or_false a b = ground arith

pub check_quantity-IsQuiet :
    (s : RiskState) (f : Findings) → IsQuiet (check_quantity s f) ↔ (QuantityKept s × IsQuiet f)
unfolding check_quantity quantity_too_small
check_quantity-IsQuiet s f =
    let q = sized_quantity s in
    let step =
      judge-IsQuiet Rule.quantity_calculation (some q) (not (quantity_too_small s))
        (quantity_too_small s) false f in
    let both = or_false (at_most q (whole 0)) (below_minimum s.instrument.min_quantity q) in
    let least = minimum_kept s.instrument.min_quantity q in
    let above = at_most-false q (whole 0) in
    (
      (λ quiet.
          let (flags, rest) = step.0 quiet in
          let (some_left, enough) = both.0 flags.0 in ((above.0 some_left, least.0 enough), rest)),
      λ l. step.1 ((both.1 (above.1 l.0.0, least.1 l.0.1), refl), l.1),
    )

pub check_consecutive_losses-IsQuiet :
    (s : RiskState) (f : Findings)
    → IsQuiet (check_consecutive_losses s f) ↔ (LossesKept s × IsQuiet f)
unfolding check_consecutive_losses judge IsQuiet
check_consecutive_losses-IsQuiet s f = ground arith

binance_on :
    (s : RiskState) (f : Findings)
    → IsQuiet (check_holding_cap s (check_no_short s f))
      ↔ (((shorts s ≡ false) × HoldingKept s) × IsQuiet f)
unfolding check_no_short check_holding_cap judge IsQuiet btc_cap
binance_on s f =
    subst
      (λ n.
        IsQuiet (check_holding_cap s (check_no_short s f))
        ↔ (((shorts s ≡ false) × (n ≤𝔻 btc_cap s)) × IsQuiet f))
      (prospective_notional-holding s)
      (ground (arith, less-false (prospective_notional s) (btc_cap s)))

pub check_binance-IsQuiet :
    (s : RiskState) (f : Findings) → IsQuiet (check_binance s f) ↔ (BinanceKept s × IsQuiet f)
unfolding check_binance
check_binance-IsQuiet s f = elim (Bool-cases (is_binance s.exchange_code)) [
  | inl hit ↦
      let step = binance_on s f in
      rw hit ((λ q. ((λ _. (step.0 q).0), (step.0 q).1)), λ l. step.1 (l.0 refl, l.1))
  | inr other ↦ rw other ((λ q. ((λ impossible. cc), q)), λ l. l.1)
]
