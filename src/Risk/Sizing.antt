-- ===== src/Risk/Sizing.antt =====
-- The quantity that `_evaluate_conservative_v1` sizes before it judges it.
use ai_system_trading.Prelude.{Bool, Option, none, some, if◌then◌else◌, ◌&&◌}
use ai_system_trading.Money.Decimal.{
  Decimal, whole, ◌+𝔻◌, ◌-𝔻◌, ◌*𝔻◌, ◌/𝔻◌, floor, less, smaller, larger, positive,
}
use ai_system_trading.Trade.Types.{ExchangeCode}
use ai_system_trading.Risk.Types.{RiskState}

unfoldable pub stress_adjusted_stop : RiskState → Decimal
stress_adjusted_stop s = s.stop_distance +𝔻 s.expected_slippage +𝔻 s.fee_buffer_per_unit

unfoldable pub raw_quantity : RiskState → Decimal
unfolding stress_adjusted_stop
raw_quantity s =
    let stop = stress_adjusted_stop s in
    if positive stop then (s.equity *𝔻 s.rules.risk_per_trade) /𝔻 stop else whole 0

-- The room that is left under the limit on all open positions.
unfoldable pub exposure_limit_quantity : RiskState → Decimal
unfolding stress_adjusted_stop
exposure_limit_quantity s =
    let stop = stress_adjusted_stop s in
    let remaining = s.equity *𝔻 s.rules.all_open_risk_limit -𝔻 s.existing_open_risk in
    if positive remaining && positive stop then remaining /𝔻 stop else whole 0

abbrev pub limit_to : Option Decimal → Decimal → Option Decimal
limit_to none quantity = some quantity
limit_to (some limit) quantity = some (smaller limit quantity)

unfoldable pub binance_order_limit_quantity : RiskState → Decimal
binance_order_limit_quantity s =
    if positive s.market_price
    then larger (whole 0) s.available_cash
      *𝔻 s.rules.binance.order_limit_pct_of_available
      /𝔻 s.market_price
    else whole 0

unfoldable pub leverage_limit_quantity : RiskState → Decimal
leverage_limit_quantity s =
    if positive s.market_price
    then s.equity *𝔻 s.rules.oanda.leverage_cap /𝔻 s.market_price
    else whole 0

unfoldable pub broker_limit_quantity : RiskState → Option Decimal
unfolding binance_order_limit_quantity leverage_limit_quantity
broker_limit_quantity s = elim s.exchange_code [
  | ExchangeCode.binance ↦ limit_to s.instrument.max_quantity (binance_order_limit_quantity s)
  | ExchangeCode.oanda ↦ limit_to s.instrument.max_quantity (leverage_limit_quantity s)
  | ExchangeCode.other code ↦ s.instrument.max_quantity
]

-- `min(candidates)`, and zero in place of a negative quantity
unfoldable pub limited_quantity : RiskState → Decimal
unfolding raw_quantity exposure_limit_quantity broker_limit_quantity
limited_quantity s =
    let two = smaller (raw_quantity s) (exposure_limit_quantity s) in
    let least : Decimal = elim (broker_limit_quantity s) [
      | none ↦ two
      | some limit ↦ smaller two limit
    ] in
    if less least (whole 0) then whole 0 else least

-- Whole steps only, when the instrument has a step.
unfoldable pub in_steps : Decimal → Decimal → Decimal
in_steps step quantity = if positive step then floor (quantity /𝔻 step) *𝔻 step else quantity

unfoldable pub sized_quantity : RiskState → Decimal
unfolding limited_quantity in_steps
sized_quantity s = in_steps s.instrument.step_size (limited_quantity s)

unfoldable pub was_adjusted : RiskState → Bool
unfolding sized_quantity raw_quantity
was_adjusted s = less (sized_quantity s) (raw_quantity s)
