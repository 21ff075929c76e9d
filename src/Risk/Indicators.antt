-- ===== src/Risk/Indicators.antt =====
-- `average_true_range` of app/market_data/application/indicators.py.
use ai_system_trading.Prelude.{
  ℕ, zero, suc, ◌+◌, ◌-◌, Option, none, some, List, [], ◌∷◌, if◌then◌else◌, ltb,
}
use ai_system_trading.Prelude.Rows.{length}
use ai_system_trading.Money.Decimal.{Decimal, whole, ◌+𝔻◌, ◌-𝔻◌, ◌*𝔻◌, ◌/𝔻◌, absolute, larger}
use ai_system_trading.Trade.Types.{Candle}

-- The range of a bar, its jump from the close before it counted in.
unfoldable pub true_range : (previous current : Candle) → Decimal
true_range previous current =
    larger (larger (current.high -𝔻 current.low) (absolute (current.high -𝔻 previous.close)))
      (absolute (current.low -𝔻 previous.close))

-- `zip(candles, candles[1:])`
unfoldable pub ranges_after : Candle → List Candle → List Decimal
unfolding true_range
ranges_after previous [] = []
ranges_after previous (c ∷ cs) = true_range previous c ∷ ranges_after c cs

abbrev pub true_ranges : List Candle → List Decimal
true_ranges [] = []
true_ranges (c ∷ cs) = ranges_after c cs

-- `sum(ranges[:n], start)`
unfoldable pub seed : ℕ → Decimal → List Decimal → Decimal
seed zero total rs = total
seed (suc n) total [] = total
seed (suc n) total (r ∷ rs) = seed n (total +𝔻 r) rs

-- The smoothing over `ranges[n:]`
unfoldable pub smooth : (period : ℕ) → Decimal → List Decimal → Decimal
smooth period atr [] = atr
smooth period atr (r ∷ rs) = smooth period ((atr *𝔻 whole (period - 1) +𝔻 r) /𝔻 whole period) rs

abbrev drop : ℕ → List Decimal → List Decimal
drop zero rs = rs
drop (suc n) [] = []
drop (suc n) (r ∷ rs) = drop n rs

unfoldable pub average_true_range : List Candle → (period : ℕ) → Option Decimal
unfolding ranges_after seed smooth
average_true_range candles period =
    let ranges = true_ranges candles in
    if ltb (length candles) (period + 1)
    then none
    else some (smooth period (seed period (whole 0) ranges /𝔻 whole period) (drop period ranges))
