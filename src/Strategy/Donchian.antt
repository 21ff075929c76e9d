-- ===== src/Strategy/Donchian.antt =====
-- `generate_donchian_breakout_signal`.
use ai_system_trading.Prelude.{
  ℕ, zero, suc, ◌+◌, ◌-◌, max, Bool, true, false, not, Option, none, some, List, [], ◌∷◌,
  if◌then◌else◌, ltb, Result, ok, err,
}
use ai_system_trading.Prelude.Rows.{length}
use ai_system_trading.Money.Decimal.{Decimal, less, larger, smaller}
use ai_system_trading.Trade.Types.{Candle, SignalAction, buy, sell, hold}
use ai_system_trading.Risk.Queries.{first_of}

-- `IndexError`, and the `ValueError` of `max` and `min` on nothing
pub data SeriesError : Type 0 where
  index_error empty_window : SeriesError

abbrev pub drop : ℕ → List Candle → List Candle
drop zero cs = cs
drop (suc n) [] = []
drop (suc n) (c ∷ cs) = drop n cs

-- `candles[index]` and `candles[start:stop]`, of no negative index
abbrev pub element : ℕ → List Candle → Option Candle
element n [] = none
element zero (c ∷ cs) = some c
element (suc n) (c ∷ cs) = element n cs

abbrev pub slice : (start stop : ℕ) → List Candle → List Candle
slice start stop cs = first_of (stop - start) (drop start cs)

abbrev max_high : Decimal → List Candle → Decimal
max_high top [] = top
max_high top (c ∷ cs) = max_high (larger top c.high) cs

abbrev min_low : Decimal → List Candle → Decimal
min_low bottom [] = bottom
min_low bottom (c ∷ cs) = min_low (smaller bottom c.low) cs

abbrev pub highest_high : List Candle → Option Decimal
highest_high [] = none
highest_high (c ∷ cs) = some (max_high c.high cs)

abbrev pub lowest_low : List Candle → Option Decimal
lowest_low [] = none
lowest_low (c ∷ cs) = some (min_low c.low cs)

abbrev pub closes_above : Option Candle → Option Decimal → Result SeriesError Bool
closes_above none top = err index_error
closes_above (some c) none = err empty_window
closes_above (some c) (some top) = ok (less top c.close)

abbrev pub closes_below : Option Candle → Option Decimal → Result SeriesError Bool
closes_below none bottom = err index_error
closes_below (some c) none = err empty_window
closes_below (some c) (some bottom) = ok (less c.close bottom)

unfoldable pub breaks_above : List Candle → (index period : ℕ) → Result SeriesError Bool
breaks_above cs index period =
    closes_above (element index cs) (highest_high (slice (index - period) index cs))

unfoldable pub breaks_below : List Candle → (index period : ℕ) → Result SeriesError Bool
breaks_below cs index period =
    closes_below (element index cs) (lowest_low (slice (index - period) index cs))

-- `now and not before`; `before` is asked only when `now` is true
abbrev pub and_not : (now before : Result SeriesError Bool) → Result SeriesError Bool
and_not (err e) before = err e
and_not (ok false) before = ok false
and_not (ok true) (err e) = err e
and_not (ok true) (ok b) = ok (not b)

abbrev pub choose : (up down : Result SeriesError Bool) → Result SeriesError SignalAction
choose (err e) down = err e
choose (ok true) down = ok buy
choose (ok false) (err e) = err e
choose (ok false) (ok true) = ok sell
choose (ok false) (ok false) = ok hold

unfoldable pub generate_donchian_breakout_signal :
    (entry_period exit_period : ℕ) → List Candle → Result SeriesError SignalAction
unfolding breaks_above breaks_below
generate_donchian_breakout_signal entry_period exit_period cs =
    let last = length cs - 1 in
    if ltb (length cs) (max entry_period exit_period + 2)
    then ok hold
    else choose
        (and_not (breaks_above cs last entry_period) (breaks_above cs (last - 1) entry_period))
        (and_not (breaks_below cs last exit_period) (breaks_below cs (last - 1) exit_period))
