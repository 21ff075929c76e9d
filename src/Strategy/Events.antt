-- ===== src/Strategy/Events.antt =====
-- A breakout is signalled on its first bar only.
use ai_system_trading.Prelude.{
  ℕ, ◌+◌, ◌-◌, ◌≤◌, max, ◌≡◌, ◌≢◌, refl, ap, Bool, true, false, List, arith, inl, inr, Bool-cases,
  ltb, Result, ok, err,
}
use mathlib.Core.Path.{subst}
use ai_system_trading.Prelude.Rows.{length}
use ai_system_trading.Trade.Types.{Candle, SignalAction, buy, sell, hold}
use ai_system_trading.Strategy.Donchian.{
  SeriesError, and_not, choose, breaks_above, breaks_below, generate_donchian_breakout_signal,
}
use ai_system_trading.Strategy.Windows.{
  without_last, length-without_last, breaks_above-without_last, breaks_below-without_last,
}

-- The last bar breaks out, and the one before it does not.
record Starts (breaks : ℕ → Result SeriesError Bool) (last : ℕ) : Type 0 where
  pub now : breaks last ≡ ok true
  pub before : breaks (last - 1) ≡ ok false

and_not-Starts :
    (breaks : ℕ → Result SeriesError Bool) (last : ℕ)
    → and_not (breaks last) (breaks (last - 1)) ≡ ok true
    → Starts breaks last
and_not-Starts breaks last h =
    let (now, before) = both (breaks last) (breaks (last - 1)) h in
    record { now = now; before = before }
  where
    both :
        (now before : Result SeriesError Bool)
        → and_not now before ≡ ok true
        → (now ≡ ok true) × (before ≡ ok false)
    both (err e) before h = cc
    both (ok false) before h = cc
    both (ok true) (err e) h = cc
    both (ok true) (ok true) h = cc
    both (ok true) (ok false) h = (refl, refl)

choose_buy : (up down : Result SeriesError Bool) → choose up down ≡ ok buy → up ≡ ok true
choose_buy (err e) down h = cc
choose_buy (ok true) down h = refl
choose_buy (ok false) (err e) h = cc
choose_buy (ok false) (ok true) h = cc
choose_buy (ok false) (ok false) h = cc

choose_sell : (up down : Result SeriesError Bool) → choose up down ≡ ok sell → down ≡ ok true
choose_sell (err e) down h = cc
choose_sell (ok true) down h = cc
choose_sell (ok false) (err e) h = cc
choose_sell (ok false) (ok true) h = refl
choose_sell (ok false) (ok false) h = cc

-- A signal other than hold is chosen on at least two bars.
chosen :
    (entry_period exit_period : ℕ) (cs : List Candle) (a : SignalAction)
    → a ≢ hold
    → generate_donchian_breakout_signal entry_period exit_period cs ≡ ok a
    → (2 ≤ length cs)
      × (choose
            (and_not
              (breaks_above cs (length cs - 1) entry_period)
              (breaks_above cs (length cs - 1 - 1) entry_period))
            (and_not
              (breaks_below cs (length cs - 1) exit_period)
              (breaks_below cs (length cs - 1 - 1) exit_period))
          ≡ ok a)
unfolding generate_donchian_breakout_signal
chosen entry_period exit_period cs a acts h =
    elim (Bool-cases (ltb (length cs) (max entry_period exit_period + 2))) [
      | inl short ↦ absurd (acts (cc))
      | inr enough ↦ (ground (arith, enough), ground (arith, h))
    ]

-- A breakout that starts on the last bar did not start on the bar before.
once :
    (breaks earlier : ℕ → Result SeriesError Bool) (last : ℕ)
    → earlier (last - 1) ≡ breaks (last - 1)
    → Starts breaks last
    → Starts earlier (last - 1)
    → ⊥
once breaks earlier last same starts started =
    let now = started.now in let before = starts.before in cc

earlier_last : (cs : List Candle) → length (without_last cs) - 1 ≡ length cs - 1 - 1
earlier_last cs = ap (λ n. n - 1) (length-without_last cs)

bought_once :
    (entry_period exit_period : ℕ) (cs : List Candle)
    → generate_donchian_breakout_signal entry_period exit_period cs ≡ ok buy
    → generate_donchian_breakout_signal entry_period exit_period (without_last cs) ≢ ok buy
bought_once entry_period exit_period cs h earlier =
    let acts : buy ≢ hold = λ e. cc in
    let (long, picked) = chosen entry_period exit_period cs buy acts h in
    let (_, picked_earlier) = chosen entry_period exit_period (without_last cs) buy acts earlier in
    let at = length cs - 1 in
    let breaks : ℕ → Result SeriesError Bool = λ i. breaks_above cs i entry_period in
    let breaks_earlier : ℕ → Result SeriesError Bool =
      λ i. breaks_above (without_last cs) i entry_period in
    once breaks breaks_earlier at
      (breaks_above-without_last cs (at - 1) entry_period (omega (arith, long)))
      (and_not-Starts breaks at (choose_buy _ _ picked))
      (subst (Starts breaks_earlier) (earlier_last cs) (
        and_not-Starts breaks_earlier (length (without_last cs) - 1)
          (choose_buy _ _ picked_earlier)))

sold_once :
    (entry_period exit_period : ℕ) (cs : List Candle)
    → generate_donchian_breakout_signal entry_period exit_period cs ≡ ok sell
    → generate_donchian_breakout_signal entry_period exit_period (without_last cs) ≢ ok sell
sold_once entry_period exit_period cs h earlier =
    let acts : sell ≢ hold = λ e. cc in
    let (long, picked) = chosen entry_period exit_period cs sell acts h in
    let (_, picked_earlier) = chosen entry_period exit_period (without_last cs) sell acts earlier in
    let at = length cs - 1 in
    let breaks : ℕ → Result SeriesError Bool = λ i. breaks_below cs i exit_period in
    let breaks_earlier : ℕ → Result SeriesError Bool =
      λ i. breaks_below (without_last cs) i exit_period in
    once breaks breaks_earlier at
      (breaks_below-without_last cs (at - 1) exit_period (omega (arith, long)))
      (and_not-Starts breaks at (choose_sell _ _ picked))
      (subst (Starts breaks_earlier) (earlier_last cs) (
        and_not-Starts breaks_earlier (length (without_last cs) - 1)
          (choose_sell _ _ picked_earlier)))

-- When the generator signals a buy or a sell on a series, it gives another answer on the series
-- without its last bar: a breakout is signalled on its first bar only.
pub signal_starts_breakout :
    (entry_period exit_period : ℕ) (cs : List Candle) (a : SignalAction)
    → a ≢ hold
    → generate_donchian_breakout_signal entry_period exit_period cs ≡ ok a
    → generate_donchian_breakout_signal entry_period exit_period (without_last cs) ≢ ok a
signal_starts_breakout entry_period exit_period cs buy acts =
    bought_once entry_period exit_period cs
signal_starts_breakout entry_period exit_period cs sell acts = sold_once entry_period exit_period cs
signal_starts_breakout entry_period exit_period cs hold acts = absurd (acts refl)
