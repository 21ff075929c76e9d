-- ===== src/Strategy/Windows.antt =====
-- A series without its last bar has the same bars before it.
use ai_system_trading.Prelude.{
  ℕ, zero, suc, ◌-◌, ◌<◌, ◌≤◌, ◌≡◌, refl, ap, ◌∙◌, List, [], ◌∷◌, arith,
}
use ai_system_trading.Prelude.Rows.{length}
use ai_system_trading.Trade.Types.{Candle}
use ai_system_trading.Risk.Queries.{first_of}
use ai_system_trading.Strategy.Donchian.{
  drop, element, slice, highest_high, lowest_low, closes_above, closes_below, breaks_above,
  breaks_below,
}

-- `candles[:-1]`
abbrev pub without_last : List Candle → List Candle
without_last [] = []
without_last (c ∷ []) = []
without_last (c ∷ d ∷ cs) = c ∷ without_last (d ∷ cs)

pub length-without_last : (cs : List Candle) → length (without_last cs) ≡ length cs - 1
length-without_last [] = refl
length-without_last (c ∷ []) = refl
length-without_last (c ∷ d ∷ cs) =
    let shorter = length-without_last (d ∷ cs) in omega (arith, shorter)

drop-without_last : (n : ℕ) (cs : List Candle) → drop n (without_last cs) ≡ without_last (drop n cs)
drop-without_last zero cs = refl
drop-without_last (suc n) [] = refl
drop-without_last (suc zero) (c ∷ []) = refl
drop-without_last (suc (suc n)) (c ∷ []) = refl
drop-without_last (suc n) (c ∷ d ∷ cs) = drop-without_last n (d ∷ cs)

length-drop : (n : ℕ) (cs : List Candle) → length (drop n cs) ≡ length cs - n
length-drop zero cs = omega arith
length-drop (suc n) [] = omega arith
length-drop (suc n) (c ∷ cs) = let shorter = length-drop n cs in omega (arith, shorter)

first_of-without_last :
    (n : ℕ) (cs : List Candle) → n < length cs → first_of n (without_last cs) ≡ first_of n cs
first_of-without_last zero cs few = refl
first_of-without_last (suc n) [] few = refl
first_of-without_last (suc n) (c ∷ []) few = absurd (omega arith)
first_of-without_last (suc n) (c ∷ d ∷ cs) few =
    ap (λ r. c ∷ r) (first_of-without_last n (d ∷ cs) (omega arith))

element-without_last :
    (n : ℕ) (cs : List Candle) → suc n < length cs → element n (without_last cs) ≡ element n cs
element-without_last n [] few = refl
element-without_last n (c ∷ []) few = absurd (omega arith)
element-without_last zero (c ∷ d ∷ cs) few = refl
element-without_last (suc n) (c ∷ d ∷ cs) few = element-without_last n (d ∷ cs) (omega arith)

slice-without_last :
    (start stop : ℕ) (cs : List Candle)
    → start ≤ stop
    → suc stop < length cs
    → slice start stop (without_last cs) ≡ slice start stop cs
slice-without_last start stop cs ordered few =
    let left = length-drop start cs in
    ap (first_of (stop - start)) (drop-without_last start cs)
    ∙ first_of-without_last (stop - start) (drop start cs) (omega (arith, left))

module _ (cs : List Candle) (index period : ℕ) (inside : suc index < length cs) where
  window-without_last :
      slice (index - period) index (without_last cs) ≡ slice (index - period) index cs
  window-without_last = slice-without_last (index - period) index cs (omega arith) inside

  pub breaks_above-without_last :
      breaks_above (without_last cs) index period ≡ breaks_above cs index period
  unfolding breaks_above
  breaks_above-without_last =
      ap (λ c. closes_above c (highest_high (slice (index - period) index (without_last cs))))
        (element-without_last index cs inside)
      ∙ ap (λ w. closes_above (element index cs) (highest_high w)) window-without_last

  pub breaks_below-without_last :
      breaks_below (without_last cs) index period ≡ breaks_below cs index period
  unfolding breaks_below
  breaks_below-without_last =
      ap (λ c. closes_below c (lowest_low (slice (index - period) index (without_last cs))))
        (element-without_last index cs inside)
      ∙ ap (λ w. closes_below (element index cs) (lowest_low w)) window-without_last
