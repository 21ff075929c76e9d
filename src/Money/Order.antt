-- ===== src/Money/Order.antt =====
-- The order of the decimal numbers.
use ai_system_trading.Prelude.{◌+◌, ◌*◌, ◌^◌, ◌≤◌, ◌≡◌, ◌↔◌, true, false, not, arith}
use ai_system_trading.Money.Decimal.{Decimal, plus_part, minus_part, less, at_most}

infix 50 ◌≤𝔻◌
-- The order of the values, with no rounding.
abbrev pub ◌≤𝔻◌ : Decimal → Decimal → Type 0
a ≤𝔻 b =
    plus_part a * 10 ^ b.scale + minus_part b * 10 ^ a.scale
    ≤ plus_part b * 10 ^ a.scale + minus_part a * 10 ^ b.scale

pub at_most-less : (a b : Decimal) → at_most a b ≡ not (less b a)
unfolding less at_most
at_most-less a b = ground arith

pub less-false : (a b : Decimal) → (less b a ≡ false) ↔ (a ≤𝔻 b)
unfolding less
less-false a b = ground arith

pub at_most-false : (a b : Decimal) → (at_most a b ≡ false) ↔ (less b a ≡ true)
unfolding less at_most
at_most-false a b = ground arith
