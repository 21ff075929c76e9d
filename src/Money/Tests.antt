-- ===== src/Money/Tests.antt =====
-- The decimal arithmetic on concrete numbers.
use ai_system_trading.Prelude.{◌-◌, ◌*◌, ◌^◌, ◌≡◌, refl, true}
use ai_system_trading.Money.Decimal.{
  whole, decimal_of, ◌+𝔻◌, ◌-𝔻◌, ◌*𝔻◌, ◌/𝔻◌, floor, less, same_value, difference,
}

third : whole 1 /𝔻 whole 3 ≡ decimal_of 3333333333333333333333333333 28
unfolding ◌/𝔻◌
third = refl

two_thirds : same_value (whole 2 /𝔻 whole 3) (decimal_of 6666666666666666666666666667 28) ≡ true
unfolding ◌/𝔻◌ same_value
two_thirds = refl

sum : same_value (decimal_of 15 1 +𝔻 decimal_of 25 2) (decimal_of 175 2) ≡ true
unfolding ◌+𝔻◌ same_value
sum = refl

below_zero : less (whole 1 -𝔻 whole 3) (whole 0) ≡ true
unfolding ◌-𝔻◌ less
below_zero = refl

rounds_to_even :
    same_value (decimal_of (10 ^ 28 - 1) 0 *𝔻 decimal_of 15 1) (whole (15 * 10 ^ 27 - 0) -𝔻 whole 0)
    ≡ true
unfolding ◌*𝔻◌ ◌-𝔻◌ same_value
rounds_to_even = refl

floor_negative : same_value (floor (difference 0 25 1)) (difference 0 3 0) ≡ true
unfolding floor same_value difference
floor_negative = refl
