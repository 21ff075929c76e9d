-- ===== src/Money/Decimal.antt =====
-- `decimal.Decimal` in Python's default context: 28 significant digits, ties to the even digit.
use ai_system_trading.Prelude.{
  ℕ, zero, suc, ◌+◌, ◌-◌, ◌*◌, ◌/◌, ◌%◌, ◌^◌, Bool, true, false, not, ltb, leb, if◌then◌else◌,
}

-- The value is the coefficient over a power of ten, with a sign.
pub record Decimal : Type 0 where
  pub negative : Bool
  pub coefficient : ℕ
  pub scale : ℕ

abbrev pub whole : ℕ → Decimal
whole n = record { negative = false; coefficient = n; scale = 0 }

-- `Decimal("0.005")` is `decimal_of 5 3`.
abbrev pub decimal_of : ℕ → ℕ → Decimal
decimal_of n s = record { negative = false; coefficient = n; scale = s }

abbrev pub plus_part : Decimal → ℕ
plus_part d = if d.negative then 0 else d.coefficient

abbrev pub minus_part : Decimal → ℕ
minus_part d = if d.negative then d.coefficient else 0

-- The difference of two numbers over a power of ten.
unfoldable pub difference : (plus minus scale : ℕ) → Decimal
difference p m s =
    if leb m p
    then record { negative = false; coefficient = p - m; scale = s }
    else record { negative = true; coefficient = m - p; scale = s }

digits_fuel : ℕ → ℕ → ℕ
digits_fuel zero n = 0
digits_fuel (suc fuel) n = elim (ltb n 10) [ true ↦ 1 | false ↦ suc (digits_fuel fuel (n / 10)) ]

-- A number has no more digits than its own size plus one, so this fuel is enough.
unfoldable pub digits : ℕ → ℕ
unfolding digits_fuel
digits n = digits_fuel (suc n) n

abbrev pub precision : ℕ
precision = 28

-- The quotient to the nearest whole number, to the even one of two that are as near.
unfoldable pub half_even : ℕ → ℕ → ℕ
half_even n d =
    let q = n / d in
    let r = n % d in if ltb (r + r) d then q else (if ltb d (r + r) then q + 1 else q + q % 2)

-- The value n / (d * 10 ^ s), rounded once to the precision.
unfoldable pub rounded : Bool → (n d s : ℕ) → Decimal
unfolding digits half_even
rounded sign n d s =
    let drop = digits (n / d) - precision in
    record {
      negative = sign;
      coefficient = half_even n (d * 10 ^ drop) * 10 ^ (drop - s);
      scale = s - drop;
    }

-- The context's rounding of an exact result.
unfoldable pub in_context : Decimal → Decimal
unfolding rounded
in_context d = rounded d.negative d.coefficient 1 d.scale

abbrev pub differ : Bool → Bool → Bool
differ true b = not b
differ false b = b

infixl 65 ◌+𝔻◌ ◌-𝔻◌
infixl 70 ◌*𝔻◌ ◌/𝔻◌
-- The sum without rounding, as the database's `sum` forms it.
unfoldable pub exact_sum : Decimal → Decimal → Decimal
unfolding difference
exact_sum a b =
    difference (plus_part a * 10 ^ b.scale + plus_part b * 10 ^ a.scale)
      (minus_part a * 10 ^ b.scale + minus_part b * 10 ^ a.scale) (a.scale + b.scale)

unfoldable pub ◌+𝔻◌ : Decimal → Decimal → Decimal
unfolding exact_sum in_context
a +𝔻 b = in_context (exact_sum a b)

unfoldable pub ◌-𝔻◌ : Decimal → Decimal → Decimal
unfolding difference in_context
a -𝔻 b = in_context (
    difference (plus_part a * 10 ^ b.scale + minus_part b * 10 ^ a.scale)
      (minus_part a * 10 ^ b.scale + plus_part b * 10 ^ a.scale) (a.scale + b.scale))

unfoldable pub ◌*𝔻◌ : Decimal → Decimal → Decimal
unfolding rounded
a *𝔻 b =
    rounded (differ a.negative b.negative) (a.coefficient * b.coefficient) 1 (a.scale + b.scale)

-- A zero divisor, for which Python raises, is kept out by the tests before each use.
unfoldable pub ◌/𝔻◌ : Decimal → Decimal → Decimal
unfolding rounded
a /𝔻 b =
    let divisor = b.coefficient * 10 ^ a.scale in
    let room = precision + digits divisor in
    rounded (differ a.negative b.negative) (a.coefficient * 10 ^ (b.scale + room)) divisor room

-- `-d`
unfoldable pub negated : Decimal → Decimal
unfolding difference in_context
negated d = in_context (difference (minus_part d) (plus_part d) d.scale)

-- `abs(d)`, which rounds like any operation
unfoldable pub absolute : Decimal → Decimal
unfolding in_context
absolute d = in_context (record d { negative = false })

-- `d.to_integral_value(rounding=ROUND_FLOOR)`
unfoldable pub floor : Decimal → Decimal
floor d =
    let unit = 10 ^ d.scale in
    if d.negative
    then record d { coefficient = (d.coefficient + unit - 1) / unit; scale = 0 }
    else record d { coefficient = d.coefficient / unit; scale = 0 }

-- `a < b`, which compares the values without rounding
unfoldable pub less : Decimal → Decimal → Bool
less a b =
    ltb (plus_part a * 10 ^ b.scale + minus_part b * 10 ^ a.scale)
      (plus_part b * 10 ^ a.scale + minus_part a * 10 ^ b.scale)

-- `a <= b`
unfoldable pub at_most : Decimal → Decimal → Bool
at_most a b =
    leb (plus_part a * 10 ^ b.scale + minus_part b * 10 ^ a.scale)
      (plus_part b * 10 ^ a.scale + minus_part a * 10 ^ b.scale)

-- `a == b`
unfoldable pub same_value : Decimal → Decimal → Bool
unfolding less
same_value a b = if less a b then false else not (less b a)

-- Python's `min(a, b)` and `max(a, b)`, which keep the first of two that are equal.
unfoldable pub smaller : Decimal → Decimal → Decimal
smaller a b = if less b a then b else a

unfoldable pub larger : Decimal → Decimal → Decimal
larger a b = if less a b then b else a

abbrev pub positive : Decimal → Bool
positive d = less (whole 0) d
