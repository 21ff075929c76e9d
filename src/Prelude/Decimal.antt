-- ===== src/Prelude/Decimal.antt =====
-- `f"{n}"` of a natural number.
use Prim.Native.Nat.{ℕ, zero, suc, ◌/◌, ◌%◌}
use Prim.Native.String.{String, ◌++◌}
use mathlib.Core.Bool.{true, false}
use mathlib.Core.List.{List, [], ◌∷◌}
use ai_system_trading.Prelude.Tests.{ltb}

abbrev digit : ℕ → List String → String
digit i [] = ""
digit zero (d ∷ ds) = d
digit (suc i) (d ∷ ds) = digit i ds

abbrev digits : List String
digits = "0" ∷ "1" ∷ "2" ∷ "3" ∷ "4" ∷ "5" ∷ "6" ∷ "7" ∷ "8" ∷ "9" ∷ []

-- A number has no more digits than its own size plus one, so this fuel is enough.
decimal_fuel : ℕ → ℕ → String
decimal_fuel zero n = ""
decimal_fuel (suc fuel) n = elim (ltb n 10) [
  | true ↦ digit n digits
  | false ↦ decimal_fuel fuel (n / 10) ++ digit (n % 10) digits
]

unfoldable pub decimal : ℕ → String
unfolding decimal_fuel
decimal n = decimal_fuel (suc n) n
