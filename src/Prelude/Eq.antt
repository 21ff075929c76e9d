-- ===== src/Prelude/Eq.antt =====
-- Equality tests, as an interface with an instance for each type that the code compares.
use Prim.Native.Nat.{ℕ}
use mathlib.Core.Path.{◌≡◌, refl}
use mathlib.Core.Logic.{◌≢◌, ◌↔◌, inl, inr}
use mathlib.Core.Bool.{Bool, true, false}
use mathlib.Core.Option.{Option, none, some}
use Prim.Native.String.{String}
use text.Mathlib.Text.{◌==◌ as str_eq}
use text.Mathlib.TextEquality.{eq_iff}
use native.Mathlib.Omega.{arith}
use ai_system_trading.Prelude.Tests.{nat_beq, nat_beq_iff, Bool-cases}

-- Python's `==` on the values of a type, and that it decides when they are the same.
pub record Equality {ℓ} (V : Type ℓ) : Type ℓ where
  pub beq : (left right : V) → Bool
  pub beq_iff : (left right : V) → (beq left right ≡ true) ↔ (left ≡ right)

infix 50 ◌==◌
abbrev pub ◌==◌ {ℓ} : {V : Type ℓ} ⦃tests : Equality V⦄ → V → V → Bool
◌==◌ ⦃tests⦄ left right = tests.beq left right

module _ {ℓ} {A : Type ℓ} ⦃e : Equality A⦄ where
  pub beq_refl : (a : A) → (a == a) ≡ true
  beq_refl a = (e.beq_iff a a).1 refl

  pub beq_false : (a b : A) → a ≢ b → (a == b) ≡ false
  beq_false a b h = elim (Bool-cases (a == b)) [
    | inl same ↦ absurd (h ((e.beq_iff a b).0 same))
    | inr differ ↦ differ
  ]

instance abbrev pub nat_equality : Equality ℕ
nat_equality = record { beq = nat_beq; beq_iff = nat_beq_iff }

abbrev pub bool_beq : Bool → Bool → Bool
bool_beq true b = b
bool_beq false true = false
bool_beq false false = true

pub bool_beq_iff : (a b : Bool) → (bool_beq a b ≡ true) ↔ (a ≡ b)
bool_beq_iff a b = ground arith

instance abbrev pub bool_equality : Equality Bool
bool_equality = record { beq = bool_beq; beq_iff = bool_beq_iff }

module _ {A : Type 0} ⦃e : Equality A⦄ where
  abbrev pub option_beq : Option A → Option A → Bool
  option_beq none none = true
  option_beq none (some b) = false
  option_beq (some a) none = false
  option_beq (some a) (some b) = a == b

  pub option_beq_iff : (a b : Option A) → (option_beq a b ≡ true) ↔ (a ≡ b)
  option_beq_iff none none = ground arith
  option_beq_iff none (some b) = ground arith
  option_beq_iff (some a) none = ground arith
  option_beq_iff (some a) (some b) = ground (arith, e.beq_iff a b)

  instance abbrev pub option_equality : Equality (Option A)
  option_equality = record { beq = option_beq; beq_iff = option_beq_iff }

instance abbrev pub string_equality : Equality String
string_equality = record { beq = str_eq; beq_iff = eq_iff }
