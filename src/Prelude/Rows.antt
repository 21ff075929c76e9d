-- ===== src/Prelude/Rows.antt =====
-- Tables as lists of rows in insertion order, as the queries of the code read them.
use Prim.Native.Nat.{ℕ, suc, ◌+◌, ◌≤◌}
use mathlib.Core.Path.{◌≡◌, refl, subst}
use mathlib.Core.Logic.{inl, inr}
use mathlib.Core.Bool.{Bool, true, false, ◌||◌}
use mathlib.Core.Option.{Option, none, some}
use mathlib.Core.List.{List, [], ◌∷◌, ◌++◌}
use native.Mathlib.Omega.{arith}
use ai_system_trading.Prelude.Tests.{if◌then◌else◌, Bool-cases}

module _ {ℓ} {A : Type ℓ} where
  abbrev pub length : List A → ℕ
  length [] = 0
  length (x ∷ xs) = suc (length xs)

  -- `db.scalar(select(...).where(p))`: the first row that fits
  abbrev pub find : (A → Bool) → List A → Option A
  find p [] = none
  find p (x ∷ xs) = if p x then some x else find p xs

  abbrev pub any : (A → Bool) → List A → Bool
  any p [] = false
  any p (x ∷ xs) = p x || any p xs

  abbrev pub select : (A → Bool) → List A → List A
  select p [] = []
  select p (x ∷ xs) = if p x then x ∷ select p xs else select p xs

  abbrev pub count : (A → Bool) → List A → ℕ
  count p [] = 0
  count p (x ∷ xs) = if p x then suc (count p xs) else count p xs

  abbrev pub All : (A → Type 0) → List A → Type 0
  All P [] = Unit
  All P (x ∷ xs) = P x × All P xs

  pub count-append : (p : A → Bool) (xs ys : List A) → count p (xs ++ ys) ≡ count p xs + count p ys
  count-append p [] ys = omega arith
  count-append p (x ∷ xs) ys = ground (arith, count-append p xs ys)

  pub All-append : (P : A → Type 0) (old new : List A) → All P old → All P new → All P (old ++ new)
  All-append P (x ∷ old) new (first, others) rest = (first, All-append P old new others rest)
  All-append P [] new nothing rest = rest

  pub All-find :
      (P : A → Type 0) (p : A → Bool) (xs : List A) (x : A) → All P xs → find p xs ≡ some x → P x
  All-find P p [] x h e = cc
  All-find P p (y ∷ xs) x h e = elim (Bool-cases (p y)) [
    | inl t ↦ subst P (ground arith) h.0
    | inr f ↦ All-find P p xs x h.1 (ground arith)
  ]

  pub find_holds : (p : A → Bool) (xs : List A) (x : A) → find p xs ≡ some x → p x ≡ true
  find_holds p [] x e = cc
  find_holds p (y ∷ xs) x e = ground (arith, find_holds p xs x)

  pub find-none-count : (p : A → Bool) (xs : List A) → find p xs ≡ none → count p xs ≡ 0
  find-none-count p [] e = refl
  find-none-count p (y ∷ xs) e = ground (arith, find-none-count p xs)

  pub any-append : (p : A → Bool) (xs ys : List A) → any p (xs ++ ys) ≡ (any p xs || any p ys)
  any-append p [] ys = refl
  any-append p (x ∷ xs) ys = ground (arith, any-append p xs ys)

  pub find-append_none :
      (p : A → Bool) (xs ys : List A) → find p xs ≡ none → find p (xs ++ ys) ≡ find p ys
  find-append_none p [] ys e = refl
  find-append_none p (x ∷ xs) ys e = ground (arith, find-append_none p xs ys)

  pub find-append_miss :
      (p : A → Bool) (xs : List A) (y : A) → p y ≡ false → find p (xs ++ y ∷ []) ≡ find p xs
  find-append_miss p [] y h = ground arith
  find-append_miss p (x ∷ xs) y h = ground (arith, find-append_miss p xs y h)

  pub count-zero_find : (p : A → Bool) (xs : List A) → count p xs ≡ 0 → find p xs ≡ none
  count-zero_find p [] e = refl
  count-zero_find p (x ∷ xs) e = ground (arith, count-zero_find p xs)

  pub find-count_pos : (p : A → Bool) (xs : List A) (x : A) → find p xs ≡ some x → 1 ≤ count p xs
  find-count_pos p [] x e = cc
  find-count_pos p (y ∷ xs) x e = ground (arith, find-count_pos p xs x)

  -- A row that passes a test, with what it means for it to be the only one of a query.
  pub any_witness :
      (p : A → Bool) (xs : List A)
      → any p xs ≡ true
      → (x : A) × (p x ≡ true)
        × ((q : A → Bool) → q x ≡ true → 1 ≤ count q xs)
        × ((q : A → Bool) → q x ≡ true → count q xs ≤ 1 → find q xs ≡ some x)
  any_witness p [] e = cc
  any_witness p (y ∷ xs) e = elim (Bool-cases (p y)) [
    | inl hit ↦ (y, hit, (λ q h. rw h (omega arith)), λ q h _. rw h)
    | inr miss ↦
        let (x, h, present, first) = any_witness p xs (ground arith) in
        (
          x,
          h,
          (λ q hq. ground (arith, present q hq)),
          λ q hq few. ground (arith, present q hq, first q hq),
        )
  ]

  pub find-any :
      (p q : A → Bool) (xs : List A) (x : A) → find q xs ≡ some x → p x ≡ true → any p xs ≡ true
  find-any p q [] x e h = cc
  find-any p q (y ∷ xs) x e h = ground (arith, find-any p q xs x)

  pub length-append : (xs ys : List A) → length (xs ++ ys) ≡ length xs + length ys
  length-append [] ys = omega arith
  length-append (x ∷ xs) ys = omega (arith, length-append xs ys)

  pub find_present :
      (p q : A → Bool) (xs : List A) (x : A) → find p xs ≡ some x → q x ≡ true → 1 ≤ count q xs
  find_present p q [] x e h = cc
  find_present p q (y ∷ xs) x e h = ground (arith, find_present p q xs x)

  -- Where a query has one row at most, a row of the table that answers it is the one it finds.
  pub find_only :
      (p q : A → Bool) (xs : List A) (x : A)
      → find p xs ≡ some x
      → q x ≡ true
      → count q xs ≤ 1
      → find q xs ≡ some x
  find_only p q [] x e h few = cc
  find_only p q (y ∷ xs) x e h few = ground (arith, find_present p q xs x, find_only p q xs x)
