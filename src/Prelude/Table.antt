-- ===== src/Prelude/Table.antt =====
-- Tables whose rows have an identifier: what an ORM object's update does to its row.
use Prim.Native.Nat.{ℕ, ◌+◌, ◌≤◌, ◌<◌}
use mathlib.Core.Path.{◌≡◌, ap, subst}
use mathlib.Core.Logic.{◌≢◌, inl, inr}
use mathlib.Core.Bool.{Bool, true, false}
use mathlib.Core.Option.{some}
use mathlib.Core.List.{List, [], ◌∷◌, ◌++◌}
use native.Mathlib.Omega.{arith}
use ai_system_trading.Prelude.Tests.{if◌then◌else◌, nat_beq, nat_beq_iff, Bool-cases}
use ai_system_trading.Prelude.Rows.{find, count, All, All-find}

abbrev pub one : Bool → ℕ
one true = 1
one false = 0

module _ {A : Type 0} (id : A → ℕ) where
  -- The row with the object's identifier now holds the object.
  unfoldable pub save : A → List A → List A
  save a [] = []
  save a (x ∷ xs) = if nat_beq (id x) (id a) then a ∷ xs else x ∷ save a xs

  abbrev pub UniqueIds : List A → Type 0
  UniqueIds [] = Unit
  UniqueIds (x ∷ xs) = All (λ y. id y ≢ id x) xs × UniqueIds xs

  pub All-save : (P : A → Type 0) (a : A) (xs : List A) → P a → All P xs → All P (save a xs)
  unfolding save
  All-save P a [] h all = tt
  All-save P a (x ∷ xs) h all = elim (Bool-cases (nat_beq (id x) (id a))) [
    | inl same ↦ rw same (h, all.1)
    | inr other ↦ rw other (all.0, All-save P a xs h all.1)
  ]

  pub UniqueIds-save : (a : A) (xs : List A) → UniqueIds xs → UniqueIds (save a xs)
  unfolding save
  UniqueIds-save a [] u = tt
  UniqueIds-save a (x ∷ xs) u = elim (Bool-cases (nat_beq (id x) (id a))) [
    | inl same ↦
        rw same (subst (λ i. All (λ y. id y ≢ i) xs) ((nat_beq_iff (id x) (id a)).0 same) u.0, u.1)
    | inr other ↦ rw other (
      All-save (λ y. id y ≢ id x) a xs (λ e. absurd (ground (arith, nat_beq_iff (id x) (id a))))
          u.0,
      UniqueIds-save a xs u.1,
    )
  ]

  pub UniqueIds-append :
      (a : A) (n : ℕ) (xs : List A)
      → All (λ y. id y < n) xs
      → n ≤ id a
      → UniqueIds xs
      → UniqueIds (xs ++ a ∷ [])
  UniqueIds-append a n [] below h u = (tt, tt)
  UniqueIds-append a n (x ∷ xs) below h u = (after xs u.0, UniqueIds-append a n xs below.1 h u.1)
    where
      after : (ys : List A) → All (λ y. id y ≢ id x) ys → All (λ y. id y ≢ id x) (ys ++ a ∷ [])
      after [] all = (omega arith, tt)
      after (y ∷ ys) all = (all.0, after ys all.1)

  found_head :
      (p : A → Bool) (k x : A) (xs : List A) → find p (x ∷ xs) ≡ some k → p x ≡ true → x ≡ k
  found_head p k x xs e hit = ground arith

  found_tail :
      (p : A → Bool) (k x : A) (xs : List A)
      → UniqueIds (x ∷ xs)
      → find p (x ∷ xs) ≡ some k
      → p x ≡ false
      → (find p xs ≡ some k) × (id k ≢ id x)
  found_tail p k x xs u e miss =
      let rest : find p xs ≡ some k = ground arith in
      (rest, All-find (λ y. id y ≢ id x) p xs k u.0 rest)

  -- Saving a changed row that a query has found counts the new row in its place.
  pub count-save :
      (p q : A → Bool) (a k : A) (xs : List A)
      → UniqueIds xs
      → find p xs ≡ some k
      → id a ≡ id k
      → count q (save a xs) + one (q k) ≡ count q xs + one (q a)
  unfolding save
  count-save p q a k [] u e same = cc
  count-save p q a k (x ∷ xs) u e same = elim (Bool-cases (p x)) [
    | inl hit ↦ ground (
      arith,
      nat_beq_iff (id x) (id a),
      found_head p k x xs e hit,
      ap id (found_head p k x xs e hit),
    )
    | inr miss ↦
        let (rest, apart) = found_tail p k x xs u e miss in
        ground (arith, nat_beq_iff (id x) (id a), count-save p q a k xs u.1 rest same)
  ]

  abbrev pub sum : (A → ℕ) → List A → ℕ
  sum w [] = 0
  sum w (x ∷ xs) = w x + sum w xs

  -- Saving a changed row that a query has found weighs the new row in its place.
  pub sum-save :
      (w : A → ℕ) (p : A → Bool) (a k : A) (xs : List A)
      → UniqueIds xs
      → find p xs ≡ some k
      → id a ≡ id k
      → sum w (save a xs) + w k ≡ sum w xs + w a
  unfolding save
  sum-save w p a k [] u e same = cc
  sum-save w p a k (x ∷ xs) u e same = elim (Bool-cases (p x)) [
    | inl hit ↦
        let head = found_head p k x xs e hit in
        let here : nat_beq (id x) (id a) ≡ true =
          (nat_beq_iff (id x) (id a)).1 (omega (arith, ap id head, same)) in
        rw here (omega (arith, ap w head))
    | inr miss ↦
        let (rest, apart) = found_tail p k x xs u e miss in
        elim (Bool-cases (nat_beq (id x) (id a))) [
          | inl here ↦ absurd (omega (arith, apart, same, (nat_beq_iff (id x) (id a)).0 here))
          | inr other ↦ rw other (omega (arith, sum-save w p a k xs u.1 rest same))
        ]
  ]

  pub sum-append : (w : A → ℕ) (xs ys : List A) → sum w (xs ++ ys) ≡ sum w xs + sum w ys
  sum-append w [] ys = omega arith
  sum-append w (x ∷ xs) ys = omega (arith, sum-append w xs ys)

  pub find-save :
      (p : A → Bool) (a k : A) (xs : List A)
      → UniqueIds xs
      → find p xs ≡ some k
      → id a ≡ id k
      → p a ≡ true
      → find p (save a xs) ≡ some a
  unfolding save
  find-save p a k [] u e same h = cc
  find-save p a k (x ∷ xs) u e same h = elim (Bool-cases (p x)) [
    | inl hit ↦ ground (arith, nat_beq_iff (id x) (id a), ap id (found_head p k x xs e hit))
    | inr miss ↦
        let (rest, apart) = found_tail p k x xs u e miss in
        ground (arith, nat_beq_iff (id x) (id a), find-save p a k xs u.1 rest same h)
  ]

  -- A query that neither the old nor the new row answers is not changed.
  pub find-save_other :
      (p q : A → Bool) (a k : A) (xs : List A)
      → UniqueIds xs
      → find p xs ≡ some k
      → id a ≡ id k
      → q k ≡ false
      → q a ≡ false
      → find q (save a xs) ≡ find q xs
  unfolding save
  find-save_other p q a k [] u e same hk ha = cc
  find-save_other p q a k (x ∷ xs) u e same hk ha = elim (Bool-cases (p x)) [
    | inl hit ↦ ground (
      arith,
      nat_beq_iff (id x) (id a),
      found_head p k x xs e hit,
      ap id (found_head p k x xs e hit),
    )
    | inr miss ↦
        let (rest, apart) = found_tail p k x xs u e miss in
        ground (arith, nat_beq_iff (id x) (id a), find-save_other p q a k xs u.1 rest same hk ha)
  ]

  All-others :
      (P Q : A → Type 0) (a x : A) (ys : List A)
      → id x ≡ id a
      → All (λ y. id y ≢ id x) ys
      → All P ys
      → ((y : A) → id y ≢ id a → P y → Q y)
      → All Q ys
  All-others P Q a x [] same apart all keep = tt
  All-others P Q a x (y ∷ ys) same apart all keep = (
    keep y (λ e. apart.0 (omega (arith, e, same))) all.0,
    All-others P Q a x ys same apart.1 all.1 keep,
  )

  -- The row is replaced, and all others pass from one property to another.
  pub All-transfer :
      (P Q : A → Type 0) (a : A) (xs : List A)
      → UniqueIds xs
      → All P xs
      → Q a
      → ((x : A) → id x ≢ id a → P x → Q x)
      → All Q (save a xs)
  unfolding save
  All-transfer P Q a [] u all h keep = tt
  All-transfer P Q a (x ∷ xs) u all h keep = elim (Bool-cases (nat_beq (id x) (id a))) [
    | inl same ↦
        rw same (h, All-others P Q a x xs ((nat_beq_iff (id x) (id a)).0 same) u.0 all.1 keep)
    | inr differ ↦ rw differ (
      keep x (λ e. absurd (ground (arith, nat_beq_iff (id x) (id a)))) all.0,
      All-transfer P Q a xs u.1 all.1 h keep,
    )
  ]
