-- ===== src/Prelude/Fallible.antt =====
-- Fallible code: an exception is a value of the error type.
use mathlib.Core.Path.{◌≡◌, refl, subst}
use mathlib.Core.Bool.{Bool, true, false}

pub data Result {ℓ} (E A : Type ℓ) : Type ℓ where
  ok : A → Result E A
  err : E → Result E A

infixl 5 ◌>>=◌ ◌>>◌
abbrev pub ◌>>=◌ {ℓ} : {E A B : Type ℓ} → Result E A → (A → Result E B) → Result E B
ok a >>= f = f a
err e >>= f = err e

abbrev pub ◌>>◌ : {E B : Type 0} → Result E Unit → Result E B → Result E B
m >> k = m >>= λ _. k

-- `if not condition: raise e`
abbrev pub require : {E : Type 0} → Bool → E → Result E Unit
require true e = ok tt
require false e = err e

-- `raise E(...) from exc`
abbrev pub map_err {ℓ} : {E F A : Type ℓ} → (E → F) → Result E A → Result F A
map_err f (ok a) = ok a
map_err f (err e) = err (f e)

-- A chain returns only if its first part does, and then with what the rest returns.
pub >>=-eq-ok {ℓ} :
    {E A B : Type ℓ} (first : Result E A) (rest : A → Result E B) (end : B)
    → (first >>= rest) ≡ ok end
    → (mid : A) × (first ≡ ok mid) × (rest mid ≡ ok end)
>>=-eq-ok (err e) rest end returns = cc
>>=-eq-ok (ok mid) rest end returns = (mid, refl, returns)

abbrev pub is_ok {ℓ} : {E A : Type ℓ} → Result E A → Bool
is_ok (ok a) = true
is_ok (err e) = false

pub ok_injective {ℓ} : {E A : Type ℓ} (a b : A) → ◌≡◌ {A = Result E A} (ok a) (ok b) → a ≡ b
ok_injective a b h = cc

pub >>-eq-ok :
    {E B : Type 0} (first : Result E Unit) (rest : Result E B) (end : B)
    → (first >> rest) ≡ ok end
    → (first ≡ ok tt) × (rest ≡ ok end)
>>-eq-ok (err e) rest end returns = cc
>>-eq-ok (ok mid) rest end returns = (refl, returns)

pub require-ok :
    {E : Type 0} (b : Bool) (e : E) → ◌≡◌ {A = Result E Unit} (require b e) (ok tt) → b ≡ true
require-ok true e h = refl
require-ok false e h = cc

-- What holds of the value that a chain returns; an error is left aside.
abbrev pub Returns {ℓ} : {E A : Type 0} → (A → Type ℓ) → Result E A → Type ℓ
Returns P (ok a) = P a
Returns P (err e) = Unit

pub >>=-Returns {ℓ} :
    {E A B : Type 0} (P : B → Type ℓ) (first : Result E A) (rest : A → Result E B)
    → ((a : A) → first ≡ ok a → Returns P (rest a))
    → Returns P (first >>= rest)
>>=-Returns P (err e) rest each = tt
>>=-Returns P (ok a) rest each = each a refl

pub Returns-ok {ℓ} :
    {E A : Type 0} (P : A → Type ℓ) (result : Result E A) (a : A)
    → Returns P result
    → result ≡ ok a
    → P a
Returns-ok P result a holds same = subst (Returns P) same holds

abbrev pub value_or {ℓ} : {E A : Type ℓ} → A → Result E A → A
value_or other (ok a) = a
value_or other (err e) = other
