-- ===== src/Prelude/Fallible.antt =====
-- Go's `(value, error)` results: a value, or an error.
use mathlib.Core.Path.{◌≡◌, refl}
use mathlib.Core.Logic.{◌⊎◌, inl, inr}

pub data Result {ℓ κ} (E : Type ℓ) (A : Type κ) : Type (ℓ ⊔ κ) where
  ok : A → Result E A
  err : E → Result E A

module _ {ℓ κ ι} {E : Type ℓ} {A : Type κ} {B : Type ι} where
  infixl 5 ◌>>=◌
  abbrev pub ◌>>=◌ : (m : Result E A) (next : A → Result E B) → Result E B
  ◌>>=◌ (err e) next = err e
  ◌>>=◌ (ok a) next = next a

-- `if err != nil { return nil, wrap(err) }`
abbrev pub map_err {ℓ κ} : {E : Type ℓ} {A : Type κ} → (E → E) → Result E A → Result E A
map_err f (ok a) = ok a
map_err f (err e) = err (f e)

module _ {ℓ κ ι} {E : Type ℓ} {A : Type κ} {B : Type ι} (next : A → Result E B) {result : B} where
  -- A bind that succeeds has a first part that succeeds.
  pub >>=-eq-ok :
      (m : Result E A)
      → (m >>= next) ≡ ok result
      → (first : A) × (m ≡ ok first) × (next first ≡ ok result)
  >>=-eq-ok (err e) same = cc
  >>=-eq-ok (ok first) same = (first, refl, same)

pub Result-cases {ℓ κ} :
    {E : Type ℓ} {A : Type κ} (m : Result E A) → ((a : A) × (m ≡ ok a)) ⊎ ((e : E) × (m ≡ err e))
Result-cases (ok a) = inl (a, refl)
Result-cases (err e) = inr (e, refl)
