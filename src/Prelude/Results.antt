-- ===== src/Prelude/Results.antt =====
-- A value or an error, as Go's pair of a result and an `error`.
use mathlib.Core.Path.{◌≡◌, refl}
use mathlib.Core.Logic.{◌⊎◌, inl, inr}

pub data Result {ℓ} (E : Type 0) (A : Type ℓ) : Type ℓ where
  err : E → Result E A
  ok : A → Result E A

module _ {E : Type 0} where
  -- What follows a call runs when the call gave no error.
  infixl 5 ◌>>=◌ ◌>>◌
  abbrev pub ◌>>=◌ {ℓ κ} : {A : Type ℓ} {B : Type κ} → Result E A → (A → Result E B) → Result E B
  err problem >>= after = err problem
  ok value >>= after = after value

  -- A check that has no result of its own.
  abbrev pub ◌>>◌ {κ} : {B : Type κ} → Result E (Unit {0}) → Result E B → Result E B
  check >> after = check >>= λ passed. after

  pub Result-cases {ℓ} :
      {A : Type ℓ} (r : Result E A) → ((a : A) × (r ≡ ok a)) ⊎ ((e : E) × (r ≡ err e))
  Result-cases (err problem) = inr (problem, refl)
  Result-cases (ok value) = inl (value, refl)

  pub >>=-eq-ok {ℓ κ} :
      {A : Type ℓ} {B : Type κ} (m : Result E A) (after : A → Result E B) {b : B}
      → (m >>= after) ≡ ok b
      → (a : A) × (m ≡ ok a) × (after a ≡ ok b)
  >>=-eq-ok (err problem) after h = cc
  >>=-eq-ok (ok value) after h = (value, refl, h)
