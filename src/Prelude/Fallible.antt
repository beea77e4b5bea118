-- ===== src/Prelude/Fallible.antt =====
-- `Result<A, E>`, and chains of `?` as `do` blocks.
use mathlib.Core.Path.{◌≡◌, refl}
use mathlib.Core.Logic.{◌⊎◌, inl, inr}

pub data Result {ℓ κ} (A : Type ℓ) (E : Type κ) : Type (ℓ ⊔ κ) where
  ok : A → Result A E
  err : E → Result A E

module _ {ℓ κ ι} {A : Type ℓ} {B : Type κ} {E : Type ι} where
  infixl 5 ◌>>=◌ ◌>>◌
  -- The operator `?`: an error leaves the block.
  abbrev pub ◌>>=◌ : Result A E → (A → Result B E) → Result B E
  ◌>>=◌ (err failure) rest = err failure
  ◌>>=◌ (ok value) rest = rest value

  abbrev pub ◌>>◌ : Result A E → Result B E → Result B E
  ◌>>◌ first rest = first >>= λ _. rest

  -- A block that succeeds passed its first step.
  pub >>=_ok :
      (first : Result A E) (rest : A → Result B E) {out : B}
      → (first >>= rest) ≡ ok out
      → (value : A) × (first ≡ ok value) × (rest value ≡ ok out)
  >>=_ok (err failure) rest e = cc
  >>=_ok (ok value) rest e = (value, refl, e)

module _ {ℓ κ} {A : Type ℓ} {E : Type κ} where
  pub Result-cases : (r : Result A E) → ((a : A) × (r ≡ ok a)) ⊎ ((e : E) × (r ≡ err e))
  Result-cases (err failure) = inr (failure, refl)
  Result-cases (ok value) = inl (value, refl)
