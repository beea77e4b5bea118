-- ===== src/Prelude/Maps.antt =====
-- `HashMap` and `HashSet` as lists: the source never depends on the order of their entries.
use Prim.Native.Nat.{suc, ◌≤◌, ◌<◌}
use Prim.Native.String.{String}
use mathlib.Core.Path.{◌≡◌, refl}
use mathlib.Core.Bool.{Bool, true, false, ◌||◌}
use mathlib.Core.Logic.{◌↔◌}
use mathlib.Core.List.{List, [], ◌∷◌, ◌++◌}
use mathlib.Core.Option.{Option, none, some}
use native.Mathlib.Omega.{arith}
use text.Mathlib.Text.{◌==◌ as str_eq}
use text.Mathlib.TextEquality.{eq_iff}
use maestro_app.Prelude.Tests.{if◌then◌else◌}
use maestro_app.Prelude.Lists.{length}

-- `Eq`: a Boolean equality that decides equality.
pub record Eq {ℓ} (K : Type ℓ) : Type ℓ where
  pub beq : K → K → Bool
  pub beq_iff : (a b : K) → (beq a b ≡ true) ↔ (a ≡ b)

instance abbrev pub string_eq : Eq String
string_eq = record { beq = str_eq; beq_iff = eq_iff }

module _ {ℓ} {K : Type ℓ} ⦃e : Eq K⦄ where
  pub beq_refl : (a : K) → e.beq a a ≡ true
  beq_refl a = (e.beq_iff a a).1 refl

  pub beq_false : (a b : K) → e.beq a b ≡ false → a ≡ b → ⊥
  beq_false a b h p = ground (arith, e.beq_iff a b)

  -- `HashSet`: `contains`, `insert` and `remove`.
  unfoldable pub contains : List K → K → Bool
  contains [] k = false
  contains (j ∷ s) k = e.beq j k || contains s k

  unfoldable pub without : K → List K → List K
  without k [] = []
  without k (j ∷ s) = let rest = without k s in if e.beq j k then rest else j ∷ rest

  unfoldable pub with_key : K → List K → List K
  unfolding contains
  with_key k s = if contains s k then s else k ∷ s

  pub contains-without :
      (s : List K) (k j : K)
      → contains (without k s) j ≡ (if e.beq k j then false else contains s j)
  unfolding contains without
  contains-without [] k j = ground arith
  contains-without (i ∷ s) k j =
      ground (arith, contains-without s k j, e.beq_iff i k, e.beq_iff i j, e.beq_iff k j)

  pub contains-with_key :
      (s : List K) (k j : K)
      → contains (with_key k s) j ≡ (if e.beq k j then true else contains s j)
  unfolding contains with_key
  contains-with_key s k j = ground (arith, e.beq_iff k j)

  pub contains-append :
      (s t : List K) (k : K) → contains (s ++ t) k ≡ (contains s k || contains t k)
  unfolding contains
  contains-append [] t k = refl
  contains-append (j ∷ s) t k = ground (arith, contains-append s t k)

  -- No key twice.
  abbrev pub IsDistinct : List K → Type ℓ
  IsDistinct [] = Unit
  IsDistinct (k ∷ s) = (contains s k ≡ false) × IsDistinct s

  pub IsDistinct-append_one :
      (s : List K) (k : K) → contains s k ≡ false → IsDistinct s → IsDistinct (s ++ k ∷ [])
  unfolding contains
  IsDistinct-append_one [] k h d = (refl, tt)
  IsDistinct-append_one (j ∷ s) k h d = (
    ground (arith, contains-append s (k ∷ []) j, e.beq_iff j k, e.beq_iff k j),
    IsDistinct-append_one s k (ground arith) d.1,
  )

module _ {ℓ κ} {K : Type ℓ} {V : Type κ} ⦃e : Eq K⦄ where
  -- `HashMap`: `get`, `remove` and `insert`, which replaces.
  unfoldable pub get : List (K × V) → K → Option V
  get [] k = none
  get ((j, v) ∷ m) k = if e.beq j k then some v else get m k

  unfoldable pub remove : K → List (K × V) → List (K × V)
  remove k [] = []
  remove k ((j, v) ∷ m) = let rest = remove k m in if e.beq j k then rest else (j, v) ∷ rest

  unfoldable pub insert : K → V → List (K × V) → List (K × V)
  unfolding remove
  insert k v m = (k, v) ∷ remove k m

  pub get-remove :
      (m : List (K × V)) (k j : K) → get (remove k m) j ≡ (if e.beq k j then none else get m j)
  unfolding get remove
  get-remove [] k j = ground arith
  get-remove ((i, v) ∷ m) k j =
      ground (arith, get-remove m k j, e.beq_iff i k, e.beq_iff i j, e.beq_iff k j)

  pub get-insert :
      (m : List (K × V)) (k j : K) (v : V)
      → get (insert k v m) j ≡ (if e.beq k j then some v else get m j)
  unfolding get insert
  get-insert m k j v = ground (arith, get-remove m k j)

  pub length-remove : (m : List (K × V)) (k : K) → length (remove k m) ≤ length m
  unfolding remove
  length-remove [] k = omega arith
  length-remove ((i, v) ∷ m) k = ground (arith, length-remove m k)

  pub length-remove_present :
      (m : List (K × V)) (k : K) (v : V) → get m k ≡ some v → length (remove k m) < length m
  unfolding remove get
  length-remove_present [] k v h = cc
  length-remove_present ((i, w) ∷ m) k v h =
      ground (arith, length-remove m k, length-remove_present m k v)

  pub length-insert : (m : List (K × V)) (k : K) (v : V) → length (insert k v m) ≤ suc (length m)
  unfolding insert
  length-insert m k v = omega (arith, length-remove m k)
