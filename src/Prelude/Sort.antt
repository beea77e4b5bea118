-- ===== src/Prelude/Sort.antt =====
-- The standard library's stable `sort_by` and `dedup_by`, by a key in an order.
use mathlib.Core.Path.{◌≡◌}
use mathlib.Core.Bool.{true}
use mathlib.Core.Logic.{inl, inr}
use mathlib.Core.List.{List, [], ◌∷◌}
use maestro_app.Prelude.Tests.{if◌then◌else◌, Bool-cases}
use maestro_app.Prelude.Lists.{All, All-map}
use maestro_app.Prelude.Order.{Order}

-- What holds of every element and each later one.
abbrev pub Pairwise {ℓ κ} : {A : Type ℓ} → (A → A → Type κ) → List A → Type (ℓ ⊔ κ)
Pairwise R [] = Unit
Pairwise R (x ∷ xs) = All (R x) xs × Pairwise R xs

module _ {ℓ κ} {A : Type ℓ} {K : Type κ} ⦃o : Order K⦄ (key : A → K) where
  unfoldable pub insert_sorted : A → List A → List A
  insert_sorted x [] = x ∷ []
  insert_sorted x (y ∷ ys) =
      let rest = insert_sorted x ys in if o.before (key x) (key y) then x ∷ y ∷ ys else y ∷ rest

  unfoldable pub sort_by_key : List A → List A
  unfolding insert_sorted
  sort_by_key [] = []
  sort_by_key (x ∷ xs) = insert_sorted x (sort_by_key xs)

  All-insert_sorted {ι} :
      (P : A → Type ι) (x : A) (ys : List A) → P x → All P ys → All P (insert_sorted x ys)
  unfolding insert_sorted
  All-insert_sorted P x [] p h = (p, tt)
  All-insert_sorted P x (y ∷ ys) p h = elim (Bool-cases (o.before (key x) (key y))) [
    | inl e ↦ rw e (p, h)
    | inr e ↦ rw e (h.0, All-insert_sorted P x ys p h.1)
  ]

  pub All-sort_by_key {ι} : (P : A → Type ι) (xs : List A) → All P xs → All P (sort_by_key xs)
  unfolding sort_by_key
  All-sort_by_key P [] h = tt
  All-sort_by_key P (x ∷ xs) h =
      All-insert_sorted P x (sort_by_key xs) h.0 (All-sort_by_key P xs h.1)

  abbrev pub IsBefore : A → A → Type 0
  IsBefore x y = o.before (key x) (key y) ≡ true

  insert_sorted-Pairwise :
      (x : A) (ys : List A) → Pairwise IsBefore ys → Pairwise IsBefore (insert_sorted x ys)
  unfolding insert_sorted
  insert_sorted-Pairwise x [] h = (tt, tt)
  insert_sorted-Pairwise x (y ∷ ys) h = elim (Bool-cases (o.before (key x) (key y))) [
    | inl e ↦ rw e (
      (e, All-map (IsBefore y) (IsBefore x) ys (λ z q. o.trans (key x) (key y) (key z) e q) h.0),
      h,
    )
    | inr e ↦ rw e (
      All-insert_sorted (IsBefore y) x ys
          (elim (o.total (key x) (key y)) [ inl p ↦ cc | inr q ↦ q ]) h.0,
      insert_sorted-Pairwise x ys h.1,
    )
  ]

  -- The sorted list is ordered.
  pub sort_by_key-Pairwise : (xs : List A) → Pairwise IsBefore (sort_by_key xs)
  unfolding sort_by_key
  sort_by_key-Pairwise [] = tt
  sort_by_key-Pairwise (x ∷ xs) =
      insert_sorted-Pairwise x (sort_by_key xs) (sort_by_key-Pairwise xs)
