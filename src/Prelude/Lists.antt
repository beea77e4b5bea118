-- ===== src/Prelude/Lists.antt =====
-- Lists measured by native numbers, under the library's names, with Boolean searches.
use Prim.Native.Nat.{ℕ, zero, suc, ◌+◌, ◌-◌, ◌≤◌, min}
use mathlib.Core.Path.{◌≡◌, refl, sym, ap, ◌∙◌}
use mathlib.Core.Bool.{Bool, true, false, ◌&&◌, ◌||◌}
use mathlib.Core.List.{List, [], ◌∷◌, ◌++◌}
use native.Mathlib.Omega.{arith}
use mathlib.Core.Logic.{inl, inr}
use maestro_app.Prelude.Tests.{if◌then◌else◌, Bool-cases}

module _ {ℓ} {A : Type ℓ} where
  abbrev pub length : List A → ℕ
  length [] = 0
  length (x ∷ xs) = suc (length xs)

  abbrev pub take : ℕ → List A → List A
  take zero xs = []
  take (suc n) [] = []
  take (suc n) (x ∷ xs) = x ∷ take n xs

  abbrev pub drop : ℕ → List A → List A
  drop zero xs = xs
  drop (suc n) [] = []
  drop (suc n) (x ∷ xs) = drop n xs

  -- `iter().any`, `iter().all` and `filter` of a Boolean test.
  abbrev pub any : (A → Bool) → List A → Bool
  any p [] = false
  any p (x ∷ xs) = p x || any p xs

  abbrev pub all : (A → Bool) → List A → Bool
  all p [] = true
  all p (x ∷ xs) = p x && all p xs

  abbrev pub retain : (A → Bool) → List A → List A
  retain p [] = []
  retain p (x ∷ xs) = let rest = retain p xs in if p x then x ∷ rest else rest

  abbrev pub concat : List (List A) → List A
  concat [] = []
  concat (xs ∷ xss) = xs ++ concat xss

  pub length-append : (xs ys : List A) → length (xs ++ ys) ≡ length xs + length ys
  length-append [] ys = omega arith
  length-append (x ∷ xs) ys = omega (arith, length-append xs ys)

-- A property of every element.
abbrev pub All {ℓ κ} : {A : Type ℓ} → (A → Type κ) → List A → Type κ
All P [] = Unit
All P (x ∷ xs) = P x × All P xs

module _ {ℓ κ} {A : Type ℓ} (P : A → Type κ) where
  pub All-append_left : (xs ys : List A) → All P (xs ++ ys) → All P xs
  All-append_left [] ys h = tt
  All-append_left (x ∷ xs) ys h = (h.0, All-append_left xs ys h.1)

  pub All-append_right : (xs ys : List A) → All P (xs ++ ys) → All P ys
  All-append_right [] ys h = h
  All-append_right (x ∷ xs) ys h = All-append_right xs ys h.1

  pub All-append : (xs ys : List A) → All P xs → All P ys → All P (xs ++ ys)
  All-append [] ys h k = k
  All-append (x ∷ xs) ys h k = (h.0, All-append xs ys h.1 k)

  pub All-map {ι} : (Q : A → Type ι) (xs : List A) → ((x : A) → P x → Q x) → All P xs → All Q xs
  All-map Q [] f h = tt
  All-map Q (x ∷ xs) f h = (f x h.0, All-map Q xs f h.1)

module _ {ℓ} {A : Type ℓ} (p : A → Bool) where
  -- What is kept at one place was kept there from one place.
  abbrev pub SplitAt : List A → List A → A → List A → Type ℓ
  SplitAt xs ls r rs =
      (before after : List A) × (xs ≡ before ++ r ∷ after)
      × (p r ≡ true)
      × (retain p before ≡ ls)
      × (retain p after ≡ rs)

  SplitAt-kept :
      (x : A) (xs ls : List A) (r : A) (rs : List A)
      → p x ≡ true
      → ((ls' : List A) → retain p xs ≡ ls' ++ r ∷ rs → SplitAt xs ls' r rs)
      → x ∷ retain p xs ≡ ls ++ r ∷ rs
      → SplitAt (x ∷ xs) ls r rs
  SplitAt-kept x xs [] r rs kept ih e = ([], xs, cc, ground arith, refl, cc)
  SplitAt-kept x xs (l ∷ ls) r rs kept ih e =
      let (before, after, split, found, left, right) = ih ls (ground arith) in
      (x ∷ before, after, ap (◌∷◌ x) split, found, rw kept (ground arith), right)

  SplitAt-gone :
      (x : A) (xs ls : List A) (r : A) (rs : List A)
      → p x ≡ false
      → SplitAt xs ls r rs
      → SplitAt (x ∷ xs) ls r rs
  SplitAt-gone x xs ls r rs gone (before, after, split, found, left, right) =
      (x ∷ before, after, ap (◌∷◌ x) split, found, rw gone left, right)

  pub retain-split :
      (xs ls : List A) (r : A) (rs : List A) → retain p xs ≡ ls ++ r ∷ rs → SplitAt xs ls r rs
  retain-split [] [] r rs e = cc
  retain-split [] (l ∷ ls) r rs e = cc
  retain-split (x ∷ xs) ls r rs e = elim (Bool-cases (p x)) [
    | inl kept ↦ SplitAt-kept x xs ls r rs kept (λ ls'. retain-split xs ls' r rs) (rw kept at e)
    | inr gone ↦ SplitAt-gone x xs ls r rs gone (retain-split xs ls r rs (rw gone at e))
  ]

  pub any-retain : (xs : List A) → retain p xs ≡ [] → any p xs ≡ false
  any-retain [] e = refl
  any-retain (x ∷ xs) e = ground (arith, any-retain xs)

  pub any_middle :
      (before : List A) (r : A) (after : List A) → p r ≡ true → any p (before ++ r ∷ after) ≡ true
  any_middle [] r after h = ground arith
  any_middle (x ∷ before) r after h = ground (arith, any_middle before r after h)

module _ {ℓ} {A : Type ℓ} where
  pub take-eq_self : (n : ℕ) (xs : List A) → length xs ≤ n → take n xs ≡ xs
  take-eq_self zero [] h = refl
  take-eq_self zero (x ∷ xs) h = absurd (omega arith)
  take-eq_self (suc n) [] h = refl
  take-eq_self (suc n) (x ∷ xs) h = ap (◌∷◌ x) (take-eq_self n xs (omega arith))

module _ {ℓ} {A : Type ℓ} where
  pub drop_more : (n : ℕ) (xs ys : List A) (x : A) → x ∷ ys ≡ drop n xs → ys ≡ drop (suc n) xs
  drop_more zero [] ys x e = cc
  drop_more (suc n) [] ys x e = cc
  drop_more zero (z ∷ xs) ys x e = ground arith
  drop_more (suc n) (z ∷ xs) ys x e = drop_more n xs ys x e

  pub drop-append_one :
      (n : ℕ) (xs : List A) (x : A) → n ≤ length xs → drop n (xs ++ x ∷ []) ≡ drop n xs ++ x ∷ []
  drop-append_one zero xs x h = refl
  drop-append_one (suc n) [] x h = absurd (omega arith)
  drop-append_one (suc n) (y ∷ xs) x h = drop-append_one n xs x (omega arith)

  pub append-nil : (xs : List A) → xs ++ [] ≡ xs
  append-nil [] = refl
  append-nil (x ∷ xs) = ap (◌∷◌ x) (append-nil xs)

  pub append_assoc : (xs ys zs : List A) → (xs ++ ys) ++ zs ≡ xs ++ (ys ++ zs)
  append_assoc [] ys zs = refl
  append_assoc (x ∷ xs) ys zs = ap (◌∷◌ x) (append_assoc xs ys zs)

  pub length-drop : (n : ℕ) (xs : List A) → length (drop n xs) ≡ length xs - n
  length-drop zero xs = omega arith
  length-drop (suc n) [] = omega arith
  length-drop (suc n) (x ∷ xs) = omega (arith, length-drop n xs)

  pub drop-append_left :
      (n : ℕ) (xs ys : List A) → n ≤ length xs → drop n (xs ++ ys) ≡ drop n xs ++ ys
  drop-append_left zero xs ys h = refl
  drop-append_left (suc n) [] ys h = absurd (omega arith)
  drop-append_left (suc n) (x ∷ xs) ys h = drop-append_left n xs ys (omega arith)

  pub drop_at : (m n : ℕ) (xs : List A) → m ≡ n → drop m xs ≡ drop n xs
  drop_at m n xs e = ap (λ k. drop k xs) e

  pub drop-nil : (n : ℕ) → drop {A = A} n [] ≡ []
  drop-nil zero = refl
  drop-nil (suc n) = refl

  pub drop-all : (n : ℕ) (xs : List A) → length xs ≤ n → drop n xs ≡ []
  drop-all n [] h = drop-nil n
  drop-all zero (x ∷ xs) h = absurd (omega arith)
  drop-all (suc n) (x ∷ xs) h = drop-all n xs (omega arith)

  pub drop-append_right :
      (n k : ℕ) (xs ys : List A) → k ≡ length xs + n → drop k (xs ++ ys) ≡ drop n ys
  drop-append_right n k [] ys e = drop_at k n ys (omega (arith, e))
  drop-append_right n zero (x ∷ xs) ys e = absurd (omega (arith, e))
  drop-append_right n (suc k) (x ∷ xs) ys e = drop-append_right n k xs ys (omega (arith, e))

  pub drop-drop : (m n k : ℕ) (xs : List A) → k ≡ n + m → drop m (drop n xs) ≡ drop k xs
  drop-drop m zero k xs e = drop_at m k xs (omega (arith, e))
  drop-drop m (suc n) k [] e = drop-nil m ∙ sym (drop-nil k)
  drop-drop m (suc n) zero (x ∷ xs) e = absurd (omega (arith, e))
  drop-drop m (suc n) (suc k) (x ∷ xs) e = drop-drop m n k xs (omega (arith, e))

  pub length-take : (n : ℕ) (xs : List A) → length (take n xs) ≡ min n (length xs)
  length-take zero xs = omega arith
  length-take (suc n) [] = omega arith
  length-take (suc n) (x ∷ xs) = omega (arith, length-take n xs)

  take_at : (m n : ℕ) (xs : List A) → m ≡ n → take m xs ≡ take n xs
  take_at m n xs e = ap (λ k. take k xs) e

  pub take-min : (n k : ℕ) (xs : List A) → k ≡ min n (length xs) → take k xs ≡ take n xs
  take-min n zero [] e = sym (take-eq_self n [] (omega arith))
  take-min zero (suc k) xs e = absurd (omega (arith, e))
  take-min n (suc k) [] e = absurd (omega (arith, e))
  take-min zero zero (x ∷ xs) e = refl
  take-min (suc n) zero (x ∷ xs) e = absurd (omega (arith, e))
  take-min (suc n) (suc k) (x ∷ xs) e = ap (◌∷◌ x) (take-min n k xs (omega (arith, e)))

  pub take-append :
      (n k : ℕ) (xs ys : List A) → k ≡ n - length xs → take n (xs ++ ys) ≡ take n xs ++ take k ys
  take-append zero k [] ys e = sym (take_at k 0 ys (omega (arith, e)))
  take-append (suc n) k [] ys e = sym (take_at k (suc n) ys (omega (arith, e)))
  take-append zero k (x ∷ xs) ys e = sym (take_at k 0 ys (omega (arith, e)))
  take-append (suc n) k (x ∷ xs) ys e = ap (◌∷◌ x) (take-append n k xs ys (omega (arith, e)))

  pub take-append_left : (n : ℕ) (xs ys : List A) → n ≤ length xs → take n (xs ++ ys) ≡ take n xs
  take-append_left zero xs ys h = refl
  take-append_left (suc n) [] ys h = absurd (omega arith)
  take-append_left (suc n) (x ∷ xs) ys h = ap (◌∷◌ x) (take-append_left n xs ys (omega arith))

  pub take-drop : (n : ℕ) (xs : List A) → take n xs ++ drop n xs ≡ xs
  take-drop zero xs = refl
  take-drop (suc n) [] = refl
  take-drop (suc n) (x ∷ xs) = ap (◌∷◌ x) (take-drop n xs)

  pub take-take : (m n : ℕ) (xs : List A) → m ≤ n → take m (take n xs) ≡ take m xs
  take-take zero n xs h = refl
  take-take (suc m) zero xs h = absurd (omega arith)
  take-take (suc m) (suc n) [] h = refl
  take-take (suc m) (suc n) (x ∷ xs) h = ap (◌∷◌ x) (take-take m n xs (omega arith))
