-- ===== src/Daemon/Sequence.antt =====
-- Entries under consecutive sequence numbers: the shape that the event log of
-- crates/maestrod/src/fake_session.rs and the output buffer of crates/maestrod/src/terminal.rs share.
use maestro_app.Prelude.{
  ℕ, suc, ◌+◌, ◌≤◌, ◌≡◌, refl, List, [], ◌∷◌, ◌++◌, subst, arith, ltb, inl, inr, Bool-cases, length,
  retain,
}

module _ {A : Type 0} (sequence : A → ℕ) where
  -- The numbers of the entries are those after `low` up to `high`, in order.
  unfoldable pub IsRun : ℕ → List A → ℕ → Type 0
  IsRun low [] high = low ≡ high
  IsRun low (x ∷ xs) high = (sequence x ≡ suc low) × IsRun (sequence x) xs high

  unfoldable pub after : ℕ → List A → List A
  after cursor xs = retain (λ x. ltb cursor (sequence x)) xs

  -- The number of the last entry, or the cursor where there is none.
  unfoldable pub last_or : ℕ → List A → ℕ
  last_or cursor [] = cursor
  last_or cursor (x ∷ xs) = last_or (sequence x) xs

  pub IsRun-nil : (n : ℕ) → IsRun n [] n
  unfolding IsRun
  IsRun-nil n = refl

  pub IsRun-cons :
      (low high : ℕ) (x : A) (xs : List A)
      → IsRun low (x ∷ xs) high
      → (sequence x ≡ suc low) × IsRun (sequence x) xs high
  unfolding IsRun
  IsRun-cons low high x xs h = h

  pub IsRun-length : (low high : ℕ) (xs : List A) → IsRun low xs high → low + length xs ≡ high
  unfolding IsRun
  IsRun-length low high [] h = ground (arith, h)
  IsRun-length low high (x ∷ xs) (e, h) = ground (arith, e, IsRun-length (sequence x) high xs h)

  pub IsRun-append_one :
      (low high : ℕ) (xs : List A) (x : A)
      → sequence x ≡ suc high
      → IsRun low xs high
      → IsRun low (xs ++ x ∷ []) (suc high)
  unfolding IsRun
  IsRun-append_one low high [] x e h = (ground (arith, e, h), e)
  IsRun-append_one low high (y ∷ xs) x e (e', h) = (e', IsRun-append_one (sequence y) high xs x e h)

  pub after-all :
      (low high cursor : ℕ) (xs : List A) → cursor ≤ low → IsRun low xs high → after cursor xs ≡ xs
  unfolding IsRun after
  after-all low high cursor [] c h = refl
  after-all low high cursor (x ∷ xs) c (e, h) =
      ground (arith, after-all (sequence x) high cursor xs (ground arith) h)

  after-all' :
      (low high cursor : ℕ) (x : A) (xs : List A)
      → cursor ≤ low
      → sequence x ≡ suc low
      → IsRun (sequence x) xs high
      → retain (λ y. ltb cursor (sequence y)) xs ≡ xs
  unfolding after
  after-all' low high cursor x xs c e rest =
      after-all (sequence x) high cursor xs (omega (arith, e)) rest

  -- What a reader at `cursor` has not seen is a run from its cursor.
  pub IsRun-after :
      (low high cursor : ℕ) (xs : List A)
      → low ≤ cursor
      → cursor ≤ high
      → IsRun low xs high
      → IsRun cursor (after cursor xs) high
  unfolding after
  IsRun-after low high cursor [] a b h =
      ground (arith, IsRun-length low high [] h, IsRun-nil cursor)
  IsRun-after low high cursor (x ∷ xs) a b h =
      let (e, rest) = IsRun-cons low high x xs h in
      elim (Bool-cases (ltb cursor (sequence x))) [
        | inl later ↦
            rw (later, after-all' low high cursor x xs (ground arith) e rest)
              (subst (λ n. IsRun n (x ∷ xs) high) (ground arith) h)
        | inr seen ↦ rw seen (IsRun-after (sequence x) high cursor xs (ground arith) b rest)
      ]

  pub IsRun-take :
      (low high : ℕ) (xs ys : List A)
      → IsRun low (xs ++ ys) high
      → IsRun low xs (last_or low xs) × IsRun (last_or low xs) ys high
  unfolding IsRun last_or
  IsRun-take low high [] ys h = (refl, h)
  IsRun-take low high (x ∷ xs) ys (e, h) =
      let (front, back) = IsRun-take (sequence x) high xs ys h in ((e, front), back)
