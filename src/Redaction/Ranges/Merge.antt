-- ===== src/Redaction/Ranges/Merge.antt =====
-- The ranges that `normalize_ranges` of crates/maestro-redaction/src/lib.rs makes of recorded ones.
use maestro_app.Prelude.{
  ℕ, suc, ◌≤◌, ◌<◌, ◌≡◌, refl, ap, ◌∙◌, max, Bool, ◌&&◌, ◌||◌, List, [], ◌∷◌, arith, ltb, leb,
  length, any, retain, All, inl, inr, Bool-cases,
}
use maestro_app.Redaction.Scan.{Range}
use maestro_app.Redaction.Ranges.{
  is_kept, range_le, insert_range, sort_ranges, merge_into, merge_ranges, normalize_ranges,
}

abbrev pub in_range : ℕ → Range → Bool
in_range i r = leb r.start i && ltb i r.end

-- A position in one of the ranges.
unfoldable pub covered : List Range → ℕ → Bool
covered rs i = any (in_range i) rs

-- Not empty, each begins after the end of the one before, with a byte between, and all end within
-- the text.
unfoldable pub IsApart : ℕ → ℕ → List Range → Type 0
IsApart low limit [] = Unit
IsApart low limit (r ∷ rs) =
    (low ≤ r.start) × (r.start < r.end) × (r.end ≤ limit) × IsApart (suc r.end) limit rs

abbrev IsSorted : ℕ → ℕ → List Range → Type 0
IsSorted low limit [] = Unit
IsSorted low limit (r ∷ rs) =
    (low ≤ r.start) × (r.start < r.end) × (r.end ≤ limit) × IsSorted r.start limit rs

covered-insert_range :
    (r : Range) (rs : List Range) (i : ℕ)
    → covered (insert_range r rs) i ≡ (in_range i r || covered rs i)
unfolding covered insert_range
covered-insert_range r [] i = refl
covered-insert_range r (s ∷ rs) i = ground (arith, covered-insert_range r rs i)

covered-sort_ranges : (rs : List Range) (i : ℕ) → covered (sort_ranges rs) i ≡ covered rs i
unfolding covered sort_ranges
covered-sort_ranges [] i = refl
covered-sort_ranges (r ∷ rs) i =
    ground (arith, covered-insert_range r (sort_ranges rs) i, covered-sort_ranges rs i)

insert_range-IsSorted :
    (low limit : ℕ) (r : Range) (rs : List Range)
    → low ≤ r.start
    → r.start < r.end
    → r.end ≤ limit
    → IsSorted low limit rs
    → IsSorted low limit (insert_range r rs)
unfolding insert_range
insert_range-IsSorted low limit r [] a b c h = (a, b, c, tt)
insert_range-IsSorted low limit r (s ∷ rs) a b c (d, e, f, h) = elim (Bool-cases (range_le r s)) [
  | inl first ↦ rw first (a, b, c, (ground (arith, first), e, f, h))
  | inr later ↦
      rw later (d, e, f, insert_range-IsSorted s.start limit r rs (ground (arith, later)) b c h)
]

-- Within the text, and not empty.
abbrev IsProper : ℕ → Range → Type 0
IsProper limit r = (r.start < r.end) × (r.end ≤ limit)

sort_ranges-IsSorted :
    (limit : ℕ) (rs : List Range) → All (IsProper limit) rs → IsSorted 0 limit (sort_ranges rs)
unfolding sort_ranges
sort_ranges-IsSorted limit [] h = tt
sort_ranges-IsSorted limit (r ∷ rs) ((a, b), h) =
    insert_range-IsSorted 0 limit r (sort_ranges rs) (omega arith) a b
      (sort_ranges-IsSorted limit rs h)

IsSorted-lower :
    (low high limit : ℕ) (rs : List Range)
    → low ≤ high
    → IsSorted high limit rs
    → IsSorted low limit rs
IsSorted-lower low high limit [] a h = tt
IsSorted-lower low high limit (r ∷ rs) a (b, c, d, h) = (omega (arith, a, b), c, d, h)

merge_into-IsApart :
    (low limit : ℕ) (p : Range) (rs : List Range)
    → low ≤ p.start
    → p.start < p.end
    → p.end ≤ limit
    → IsSorted p.start limit rs
    → IsApart low limit (merge_into p rs)
unfolding merge_into IsApart
merge_into-IsApart low limit p [] a b c h = (a, b, c, tt)
merge_into-IsApart low limit p (r ∷ rs) a b c (d, e, f, h) = elim (Bool-cases (leb r.start p.end)) [
  | inl joins ↦
      let joined : Range = record { start = p.start; end = max p.end r.end } in
      rw joins (
        merge_into-IsApart low limit joined rs a (omega (arith, b)) (omega (arith, c, f))
          (IsSorted-lower p.start r.start limit rs d h))
  | inr apart ↦
      rw apart (a, b, c, merge_into-IsApart (suc p.end) limit r rs (ground (arith, apart)) e f h)
]

covered-merge_into :
    (limit : ℕ) (p : Range) (rs : List Range) (i : ℕ)
    → p.start < p.end
    → IsSorted p.start limit rs
    → covered (merge_into p rs) i ≡ (in_range i p || covered rs i)
unfolding merge_into covered
covered-merge_into limit p [] i b h = refl
covered-merge_into limit p (r ∷ rs) i b (d, e, f, h) = elim (Bool-cases (leb r.start p.end)) [
  | inl joins ↦
      let joined : Range = record { start = p.start; end = max p.end r.end } in
      rw joins (
        covered-merge_into limit joined rs i (omega (arith, b))
          (IsSorted-lower p.start r.start limit rs d h)
        ∙ ground (arith, b, d, e, joins))
  | inr apart ↦ rw apart (ap (λ c. in_range i p || c) (covered-merge_into limit r rs i e h))
]

covered-merge_ranges :
    (limit : ℕ) (rs : List Range) (i : ℕ)
    → IsSorted 0 limit rs
    → covered (merge_ranges rs) i ≡ covered rs i
unfolding merge_ranges covered
covered-merge_ranges limit [] i h = refl
covered-merge_ranges limit (r ∷ rs) i (a, b, c, h) = covered-merge_into limit r rs i b h

merge_ranges-IsApart :
    (limit : ℕ) (rs : List Range) → IsSorted 0 limit rs → IsApart 0 limit (merge_ranges rs)
unfolding merge_ranges IsApart
merge_ranges-IsApart limit [] h = tt
merge_ranges-IsApart limit (r ∷ rs) (a, b, c, h) = merge_into-IsApart 0 limit r rs a b c h

retain-IsProper :
    (bs : List ℕ) (rs : List Range) → All (IsProper (length bs)) (retain (is_kept bs) rs)
unfolding is_kept
retain-IsProper bs [] = tt
retain-IsProper bs (r ∷ rs) = elim (Bool-cases (is_kept bs r)) [
  | inl kept ↦ rw kept ((ground (arith, kept), ground (arith, kept)), retain-IsProper bs rs)
  | inr gone ↦ rw gone (retain-IsProper bs rs)
]

-- Whatever ranges the scanners record, the normalized ones are not empty, in order, apart from each
-- other by a byte at least, and within the text, and they cover exactly the positions that the
-- recorded ranges which pass the filter cover.
pub normalize_ranges-IsApart :
    (bs : List ℕ) (ranges : List Range)
    → IsApart 0 (length bs) (normalize_ranges bs ranges)
      × ((i : ℕ) → covered (normalize_ranges bs ranges) i ≡ covered (retain (is_kept bs) ranges) i)
unfolding normalize_ranges
normalize_ranges-IsApart bs ranges =
    let kept = retain (is_kept bs) ranges in
    let sorted = sort_ranges-IsSorted (length bs) kept (retain-IsProper bs ranges) in
    (
      merge_ranges-IsApart (length bs) (sort_ranges kept) sorted,
      λ i.
          covered-merge_ranges (length bs) (sort_ranges kept) i sorted ∙ covered-sort_ranges kept i,
    )
