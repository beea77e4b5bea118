-- ===== src/Storage/Retention/Quota.antt =====
-- The limit on the bytes of one owner (crates/maestro-storage/src/retention.rs).
use maestro_app.Prelude.{
  ℕ, ◌+◌, ◌-◌, ◌≡◌, ◌≤◌, ◌<◌, refl, ap, inl, inr, true, List, [], ◌∷◌, ◌++◌, arith, leb, Bool-cases,
  u64_max, saturating_add, sort_by_key, sort_by_key-Pairwise, Pairwise, lex_before, list_order,
  nat_order, insert_sorted, ◌∙◌,
}
use maestro_app.Storage.Retention.{RetentionRecord, total_bytes, over_quota, select_owner, age_key}

-- The bytes of records, without a bound.
abbrev pub bytes : List RetentionRecord → ℕ
bytes [] = 0
bytes (r ∷ records) = r.byte_count + bytes records

-- Without each selected record from some one on, the rest were still too many.
abbrev pub IsNeeded : ℕ → List RetentionRecord → List RetentionRecord → Type 0
IsNeeded maximum [] kept = Unit
IsNeeded maximum (r ∷ selected) kept =
    (maximum < bytes (r ∷ selected ++ kept)) × IsNeeded maximum selected kept

-- The selected records come first, the rest fit, and no selected one could stay.
abbrev pub IsCut : ℕ → List RetentionRecord → List RetentionRecord → Type 0
IsCut maximum records selected =
    (kept : List RetentionRecord) × (records ≡ selected ++ kept)
    × (bytes kept ≤ maximum)
    × IsNeeded maximum selected kept

total_bytes_lem :
    (records : List RetentionRecord) (sum : ℕ)
    → sum + bytes records ≤ u64_max
    → total_bytes records sum ≡ sum + bytes records
total_bytes_lem [] sum h = omega arith
total_bytes_lem (r ∷ records) sum h =
    let step : saturating_add sum r.byte_count ≡ sum + r.byte_count = omega arith in
    rw step (omega (arith, total_bytes_lem records (sum + r.byte_count) (omega arith)))

over_quota-IsCut :
    (maximum total : ℕ) (records : List RetentionRecord)
    → total ≡ bytes records
    → IsCut maximum records (over_quota maximum total records)
unfolding over_quota
over_quota-IsCut maximum total [] e = ([], refl, omega arith, tt)
over_quota-IsCut maximum total (r ∷ records) e = elim (Bool-cases (leb total maximum)) [
  | inl fits ↦ rw fits (r ∷ records, refl, ground (arith, e, fits), tt)
  | inr over ↦
      let (kept, split, small, needed) =
        over_quota-IsCut maximum (total - r.byte_count) records (omega (arith, e)) in
      let more : maximum < bytes (r ∷ records) = ground (arith, e, over) in
      rw over (kept, ap (◌∷◌ r) split, small, (rw (← split) more, needed))
]

bytes-insert_sorted :
    (r : RetentionRecord) (records : List RetentionRecord)
    → bytes (insert_sorted age_key r records) ≡ r.byte_count + bytes records
unfolding insert_sorted
bytes-insert_sorted r [] = refl
bytes-insert_sorted r (s ∷ records) = ground (arith, bytes-insert_sorted r records)

bytes-sort_by_key :
    (records : List RetentionRecord) → bytes (sort_by_key age_key records) ≡ bytes records
unfolding sort_by_key
bytes-sort_by_key [] = refl
bytes-sort_by_key (r ∷ records) =
    bytes-insert_sorted r (sort_by_key age_key records)
    ∙ ap (λ n. r.byte_count + n) (bytes-sort_by_key records)

-- When the bytes of an owner's records can be counted in 64 bits, those selected are the oldest, in
-- order of age; the rest hold at most the limit; and each of those selected had to go, since it and the
-- ones younger than it were over the limit.
pub select_owner-IsCut :
    (maximum : ℕ) (owned : List RetentionRecord)
    → bytes owned ≤ u64_max
    → Pairwise (λ x y. lex_before (age_key x) (age_key y) ≡ true) (sort_by_key age_key owned)
      × (bytes (sort_by_key age_key owned) ≡ bytes owned)
      × IsCut maximum (sort_by_key age_key owned) (select_owner maximum owned)
unfolding select_owner
select_owner-IsCut maximum owned h =
    let sorted = sort_by_key age_key owned in
    let same : bytes (sort_by_key age_key owned) ≡ bytes owned = bytes-sort_by_key owned in
    let counted : total_bytes (sort_by_key age_key owned) 0 ≡ bytes (sort_by_key age_key owned) =
      omega (arith, total_bytes_lem sorted 0 (omega (arith, same, h))) in
    (
      sort_by_key-Pairwise age_key owned,
      same,
      over_quota-IsCut maximum (total_bytes sorted 0) sorted counted,
    )
