-- ===== src/Storage/Scrollback/Budget.antt =====
-- What is kept of the segments of a terminal (crates/maestro-storage/src/database.rs).
use maestro_app.Prelude.{
  ℕ, ◌+◌, ◌≡◌, ◌≤◌, ◌<◌, ◌⊎◌, subst, refl, inl, inr, true, false, List, [], ◌∷◌, arith, leb,
  saturating_add, u64_max, Bool, Result, ok, err, ◌>>=◌, Bool-cases, All,
}
use maestro_app.Project.Paths.{FilePath}
use maestro_app.Storage.Scrollback.{
  StorageError, sql, paths, ids, commit_expired, prune_terminal_segments, SqlInteger, non_negative,
  negative, SegmentRow, to_u64, Pruned, expire_rows,
}

abbrev pub size : SqlInteger → ℕ
size (non_negative n) = n
size (negative n) = 0

abbrev pub IsCount : SqlInteger → Type 0
IsCount (non_negative n) = Unit
IsCount (negative n) = ⊥

abbrev pub HasCount : SegmentRow → Type 0
HasCount row = IsCount row.byte_count

abbrev pub bytes : List SegmentRow → ℕ
bytes [] = 0
bytes (row ∷ rows) = size row.byte_count + bytes rows

-- The rows, the newest first, fall into two lists in their order: each is kept if it fits beside what was
-- retained and the newer ones that are kept, and expires if it does not.
pub data NewestFirst (maximum : ℕ)
    : ℕ → List SegmentRow → List SegmentRow → List SegmentRow → Type 0 where
  done : {retained : ℕ} → NewestFirst maximum retained [] [] []
  keeps :
      (row : SegmentRow) {retained : ℕ} {rows kept expired : List SegmentRow}
      → retained + size row.byte_count ≤ maximum
      → NewestFirst maximum (retained + size row.byte_count) rows kept expired
      → NewestFirst maximum retained (row ∷ rows) (row ∷ kept) expired
  expires :
      (row : SegmentRow) {retained : ℕ} {rows kept expired : List SegmentRow}
      → maximum < retained + size row.byte_count
      → NewestFirst maximum retained rows kept expired
      → NewestFirst maximum retained (row ∷ rows) kept (row ∷ expired)

-- The rows fall into those that are kept, which fit beside what was retained, and those that expire, none
-- of which would fit as well.
abbrev pub IsBudget : ℕ → ℕ → List SegmentRow → Pruned → Type 0
IsBudget maximum retained rows (kept, expired) =
    NewestFirst maximum retained rows kept expired
    × (retained + bytes kept ≤ maximum)
    × All (λ row. maximum < retained + bytes kept + size row.byte_count) expired

abbrev pub Pruning : ℕ → ℕ → List SegmentRow → Type 0
Pruning maximum retained rows =
    (pruned : Pruned) × (expire_rows maximum retained rows ≡ ok pruned)
    × IsBudget maximum retained rows pruned

count_of :
    (row : SegmentRow)
    → HasCount row
    → (n : ℕ) × (to_u64 row.byte_count ≡ ok n) × (size row.byte_count ≡ n)
unfolding to_u64
count_of row h = read row.byte_count h
  where
    read : (i : SqlInteger) → IsCount i → (n : ℕ) × (to_u64 i ≡ ok n) × (size i ≡ n)
    read (non_negative n) h = (n, refl, refl)
    read (negative n) h = absurd h

-- One round of the loop, which keeps the row or lets it expire.
round_kept :
    (maximum retained n : ℕ) (row : SegmentRow) (rows kept expired : List SegmentRow)
    → to_u64 row.byte_count ≡ ok n
    → leb (saturating_add retained n) maximum ≡ true
    → expire_rows maximum (saturating_add retained n) rows ≡ ok (kept, expired)
    → expire_rows maximum retained (row ∷ rows) ≡ ok (row ∷ kept, expired)
unfolding expire_rows
round_kept maximum retained n row rows kept expired c f e = rw (c, ◌>>=◌, f, e) refl

round_expired :
    (maximum retained n : ℕ) (row : SegmentRow) (rows kept expired : List SegmentRow)
    → to_u64 row.byte_count ≡ ok n
    → leb (saturating_add retained n) maximum ≡ false
    → expire_rows maximum retained rows ≡ ok (kept, expired)
    → expire_rows maximum retained (row ∷ rows) ≡ ok (kept, row ∷ expired)
unfolding expire_rows
round_expired maximum retained n row rows kept expired c f e = rw (c, ◌>>=◌, f, e) refl

-- Room that is left is left as well when it is counted in another way.
All-room :
    (maximum a b : ℕ) (rows : List SegmentRow)
    → a ≡ b
    → All (λ row. maximum < a + size row.byte_count) rows
    → All (λ row. maximum < b + size row.byte_count) rows
All-room maximum a b rows e h = rw (← e) h

-- When the sizes that the database stores are not negative and the limit is below 2^64 - 1, the loop
-- succeeds: the rows fall into those that are kept, which stay within the limit together with what was retained
-- before, and those that expire, none of which would fit beside all that is kept.
expire_rows-IsBudget :
    (maximum retained : ℕ) (rows : List SegmentRow)
    → maximum < u64_max
    → retained ≤ maximum
    → All HasCount rows
    → Pruning maximum retained rows
unfolding expire_rows
expire_rows-IsBudget maximum retained [] m r h = (([], []), refl, (done, omega (arith, r), tt))
expire_rows-IsBudget maximum retained (row ∷ rows) m r h =
    let (n, count, sized) = count_of row h.0 in
    elim (Bool-cases (leb (saturating_add retained n) maximum)) [
      | inl fits ↦
          let step : saturating_add retained n ≡ retained + n = ground (arith, m, fits) in
          let fits_now : retained + n ≤ maximum = ground (arith, step, fits) in
          let ((kept, expired), e, (parts, small, over)) =
            expire_rows-IsBudget maximum (saturating_add retained n) rows m (ground (arith, fits))
              h.1 in
          (
            (row ∷ kept, expired),
            round_kept maximum retained n row rows kept expired count fits e,
            (
              keeps row (omega (arith, fits_now, sized)) (
                  subst (λ r. NewestFirst maximum r rows kept expired) (omega (arith, step, sized))
                    parts),
              omega (arith, small, step, sized),
              All-room maximum (saturating_add retained n + bytes kept)
                  (retained + bytes (row ∷ kept)) expired (omega (arith, step, sized)) over,
            ),
          )
      | inr large ↦
          let over_now : maximum < retained + size row.byte_count =
            omega (arith, too_large maximum retained n 0 (size row.byte_count) sized large) in
          let ((kept, expired), e, (parts, small, over)) =
            expire_rows-IsBudget maximum retained rows m r h.1 in
          (
            (kept, row ∷ expired),
            round_expired maximum retained n row rows kept expired count large e,
            (
              expires row over_now parts,
              small,
              (too_large maximum retained n (bytes kept) (size row.byte_count) sized large, over),
            ),
          )
    ]
  where
    too_large :
        (maximum retained n kept sized : ℕ)
        → sized ≡ n
        → leb (saturating_add retained n) maximum ≡ false
        → maximum < retained + kept + sized
    too_large maximum retained n kept sized e h = ground arith

-- What the caller is told of the rows that expire: their paths, once the database has deleted them and
-- no other, or that it failed.
abbrev pub Told :
    (List (List ℕ) → Bool) → List SegmentRow → Result (List FilePath) StorageError → Type 0
Told delete expired told =
    (told ≡ ok (paths expired)) × ((expired ≡ []) ⊎ (delete (ids expired) ≡ true))
    ⊎ (told ≡ err sql) × (delete (ids expired) ≡ false)

commit_expired-Told :
    (delete : List (List ℕ) → Bool) (kept expired : List SegmentRow)
    → Told delete expired (commit_expired delete (kept, expired))
commit_expired-Told delete kept [] = inl (refl, inl refl)
commit_expired-Told delete kept (row ∷ expired) = elim (Bool-cases (delete (ids (row ∷ expired)))) [
  | inl deleted ↦ rw deleted (inl (refl, inr refl))
  | inr failed ↦ rw failed (inr (refl, refl))
]

-- When the sizes that the database stores are not negative and the limit is below 2^64 - 1: going from
-- the newest segment to the oldest, one is kept if it fits beside the newer ones that are kept, also
-- after one that did not; those kept stay within the limit, and none of the others would fit beside
-- all of them; and exactly the others are deleted, their
-- paths returned, or the database's failure.
pub prune_terminal_segments-Told :
    (delete : List (List ℕ) → Bool) (rows : List SegmentRow) (maximum : ℕ)
    → maximum < u64_max
    → All HasCount rows
    → (kept expired : List SegmentRow) × NewestFirst maximum 0 rows kept expired
      × (bytes kept ≤ maximum)
      × All (λ row. maximum < bytes kept + size row.byte_count) expired
      × Told delete expired (prune_terminal_segments delete rows maximum)
unfolding prune_terminal_segments
prune_terminal_segments-Told delete rows maximum m h =
    let ((kept, expired), e, (parts, small, over)) =
      expire_rows-IsBudget maximum 0 rows m (omega arith) h in
    (
      kept,
      expired,
      parts,
      omega (arith, small),
      All-room maximum (0 + bytes kept) (bytes kept) expired (omega arith) over,
      rw (e, ◌>>=◌) (commit_expired-Told delete kept expired),
    )
