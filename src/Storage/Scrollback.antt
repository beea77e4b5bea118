-- ===== src/Storage/Scrollback.antt =====
-- `prune_terminal_segments` of crates/maestro-storage/src/database.rs: the segments of a terminal
-- that are kept on disk.
pub mod Budget
use maestro_app.Prelude.{
  ℕ, ◌+◌, ◌≡◌, ◌≤◌, ◌<◌, refl, inl, inr, Bool, true, false, Option, none, some, List, [], ◌∷◌,
  arith, leb, leb→le, if◌then◌else◌, saturating_add, u64_max, min, Result, ok, err, ◌>>=◌, >>=_ok,
  Bool-cases, Result-cases,
}
use maestro_app.Project.Paths.{FilePath}

-- An integer that SQLite stores.
pub data SqlInteger : Type 0 where
  non_negative : ℕ → SqlInteger
  negative : ℕ → SqlInteger

pub data StorageError : Type 0 where
  invalid_limit : StorageError
  sql : StorageError

-- A row of the query, the newest first.
pub record SegmentRow : Type 0 where
  pub id : List ℕ
  pub byte_count : SqlInteger
  pub storage_path : FilePath

unfoldable pub to_u64 : SqlInteger → Result ℕ StorageError
to_u64 (non_negative n) = ok n
to_u64 (negative n) = err invalid_limit

-- The rows that are kept and those that expire, in the order of the query.
abbrev pub Pruned : Type 0
Pruned = List SegmentRow × List SegmentRow

abbrev pub keep_row : SegmentRow → Pruned → Pruned
keep_row row (kept, expired) = (row ∷ kept, expired)

abbrev pub expire_row : SegmentRow → Pruned → Pruned
expire_row row (kept, expired) = (kept, row ∷ expired)

abbrev pub with_rest : (Pruned → Pruned) → Result Pruned StorageError → Result Pruned StorageError
with_rest add (err failure) = err failure
with_rest add (ok rest) = ok (add rest)

unfoldable pub expire_rows : ℕ → ℕ → List SegmentRow → Result Pruned StorageError
expire_rows maximum_bytes retained_bytes [] = ok ([], [])
expire_rows maximum_bytes retained_bytes (row ∷ rows) = do
  byte_count ← to_u64 row.byte_count
  elim (leb (saturating_add retained_bytes byte_count) maximum_bytes) [
    | true ↦
        with_rest (keep_row row)
          (expire_rows maximum_bytes (saturating_add retained_bytes byte_count) rows)
    | false ↦ with_rest (expire_row row) (expire_rows maximum_bytes retained_bytes rows)
  ]

abbrev pub paths : List SegmentRow → List FilePath
paths [] = []
paths (row ∷ rows) = row.storage_path ∷ paths rows

abbrev pub ids : List SegmentRow → List (List ℕ)
ids [] = []
ids (row ∷ rows) = row.id ∷ ids rows

-- The database deletes rows by identifier in one transaction, or fails.
abbrev pub commit_expired : (List (List ℕ) → Bool) → Pruned → Result (List FilePath) StorageError
commit_expired delete (kept, []) = ok []
commit_expired delete (kept, row ∷ expired) =
    if delete (ids (row ∷ expired)) then ok (paths (row ∷ expired)) else err sql

unfoldable pub prune_terminal_segments :
    (List (List ℕ) → Bool) → List SegmentRow → ℕ → Result (List FilePath) StorageError
unfolding expire_rows
prune_terminal_segments delete rows maximum_bytes = do
  pruned ← expire_rows maximum_bytes 0 rows
  commit_expired delete pruned
