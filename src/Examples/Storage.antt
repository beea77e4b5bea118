-- ===== src/Examples/Storage.antt =====
-- Retention and maintenance (crates/maestro-storage/src/retention.rs, database.rs and
-- crates/maestrod/src/storage_runtime.rs) at concrete records.
use maestro_app.Prelude.{
  ℕ, ◌≡◌, ◌≤◌, ◌<◌, ◌+◌, refl, String, arith, true, some, List, [], ◌∷◌, Result, ok, All, Pairwise,
  codes, sort_by_key, lex_before, lex_same, nat_order, list_order,
}
use maestro_app.Project.Paths.{root_dir, normal, FilePath}
use maestro_app.Storage.Retention.{RetentionRecord, terminal, age_key, select_owner}
use maestro_app.Storage.Retention.Quota
use maestro_app.Storage.Retention.Quota.{IsCut, select_owner-IsCut}
use maestro_app.Storage.Batches.{Connection}
use maestro_app.Storage.Maintenance.{
  StorageRuntimeError, SegmentFiles, file_or_symlink, Surroundings, maintain_ready,
}
use maestro_app.Storage.Maintenance.Termination.{maintain_ready-IsEnded}
use maestro_app.Storage.Maintenance.Safety.{IsOwned, maintain_ready-IsOwned}
use maestro_app.Storage.Scrollback.{SegmentRow, non_negative, to_u64, prune_terminal_segments}
use maestro_app.Storage.Scrollback.Budget.{
  size, bytes, NewestFirst, Told, prune_terminal_segments-Told,
}

abbrev segments : FilePath
segments = root_dir ∷ normal (codes "segments") ∷ []

abbrev segment : String → ℕ → ℕ → RetentionRecord
segment name created_at byte_count = record {
  id = codes name;
  category = terminal;
  owner_id = codes "tab";
  created_at = created_at;
  byte_count = byte_count;
  storage_path = root_dir ∷ normal (codes "segments") ∷ normal (codes name) ∷ [];
}

abbrev newer : RetentionRecord
newer = segment "newer" 9 6

abbrev older : RetentionRecord
older = segment "older" 4 5

abbrev owned : List RetentionRecord
owned = newer ∷ older ∷ []

oldest_selected : select_owner 10 owned ≡ older ∷ []
unfolding select_owner lex_same lex_before
oldest_selected = refl

select_owner-IsCut_example :
    Pairwise (λ x y. lex_before (age_key x) (age_key y) ≡ true) (sort_by_key age_key owned)
    × (Quota.bytes (sort_by_key age_key owned) ≡ Quota.bytes owned)
    × IsCut 10 (sort_by_key age_key owned) (select_owner 10 owned)
select_owner-IsCut_example = select_owner-IsCut 10 owned (omega arith)

-- Rows are the identifiers that are left; every deletion affects one.
abbrev connection : Connection (List (List ℕ))
connection = record {
  delete = λ rows category id. some (rows, 1);
  clear_references = λ rows path. some rows;
  commit = some;
}

abbrev files : SegmentFiles
files = record {
  canonicalize = some;
  symlink_metadata = λ removed path. file_or_symlink;
  remove_file = λ path. true;
}

-- A segment of a terminal that takes more than the 10 MiB allowed.
abbrev large : RetentionRecord
large = segment "large" 4 20_000_000

abbrev around : Surroundings connection files
around = record {
  create_daily_snapshot = ok tt;
  prepare_retention_roots = ok (segments ∷ []);
  load_records = λ rows. ok (large ∷ []);
  now = 100;
}

large_removed : (maintain_ready connection files around []).removed ≡ large.storage_path ∷ []
unfolding maintain_ready lex_same lex_before
large_removed = refl

maintain_ready-IsEnded_example :
    (outcome : Result (Unit {0}) StorageRuntimeError) × ((maintain_ready connection files around
        []).outcome
      ≡ some outcome)
maintain_ready-IsEnded_example = maintain_ready-IsEnded connection files around []

maintain_ready-IsOwned_example :
    All (IsOwned files (segments ∷ [])) (maintain_ready connection files around []).removed
maintain_ready-IsOwned_example =
    maintain_ready-IsOwned connection files around [] (segments ∷ []) refl

abbrev row : String → ℕ → SegmentRow
row name count = record {
  id = codes name;
  byte_count = non_negative count;
  storage_path = root_dir ∷ normal (codes name) ∷ [];
}

-- The newest first: the second does not fit, the third, which is older, does.
abbrev rows : List SegmentRow
rows = row "c" 6 ∷ row "b" 6 ∷ row "a" 3 ∷ []

older_kept : prune_terminal_segments (λ ids. true) rows 10 ≡ ok ((row "b" 6).storage_path ∷ [])
unfolding prune_terminal_segments to_u64
older_kept = refl

prune_terminal_segments-Told_example :
    (kept expired : List SegmentRow) × NewestFirst 10 0 rows kept expired
    × (bytes kept ≤ 10)
    × All (λ row. 10 < bytes kept + size row.byte_count) expired
    × Told (λ ids. true) expired (prune_terminal_segments (λ ids. true) rows 10)
prune_terminal_segments-Told_example =
    prune_terminal_segments-Told (λ ids. true) rows 10 (omega arith) (tt, (tt, (tt, tt)))
