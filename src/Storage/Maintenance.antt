-- ===== src/Storage/Maintenance.antt =====
-- `maintain`, `validate_released_path` and `remove_released_files` of
-- crates/maestrod/src/storage_runtime.rs: the removal of segments that are not retained.
pub mod Safety
pub mod Termination
use maestro_app.Prelude.{
  ℕ, zero, suc, ◌≤◌, Bool, true, false, not, ◌||◌, Option, none, some, List, [], ◌∷◌, ◌++◌, any,
  if◌then◌else◌, Result, ok, err, ◌>>=◌, length, ◌==◌,
}
use maestro_app.Project.Paths.{
  PathComponent, root_dir, cur_dir, parent_dir, normal, FilePath, is_absolute, parent, path_eq,
}
use maestro_app.Storage.Retention.{
  RetentionRecord, RetentionPlan, RetentionPolicies, default_policies, from_records,
}
use maestro_app.Storage.Batches.{
  RetentionError, Connection, RetentionBatch, max_retention_batch, execute_retention_batch,
}

pub data StorageRuntimeError : Type 0 where
  unavailable : StorageRuntimeError
  key : StorageRuntimeError
  storage : StorageRuntimeError
  session : StorageRuntimeError
  backup : StorageRuntimeError
  retention : RetentionError → StorageRuntimeError
  io : StorageRuntimeError
  unsafe_retention_path : FilePath → StorageRuntimeError
  segment_encryption : StorageRuntimeError

pub data FileKind : Type 0 where
  file_or_symlink : FileKind
  something_else : FileKind
  not_found : FileKind
  unreadable : FileKind

-- What the file system answers; `symlink_metadata` knows what was removed before.
pub record SegmentFiles : Type 0 where
  pub canonicalize : FilePath → Option FilePath
  pub symlink_metadata : List FilePath → FilePath → FileKind
  pub remove_file : FilePath → Bool

-- `Path::file_name`: the last component, if it is a name.
unfoldable pub has_file_name : FilePath → Bool
has_file_name [] = false
has_file_name (normal name ∷ []) = true
has_file_name (component ∷ []) = false
has_file_name (component ∷ next ∷ rest) = has_file_name (next ∷ rest)

abbrev pub canonical_parent : SegmentFiles → FilePath → Option FilePath
unfolding parent
canonical_parent files path = elim (parent path) [
  | none ↦ none
  | some above ↦ files.canonicalize above
]

abbrev pub in_roots : Option FilePath → List FilePath → Bool
unfolding path_eq
in_roots none allowed_roots = false
in_roots (some found) allowed_roots = any (path_eq found) allowed_roots

abbrev pub unless_safe : Bool → FilePath → Result (Unit {0}) StorageRuntimeError
unless_safe true path = ok tt
unless_safe false path = err (unsafe_retention_path path)

unfoldable pub validate_released_path :
    SegmentFiles → FilePath → List FilePath → Result (Unit {0}) StorageRuntimeError
unfolding is_absolute has_file_name canonical_parent in_roots
validate_released_path files path allowed_roots =
    if not (is_absolute path) || not (has_file_name path)
    then err (unsafe_retention_path path)
    else unless_safe (in_roots (canonical_parent files path) allowed_roots) path

unfoldable pub validate_retention_candidates :
    SegmentFiles → List RetentionRecord → List FilePath → Result (Unit {0}) StorageRuntimeError
unfolding validate_released_path
validate_retention_candidates files [] allowed_roots = ok tt
validate_retention_candidates files (candidate ∷ candidates) allowed_roots = do
  checked ← validate_released_path files candidate.storage_path allowed_roots
  validate_retention_candidates files candidates allowed_roots

-- The files removed so far, and how it went.
abbrev pub Removal : Type 0
Removal = List FilePath × Result (Unit {0}) StorageRuntimeError

unfoldable pub remove_one : SegmentFiles → List FilePath → FilePath → FileKind → Removal
remove_one files removed path file_or_symlink =
    if files.remove_file path then (removed ++ path ∷ [], ok tt) else (removed, err io)
remove_one files removed path something_else = (removed, err (unsafe_retention_path path))
remove_one files removed path not_found = (removed, ok tt)
remove_one files removed path unreadable = (removed, err io)

abbrev pub remove_checked :
    SegmentFiles → List FilePath → FilePath → Result (Unit {0}) StorageRuntimeError → Removal
unfolding remove_one
remove_checked files removed path (err failure) = (removed, err failure)
remove_checked files removed path (ok checked) =
    remove_one files removed path (files.symlink_metadata removed path)

unfoldable pub remove_released_files :
    SegmentFiles → List FilePath → List FilePath → List FilePath → Removal
unfolding remove_checked validate_released_path
remove_released_files files allowed_roots removed [] = (removed, ok tt)
remove_released_files files allowed_roots removed (path ∷ paths) =
    let first =
      remove_checked files removed path (validate_released_path files path allowed_roots) in
    elim first.1 [
      | err failure ↦ (first.0, err failure)
      | ok done ↦ remove_released_files files allowed_roots first.0 paths
    ]

module _ {ℓ} {Rows : Type ℓ} (connection : Connection Rows) (files : SegmentFiles) where
  -- What the loop has changed, and how it ended: none when the fuel did not suffice.
  pub record Drained : Type ℓ where
    pub rows : Rows
    pub plan : RetentionPlan
    pub removed : List FilePath
    pub outcome : Option (Result (Unit {0}) StorageRuntimeError)

  abbrev pub stopped :
      Rows
      → RetentionPlan
      → List FilePath
      → Option (Result (Unit {0}) StorageRuntimeError)
      → Drained
  stopped rows plan removed outcome = record {
    rows = rows;
    plan = plan;
    removed = removed;
    outcome = outcome;
  }

  -- `while !plan.is_empty()`.
  unfoldable pub drain_plan : ℕ → List FilePath → Rows → RetentionPlan → List FilePath → Drained
  unfolding execute_retention_batch remove_released_files
  drain_plan zero allowed_roots rows plan removed =
      stopped rows plan removed (if length plan.candidates == 0 then some (ok tt) else none)
  drain_plan (suc less) allowed_roots rows plan removed = elim (length plan.candidates == 0) [
    | true ↦ stopped rows plan removed (some (ok tt))
    | false ↦ elim (execute_retention_batch connection rows plan max_retention_batch) [
      | err failure ↦ stopped rows plan removed (some (err (retention failure)))
      | ok (later, left, batch) ↦
          let files_removed =
            remove_released_files files allowed_roots removed batch.released_storage_paths in
          elim files_removed.1 [
            | err failure ↦ stopped later left files_removed.0 (some (err failure))
            | ok done ↦ drain_plan less allowed_roots later left files_removed.0
          ]
    ]
  ]

  -- Storage that is ready, with or without a key, or not ready.
  pub data StorageState : Type ℓ where
    ready : Rows → (has_key : Bool) → StorageState
    passphrase_required : StorageState
    not_available : StorageState

  -- The daily snapshot, the directories of the segments and the records that the database holds.
  pub record Surroundings : Type ℓ where
    pub create_daily_snapshot : Result (Unit {0}) StorageRuntimeError
    pub prepare_retention_roots : Result (List FilePath) StorageRuntimeError
    pub load_records : Rows → Result (List RetentionRecord) RetentionError
    pub now : ℕ

  abbrev pub with_raw_capture : RetentionPolicies → RetentionPolicies
  with_raw_capture policies = record policies {
    raw_protocol_policy = record policies.raw_protocol_policy { enabled = true };
  }

  abbrev pub as_retention :
      Result (List RetentionRecord) RetentionError
      → Result (List RetentionRecord) StorageRuntimeError
  as_retention (err failure) = err (retention failure)
  as_retention (ok records) = ok records

  -- What is decided before the loop: the directories and the plan.
  unfoldable pub plan_maintenance :
      Surroundings → Rows → Result (List FilePath × RetentionPlan) StorageRuntimeError
  unfolding from_records validate_retention_candidates
  plan_maintenance around rows = do
    snapshot ← around.create_daily_snapshot
    allowed_roots ← around.prepare_retention_roots
    records ← as_retention (around.load_records rows)
    let plan = from_records records (with_raw_capture default_policies) around.now
    checked ← validate_retention_candidates files plan.candidates allowed_roots
    ok (allowed_roots, plan)

  abbrev pub no_plan : RetentionPlan
  no_plan = record { candidates = [] }

  -- `maintain` of storage that is ready and has its key, with fuel for every candidate.
  unfoldable pub maintain_ready : Surroundings → Rows → Drained
  unfolding plan_maintenance drain_plan
  maintain_ready around rows = elim (plan_maintenance around rows) [
    | err failure ↦ stopped rows no_plan [] (some (err failure))
    | ok (allowed_roots, plan) ↦ drain_plan (length plan.candidates) allowed_roots rows plan []
  ]

  unfoldable pub maintain : Surroundings → StorageState → Option Drained
  unfolding maintain_ready
  maintain around (ready rows true) = some (maintain_ready around rows)
  maintain around state = none
