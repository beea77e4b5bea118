-- ===== src/Storage/Batches.antt =====
-- `execute_retention_batch` of crates/maestro-storage/src/retention.rs. The database is a parameter.
pub mod Progress
use maestro_app.Prelude.{
  ℕ, ◌+◌, min, Bool, true, false, Option, none, some, List, [], ◌∷◌, ◌++◌, ltb, ◌==◌, if◌then◌else◌,
  length, take, drop, Result, ok, err, ◌>>=◌,
}
use maestro_app.Project.Paths.{FilePath}
use maestro_app.Storage.Retention.{
  RetentionCategory, terminal, raw_protocol, debug_log, RetentionRecord, RetentionPlan,
}

abbrev pub max_retention_batch : ℕ
max_retention_batch = 256

pub data RetentionError : Type 0 where
  zero_batch_size : RetentionError
  sql : RetentionError

-- The encrypted database: what its rows are is its own. A statement or the commit may fail.
pub record Connection {ℓ} (Rows : Type ℓ) : Type ℓ where
  -- The rows that are left, and how many the deletion by identifier affected.
  pub delete : Rows → RetentionCategory → List ℕ → Option (Rows × ℕ)
  pub clear_references : Rows → FilePath → Option Rows
  pub commit : Rows → Option Rows

pub record RetentionBatch : Type 0 where
  pub metadata_rows_deleted : ℕ
  pub released_storage_paths : List FilePath
  pub remaining_candidates : ℕ

module _ {ℓ} {A : Type ℓ} where
  abbrev pub sql_result : Option A → Result A RetentionError
  sql_result none = err sql
  sql_result (some value) = ok value

module _ {ℓ} {Rows : Type ℓ} (connection : Connection Rows) where
  -- The rows, the count and the paths while a batch is carried out.
  abbrev pub Progress : Type ℓ
  Progress = Rows × ℕ × List FilePath

  -- Events that refer to a raw segment that is gone lose the reference.
  unfoldable pub forget_references :
      RetentionCategory → ℕ → FilePath → Rows → Result Rows RetentionError
  forget_references raw_protocol affected path rows =
      if ltb 0 affected then sql_result (connection.clear_references rows path) else ok rows
  forget_references category affected path rows = ok rows

  abbrev pub released : ℕ → FilePath → ℕ → List FilePath → ℕ × List FilePath
  released affected path deleted paths =
      if ltb 0 affected then (deleted + affected, paths ++ path ∷ []) else (deleted, paths)

  unfoldable pub delete_candidate : Progress → RetentionRecord → Result Progress RetentionError
  unfolding forget_references
  delete_candidate (rows, deleted, paths) candidate = do
    outcome ← sql_result (connection.delete rows candidate.category candidate.id)
    left ← forget_references candidate.category outcome.1 candidate.storage_path outcome.0
    let done = released outcome.1 candidate.storage_path deleted paths
    ok (left, done.0, done.1)

  unfoldable pub delete_candidates :
      Progress → List RetentionRecord → Result Progress RetentionError
  unfolding delete_candidate
  delete_candidates progress [] = ok progress
  delete_candidates progress (candidate ∷ candidates) = do
    next ← delete_candidate progress candidate
    delete_candidates next candidates

  -- The rows, the plan and the batch after it; on an error, the database and the plan are as they
  -- were.
  unfoldable pub execute_batch :
      Rows → RetentionPlan → ℕ → Result (Rows × RetentionPlan × RetentionBatch) RetentionError
  unfolding delete_candidates
  execute_batch rows plan batch_size =
      if batch_size == 0
      then ok (
        rows,
        plan,
        record { metadata_rows_deleted = 0; released_storage_paths = []; remaining_candidates = 0 },
      )
      else do
        progress ← delete_candidates (rows, 0, []) (take batch_size plan.candidates)
        committed ← sql_result (connection.commit progress.0)
        ok (
          committed,
          record { candidates = drop batch_size plan.candidates },
          record {
            metadata_rows_deleted = progress.1;
            released_storage_paths = progress.2;
            remaining_candidates = length (drop batch_size plan.candidates);
          },
        )

  unfoldable pub execute_retention_batch :
      Rows → RetentionPlan → ℕ → Result (Rows × RetentionPlan × RetentionBatch) RetentionError
  unfolding execute_batch
  execute_retention_batch rows plan requested_limit =
      if requested_limit == 0
      then err zero_batch_size
      else execute_batch rows plan
          (min (min requested_limit max_retention_batch) (length plan.candidates))
