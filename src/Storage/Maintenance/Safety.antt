-- ===== src/Storage/Maintenance/Safety.antt =====
-- Which files maintenance removes (crates/maestrod/src/storage_runtime.rs).
use maestro_app.Prelude.{
  ℕ, zero, suc, ◌≡◌, inl, inr, true, List, [], ◌∷◌, arith, ◌==◌, length, ok, All, All-append,
  Bool-cases, Result-cases, >>=_ok,
}
use maestro_app.Project.Paths.{FilePath, is_absolute}
use maestro_app.Storage.Retention.{RetentionPlan, default_policies, from_records}
use maestro_app.Storage.Batches.{Connection, max_retention_batch, execute_retention_batch}
use maestro_app.Storage.Maintenance.{
  FileKind, file_or_symlink, something_else, not_found, unreadable, SegmentFiles, has_file_name,
  canonical_parent, in_roots, validate_released_path, remove_one, remove_checked,
  remove_released_files, drain_plan, Surroundings, plan_maintenance, maintain_ready, as_retention,
  validate_retention_candidates, with_raw_capture,
}

-- A file with a name, whose directory is one of those that hold segments.
abbrev pub IsOwned : SegmentFiles → List FilePath → FilePath → Type 0
IsOwned files allowed_roots path =
    (is_absolute path ≡ true)
    × (has_file_name path ≡ true)
    × (in_roots (canonical_parent files path) allowed_roots ≡ true)

validate_released_path-IsOwned :
    (files : SegmentFiles) (path : FilePath) (allowed_roots : List FilePath)
    → validate_released_path files path allowed_roots ≡ ok tt
    → IsOwned files allowed_roots path
unfolding validate_released_path
validate_released_path-IsOwned files path allowed_roots e = elim (Bool-cases (is_absolute path)) [
  | inr a ↦ absurd (ground (arith, a))
  | inl a ↦ elim (Bool-cases (has_file_name path)) [
    | inr n ↦ absurd (ground (arith, a, n))
    | inl n ↦ elim (Bool-cases (in_roots (canonical_parent files path) allowed_roots)) [
      | inl i ↦ (a, n, i)
      | inr i ↦ absurd (ground (arith, a, n, i))
    ]
  ]
]

module _ (files : SegmentFiles) (allowed_roots : List FilePath) where
  abbrev AllOwned : List FilePath → Type 0
  AllOwned removed = All (IsOwned files allowed_roots) removed

  remove_one-AllOwned :
      (removed : List FilePath) (path : FilePath) (kind : FileKind)
      → AllOwned removed
      → IsOwned files allowed_roots path
      → AllOwned (remove_one files removed path kind).0
  unfolding remove_one
  remove_one-AllOwned removed path file_or_symlink h p =
      elim (Bool-cases (files.remove_file path)) [
        | inl done ↦
            rw done (All-append (IsOwned files allowed_roots) removed (path ∷ []) h (p, tt))
        | inr failed ↦ rw failed h
      ]
  remove_one-AllOwned removed path something_else h p = h
  remove_one-AllOwned removed path not_found h p = h
  remove_one-AllOwned removed path unreadable h p = h

  remove_checked-AllOwned :
      (removed : List FilePath) (path : FilePath)
      → AllOwned removed
      → AllOwned
          (remove_checked files removed path (validate_released_path files path allowed_roots)).0
  unfolding remove_checked
  remove_checked-AllOwned removed path h =
      elim (Result-cases (validate_released_path files path allowed_roots)) [
        | inr (failure, e) ↦ rw e h
        | inl (checked, e) ↦ rw e (
            remove_one-AllOwned removed path (files.symlink_metadata removed path) h
              (validate_released_path-IsOwned files path allowed_roots e))
      ]

  remove_released_files-AllOwned :
      (removed paths : List FilePath)
      → AllOwned removed
      → AllOwned (remove_released_files files allowed_roots removed paths).0
  unfolding remove_released_files
  remove_released_files-AllOwned removed [] h = h
  remove_released_files-AllOwned removed (path ∷ paths) h =
      let first =
        remove_checked files removed path (validate_released_path files path allowed_roots) in
      let here = remove_checked-AllOwned removed path h in
      elim (Result-cases first.1) [
        | inr (failure, e) ↦ rw (e, remove_released_files) here
        | inl (done, e) ↦
            rw (e, remove_released_files) (remove_released_files-AllOwned first.0 paths here)
      ]

  module _ {ℓ} {Rows : Type ℓ} (connection : Connection Rows) where
    drain_plan-AllOwned :
        (fuel : ℕ) (rows : Rows) (plan : RetentionPlan) (removed : List FilePath)
        → AllOwned removed
        → AllOwned (drain_plan connection files fuel allowed_roots rows plan removed).removed
    unfolding drain_plan
    drain_plan-AllOwned zero rows plan removed h = h
    drain_plan-AllOwned (suc less) rows plan removed h =
        elim (Bool-cases (length plan.candidates == 0)) [
          | inl empty ↦ rw (empty, drain_plan) h
          | inr more ↦
              elim (Result-cases
                (execute_retention_batch connection rows plan max_retention_batch)) [
                  | inr (failure, e) ↦ rw (more, e, drain_plan) h
                  | inl ((later, left, batch), e) ↦
                      let gone =
                        remove_released_files files allowed_roots removed
                          batch.released_storage_paths in
                      let here =
                        remove_released_files-AllOwned removed batch.released_storage_paths h in
                      elim (Result-cases gone.1) [
                        | inr (failure, r) ↦ rw (more, e, r, drain_plan) here
                        | inl (done, r) ↦
                            rw (more, e, r, drain_plan)
                              (drain_plan-AllOwned less later left gone.0 here)
                      ]
                ]
        ]

module _ {ℓ} {Rows : Type ℓ} (connection : Connection Rows) (files : SegmentFiles) where
  -- The directories of a plan are those that were prepared.
  planned_roots :
      (around : Surroundings connection files) (rows : Rows) (allowed_roots roots : List FilePath)
      (plan : RetentionPlan)
      → around.prepare_retention_roots ≡ ok allowed_roots
      → plan_maintenance connection files around rows ≡ ok (roots, plan)
      → roots ≡ allowed_roots
  unfolding plan_maintenance
  planned_roots around rows allowed_roots roots plan prepared e =
      let (snapshot, s, e1) = >>=_ok around.create_daily_snapshot _ e in
      let (found, p, e2) = >>=_ok around.prepare_retention_roots _ e1 in
      let (records, r, e3) =
        >>=_ok (as_retention connection files (around.load_records rows)) _ e2 in
      let (checked, v, last) =
        >>=_ok
          (validate_retention_candidates files
            (from_records records (with_raw_capture connection files default_policies)
              around.now).candidates
            found)
          _ e3 in
      ground (arith, p, prepared, last)

  -- Whatever the database releases, and however maintenance ends, every file that it has removed is
  -- an absolute path with a name, whose canonical directory is one of the directories that were
  -- prepared for segments.
  pub maintain_ready-IsOwned :
      (around : Surroundings connection files) (rows : Rows) (allowed_roots : List FilePath)
      → around.prepare_retention_roots ≡ ok allowed_roots
      → All (IsOwned files allowed_roots) (maintain_ready connection files around rows).removed
  unfolding maintain_ready
  maintain_ready-IsOwned around rows allowed_roots prepared =
      elim (Result-cases (plan_maintenance connection files around rows)) [
        | inr (failure, e) ↦ rw (e, maintain_ready) tt
        | inl ((roots, plan), e) ↦
            let same = planned_roots around rows allowed_roots roots plan prepared e in
            rw (e, maintain_ready, same)
              (drain_plan-AllOwned files allowed_roots connection (length plan.candidates) rows plan
                [] tt)
      ]
