-- ===== src/Storage/Maintenance/Termination.antt =====
-- The loop of `maintain` in crates/maestrod/src/storage_runtime.rs ends.
use maestro_app.Prelude.{
  ℕ, zero, suc, ◌≡◌, ◌≤◌, refl, inl, inr, true, some, List, [], arith, ◌==◌, length, Result, ok,
  err, Bool-cases, Result-cases,
}
use maestro_app.Project.Paths.{FilePath}
use maestro_app.Storage.Retention.{RetentionPlan}
use maestro_app.Storage.Batches.{Connection, max_retention_batch, execute_retention_batch}
use maestro_app.Storage.Batches.Progress.{execute_retention_batch_lem}
use maestro_app.Storage.Maintenance.{
  StorageRuntimeError, retention, SegmentFiles, remove_released_files, Drained, drain_plan,
  Surroundings, plan_maintenance, maintain_ready,
}

module _ {ℓ} {Rows : Type ℓ} (connection : Connection Rows) (files : SegmentFiles) where
  -- The loop came to its end, with an error or without.
  abbrev pub IsEnded : Drained connection files → Type 0
  IsEnded drained =
      (outcome : Result (Unit {0}) StorageRuntimeError) × (drained.outcome ≡ some outcome)

  drain_plan-IsEnded :
      (fuel : ℕ) (allowed_roots : List FilePath) (rows : Rows) (plan : RetentionPlan)
      (removed : List FilePath)
      → length plan.candidates ≤ fuel
      → IsEnded (drain_plan connection files fuel allowed_roots rows plan removed)
  unfolding drain_plan
  drain_plan-IsEnded zero allowed_roots rows plan removed h =
      let empty : (length plan.candidates == 0) ≡ true = ground arith in
      (ok tt, rw (empty, drain_plan) refl)
  drain_plan-IsEnded (suc less) allowed_roots rows plan removed h =
      elim (Bool-cases (length plan.candidates == 0)) [
        | inl empty ↦ (ok tt, rw (empty, drain_plan) refl)
        | inr more ↦
            elim (Result-cases (execute_retention_batch connection rows plan max_retention_batch)) [
              | inr (failure, e) ↦ (err (retention failure), rw (more, e, drain_plan) refl)
              | inl ((later, left, batch), e) ↦
                  let (advanced, fewer) =
                    execute_retention_batch_lem connection rows plan max_retention_batch
                      (later, left, batch) (ground (arith, more)) e in
                  let gone =
                    remove_released_files files allowed_roots removed
                      batch.released_storage_paths in
                  elim (Result-cases gone.1) [
                    | inr (failure, r) ↦ (err failure, rw (more, e, r, drain_plan) refl)
                    | inl (done, r) ↦
                        let rest =
                          drain_plan-IsEnded less allowed_roots later left gone.0
                            (omega (arith, fewer, h)) in
                        (rest.0, rw (more, e, r, drain_plan) rest.1)
                  ]
            ]
      ]

  -- Maintenance of storage that is ready ends, with an error or without, whatever the database
  -- and the file system answer: the fuel of one round for each planned candidate is enough for
  -- `while !plan.is_empty()`.
  pub maintain_ready-IsEnded :
      (around : Surroundings connection files) (rows : Rows)
      → IsEnded (maintain_ready connection files around rows)
  unfolding maintain_ready
  maintain_ready-IsEnded around rows =
      elim (Result-cases (plan_maintenance connection files around rows)) [
        | inr (failure, e) ↦ (err failure, rw (e, maintain_ready) refl)
        | inl ((allowed_roots, plan), e) ↦
            let (outcome, ended) =
              drain_plan-IsEnded (length plan.candidates) allowed_roots rows plan []
                (omega arith) in
            (outcome, rw (e, maintain_ready) ended)
      ]
