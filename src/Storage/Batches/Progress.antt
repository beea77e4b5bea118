-- ===== src/Storage/Batches/Progress.antt =====
-- What one batch leaves of the plan (crates/maestro-storage/src/retention.rs).
use maestro_app.Prelude.{
  ℕ, ◌≡◌, ◌<◌, refl, min, inl, inr, false, [], arith, ◌==◌, length, take, drop, length-drop, Result,
  ok, >>=_ok, Bool-cases,
}
use maestro_app.Storage.Retention.{RetentionPlan}
use maestro_app.Storage.Batches.{
  RetentionError, sql_result, Connection, RetentionBatch, max_retention_batch, delete_candidates,
  execute_batch, execute_retention_batch,
}

module _ {ℓ} {Rows : Type ℓ} (connection : Connection Rows) where
  abbrev Outcome : Type ℓ
  Outcome = Rows × RetentionPlan × RetentionBatch

  -- The first so many candidates are gone from the plan, and the rest are counted.
  abbrev pub IsAdvanced : ℕ → RetentionPlan → Outcome → Type 0
  IsAdvanced batch_size plan outcome =
      (outcome.1.candidates ≡ drop batch_size plan.candidates)
      × (outcome.2.remaining_candidates ≡ length outcome.1.candidates)

  ok_inj : (a b : Outcome) → ◌≡◌ {A = Result Outcome RetentionError} (ok a) (ok b) → a ≡ b
  ok_inj a b e = ground arith

  execute_batch_lem :
      (rows : Rows) (plan : RetentionPlan) (batch_size : ℕ) (outcome : Outcome)
      → 0 < batch_size
      → execute_batch connection rows plan batch_size ≡ ok outcome
      → IsAdvanced batch_size plan outcome
  unfolding execute_batch
  execute_batch_lem rows plan batch_size outcome z e =
      let some_left : (batch_size == 0) ≡ false = ground arith in
      let h = rw some_left at e in
      let (progress, deleted, e1) =
        >>=_ok (delete_candidates connection (rows, 0, []) (take batch_size plan.candidates)) _ h in
      let (committed, done, last) = >>=_ok (sql_result (connection.commit progress.0)) _ e1 in
      rw (← ok_inj _ outcome last) (refl, refl)

  -- A batch that succeeds takes its candidates off the plan, at most 256, and at least one when
  -- there is one.
  pub execute_retention_batch_lem :
      (rows : Rows) (plan : RetentionPlan) (requested_limit : ℕ) (outcome : Outcome)
      → 0 < length plan.candidates
      → execute_retention_batch connection rows plan requested_limit ≡ ok outcome
      → IsAdvanced
          (min (min requested_limit max_retention_batch) (length plan.candidates))
          plan
          outcome
        × (length outcome.1.candidates < length plan.candidates)
  unfolding execute_retention_batch
  execute_retention_batch_lem rows plan requested_limit outcome h e =
      elim (Bool-cases (requested_limit == 0)) [
        | inl refused ↦ absurd (ground (arith, refused))
        | inr allowed ↦
            let positive : 0 < requested_limit = ground arith in
            let batch_size =
              min (min requested_limit max_retention_batch) (length plan.candidates) in
            let advanced =
              execute_batch_lem rows plan batch_size outcome (omega (arith, positive, h))
                (rw allowed at e) in
            (
              advanced,
              rw (advanced.0) (omega (arith, length-drop batch_size plan.candidates, positive, h)),
            )
      ]
