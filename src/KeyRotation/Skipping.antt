-- ===== src/KeyRotation/Skipping.antt =====
-- The `OFFSET` of the scan in `executeRotation` of backend/src/services/keyRotationService.ts.
use Prim.Native.String.{String}
use remitlend.Base.{ℕ, ◌≡◌, refl, ◌∙◌, some, [], ◌∷◌}
use remitlend.Base.Assoc.{lookup}
use remitlend.KeyRotation.{
  EncryptedRecord, Database, KeyRotationBatchRecord, completed, in_progress,
}
use remitlend.KeyRotation.Kms.{Platform}
use remitlend.KeyRotation.Execution.{on_kek, scan}
use remitlend.KeyRotation.Operations.{execute_rotation, set_status}
use remitlend.KeyRotation.Counting.{rotate_each-empty}
use remitlend.KeyRotation.Batch.{execute_rotation-batch}
use remitlend.KeyRotation.Fields.{update_batch_keeps, execute_rotation_keeps}

module _ {Buffer : Type 0} (platform : Platform Buffer) (now : ℕ) (id : String) where
  skipped :
      (batch : KeyRotationBatchRecord) (last : String) (r : EncryptedRecord Buffer)
      (db : Database Buffer)
      → batch.last_rotated_record_id ≡ some last
      → on_kek batch.old_kek_id db.fields ≡ r ∷ []
      → scan batch db ≡ []
  skipped batch last r db l one = rw (l, one) refl

  -- A run of a batch that has a last rotated record skips the oldest row on the old KEK: where that row is
  -- the only one, the run marks the batch completed and leaves the row as it is.
  pub resumed_run_completes_early :
      (batch : KeyRotationBatchRecord) (last : String) (r : EncryptedRecord Buffer)
      (db : Database Buffer)
      → lookup id db.batches ≡ some batch
      → batch.last_rotated_record_id ≡ some last
      → on_kek batch.old_kek_id db.fields ≡ r ∷ []
      → (lookup id (execute_rotation platform now id db).1.batches
          ≡ some (record batch { status = completed; completed_at = some now }))
        × (on_kek batch.old_kek_id (execute_rotation platform now id db).1.fields ≡ r ∷ [])
  resumed_run_completes_early batch last r db h l one =
      let started = set_status in_progress id db in
      let kept : started.fields ≡ db.fields =
        update_batch_keeps (λ d. d.fields) (λ d m. refl) id (λ b. record b { status = in_progress })
          db in
      let fields =
        execute_rotation_keeps (λ d. d.fields) (λ d m. refl) platform now id batch db h
        ∙ (rw (skipped batch last r started l (rw kept one))
            (rw (rotate_each-empty platform id batch.old_kek_id batch.new_kek_id started) kept)) in
      (
        (execute_rotation-batch id platform now batch db h).1
            ∙ (rw (skipped batch last r db l one) refl),
        rw fields one,
      )
