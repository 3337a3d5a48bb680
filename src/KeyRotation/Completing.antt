-- ===== src/KeyRotation/Completing.antt =====
-- A resumed run, its verification, and the check of `completeKeyRotationBatch`:
-- backend/src/services/keyRotationService.ts and backend/src/controllers/keyRotationController.ts.
use Prim.Native.String.{String}
use remitlend.Base.{ℕ, ◌≡◌, refl, ap, ◌∙◌, some, true, List, [], ◌∷◌}
use remitlend.Base.Assoc.{lookup}
use remitlend.Base.Result.{ok}
use remitlend.KeyRotation.{
  EncryptedRecord, Database, KeyRotationBatchRecord, RotationRecord, completed,
  verification_sample_size,
}
use remitlend.KeyRotation.Kms.{Platform}
use remitlend.KeyRotation.Execution.{on_kek}
use remitlend.KeyRotation.Operations.{
  execute_rotation, complete_guard, verify_rotation, verify_each, rotated_by,
}
use remitlend.KeyRotation.Steps.{
  Steps, runs, follows, steps-NoneRotated, none_rotated_by, verify_rotation-tables,
}
use remitlend.KeyRotation.Batch.{lookup-update_batch}
use remitlend.KeyRotation.Skipping.{resumed_run_completes_early}

module _ {Buffer : Type 0} (platform : Platform Buffer)
    (pick : ℕ → List (RotationRecord Buffer) → List (RotationRecord Buffer)) (now : ℕ)
    (id : String) where
  verified_batch :
      (batch : KeyRotationBatchRecord) (db : Database Buffer)
      → lookup id db.batches ≡ some batch
      → pick verification_sample_size (rotated_by id db) ≡ []
      → lookup id (verify_rotation platform pick now id db).1.batches
        ≡ some (record batch {
          verification_passed = some true;
          verification_sample_size = some 0;
          verification_checked_at = some now;
        })
  unfolding verify_rotation verify_each
  verified_batch batch db h e = rw (h, verify_rotation, e) (lookup-update_batch id _ batch _ h)

  completed_guard :
      (batch : KeyRotationBatchRecord) (db : Database Buffer)
      → lookup id db.batches ≡ some batch
      → batch.status ≡ completed
      → batch.verification_passed ≡ some true
      → complete_guard id db ≡ ok tt
  unfolding complete_guard
  completed_guard batch db h s v = rw (h, complete_guard, s, v) refl

  -- After any operations on tables without checkpoint rows, where the sample of no rows is empty: when a
  -- batch that has a last rotated record is run while one row is on its old KEK, and then verified, the check
  -- before the old KEK may be revoked passes, and the row is still on the old KEK.
  pub old_kek_revoked_in_use :
      (begin db : Database Buffer) (batch : KeyRotationBatchRecord) (last : String)
      (r : EncryptedRecord Buffer)
      → pick verification_sample_size [] ≡ []
      → begin.records ≡ []
      → Steps platform pick begin db
      → lookup id db.batches ≡ some batch
      → batch.last_rotated_record_id ≡ some last
      → on_kek batch.old_kek_id db.fields ≡ r ∷ []
      → let verified =
          (verify_rotation platform pick now id (execute_rotation platform now id db).1).1 in
        (complete_guard id verified ≡ ok tt) × (on_kek batch.old_kek_id verified.fields ≡ r ∷ [])
  old_kek_revoked_in_use begin db batch last r empty none_yet steps h l one =
      let run = execute_rotation platform now id db in
      let early = resumed_run_completes_early platform now id batch last r db h l one in
      let none_rotated =
        steps-NoneRotated platform pick (follows steps (runs now id db)) (rw none_yet tt) in
      let no_sample =
        ap (pick verification_sample_size)
          (none_rotated_by platform pick id run.1.records none_rotated)
        ∙ empty in
      (
        completed_guard _ _ (verified_batch _ run.1 early.0 no_sample) refl refl,
        rw ((verify_rotation-tables platform pick now id run.1).0) (early.1),
      )
