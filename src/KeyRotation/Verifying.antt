-- ===== src/KeyRotation/Verifying.antt =====
-- `verifyRotation` and `rollbackRotation` of backend/src/services/keyRotationService.ts, after any sequence
-- of operations on tables that had no checkpoint row.
use Prim.Native.String.{String}
use remitlend.Base.{ℕ, ◌≡◌, refl, ap, ◌∙◌, true, some, List, []}
use remitlend.Base.Assoc.{lookup}
use remitlend.Base.Result.{ok}
use remitlend.KeyRotation.{
  Database, RotationRecord, KeyRotationBatchRecord, verification_sample_size,
}
use remitlend.KeyRotation.Kms.{Platform}
use remitlend.KeyRotation.Operations.{rotated_by, verify_each, verify_rotation, rollback_rotation}
use remitlend.KeyRotation.Fields.{deks}
use remitlend.KeyRotation.Keeping.{DistinctIds}
use remitlend.KeyRotation.Sound.{IsSound}
use remitlend.KeyRotation.Steps.{
  Steps, none_rotated_by, steps-NoneRotated, steps-Holds, rollback_rotation-fields,
  rollback_rotation-records,
}

module _ {Buffer : Type 0} (platform : Platform Buffer)
    (pick : ℕ → List (RotationRecord Buffer) → List (RotationRecord Buffer)) where
  verify_nothing :
      (now : ℕ) (id : String) (batch : KeyRotationBatchRecord) (db : Database Buffer)
      → lookup id db.batches ≡ some batch
      → pick verification_sample_size (rotated_by id db) ≡ []
      → (verify_rotation platform pick now id db).0
        ≡ ok (record {
          passed = true;
          sample_size = 0;
          records_verified = 0;
          records_failed = 0;
          failure_details = [];
        })
  unfolding verify_rotation verify_each
  verify_nothing now id batch db h e = rw (h, verify_rotation, e) refl

  -- After any operations on tables without checkpoint rows, the verification of a stored batch passes on
  -- an empty sample, whatever the KMS answers, where the sample of no rows is empty.
  pub verification_is_vacuous :
      (begin db : Database Buffer) (now : ℕ) (id : String) (batch : KeyRotationBatchRecord)
      → pick verification_sample_size [] ≡ []
      → begin.records ≡ []
      → Steps platform pick begin db
      → lookup id db.batches ≡ some batch
      → (verify_rotation platform pick now id db).0
        ≡ ok (record {
          passed = true;
          sample_size = 0;
          records_verified = 0;
          records_failed = 0;
          failure_details = [];
        })
  verification_is_vacuous begin db now id batch empty none_yet steps h =
      verify_nothing now id batch db h (
        ap (pick verification_sample_size) (
          none_rotated_by platform pick id db.records
            (steps-NoneRotated platform pick steps (rw none_yet tt)))
        ∙ empty)

  -- After any operations on tables without checkpoint rows, a rollback leaves every encrypted row and
  -- every checkpoint row as it was.
  pub rollback_reverts_nothing :
      (begin db : Database Buffer) (now : ℕ) (id reason : String)
      → begin.records ≡ []
      → Steps platform pick begin db
      → ((rollback_rotation now id reason db).1.fields ≡ db.fields)
        × ((rollback_rotation now id reason db).1.records ≡ db.records)
  rollback_reverts_nothing begin db now id reason none_yet steps = (
    rollback_rotation-fields platform pick now id reason db,
    rollback_rotation-records platform pick now id reason db
        (steps-NoneRotated platform pick steps (rw none_yet tt)),
  )

  -- No sequence of operations loses a key: when the KMS and the cipher are sound and the rows' ids are
  -- distinct at the start, every row opens at the end, under the KEK that it then names, to the key that it
  -- held at the start.
  pub operations_keep_deks :
      (opens : String → Buffer → Buffer) (begin db : Database Buffer)
      → IsSound platform opens
      → DistinctIds begin.fields
      → Steps platform pick begin db
      → deks opens db ≡ deks opens begin
  operations_keep_deks opens begin db sound distinct steps =
      (steps-Holds platform pick opens sound (deks opens begin) steps (distinct, refl)).1
