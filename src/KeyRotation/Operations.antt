-- ===== src/KeyRotation/Operations.antt =====
-- `executeRotation` and the operations of `KeyRotationService` in
-- backend/src/services/keyRotationService.ts, and the check of
-- backend/src/controllers/keyRotationController.ts before a batch counts as complete. `NOW()` is an
-- argument, and so are the drawn id of a batch and the sample that `ORDER BY RANDOM() LIMIT` picks.
use Prim.Native.String.{String}
use remitlend.Base.{
  ℕ, ◌+◌, ◌-◌, Bool, true, false, ◌&&◌, not, none, some, List, [], ◌∷◌, filter, any, map, length,
  ltb, ◌==◌, if◌then◌else◌,
}
use remitlend.Base.Assoc.{◌same◌, lookup, insert}
use remitlend.Base.Result.{Result, ok, err, ◌>>=◌}
use remitlend.KeyRotation.{
  BatchStatus, pending, in_progress, completed, failed, rolled_back, is_in_progress, is_completed,
  is_rotated, RecordStatus, KeyRotationBatchRecord, EncryptedRecord, RotationRecord, Database,
  ErrorText, thrown, records_failed_to_rotate, KeyRotationError, rotation_already_in_progress,
  batch_not_found, batch_already_completed, batch_rolled_back, null_new_dek_wrapped, batch_size,
  verification_sample_size, update_batch,
}
use remitlend.KeyRotation.Kms.{Platform, unwrap_dek, validate_kek_access}
use remitlend.KeyRotation.Execution.{Outcome, message, last_id, scan, rotate_each}

-- The statuses that `resumeRotation` refuses.
abbrev pub resume_guard : BatchStatus → Result KeyRotationError (Unit {0})
resume_guard completed = err batch_already_completed
resume_guard rolled_back = err batch_rolled_back
resume_guard _ = ok tt

-- The `AppError`s of `completeKeyRotationBatch`.
pub data CompletionError : Type 0 where
  no_such_batch not_completed verification_not_passed : CompletionError

-- The checks of `completeKeyRotationBatch` before the old KEK may be revoked.
unfoldable pub complete_guard :
    {Buffer : Type 0} → String → Database Buffer → Result CompletionError (Unit {0})
complete_guard id db = elim (lookup id db.batches) [
  | none ↦ err no_such_batch
  | some batch ↦
      if not (is_completed batch.status)
      then err not_completed
      else elim batch.verification_passed [ some true ↦ ok tt | _ ↦ err verification_not_passed ]
]

-- `RotationVerificationResult`, without the batch's id and the time.
pub record Verification : Type 0 where
  pub passed : Bool
  pub sample_size : ℕ
  pub records_verified : ℕ
  pub records_failed : ℕ
  pub failure_details : List (String × ErrorText)

module _ {Buffer : Type 0} where
  abbrev pub set_status : BatchStatus → String → Database Buffer → Database Buffer
  set_status s id = update_batch id (λ b. record b { status = s })

  abbrev pub complete_batch : ℕ → String → Database Buffer → Database Buffer
  complete_batch now id =
      update_batch id (λ b. record b { status = completed; completed_at = some now })

  -- The end of a run that saw fewer records than a batch holds, from its second read of the row on.
  unfoldable pub finish_run : ℕ → String → Database Buffer → Database Buffer
  finish_run now id db = elim (lookup id db.batches) [
    | none ↦ db
    | some fb ↦
        if ltb 0 fb.total_records_failed
        then update_batch id
            (λ b. record b {
              status = failed;
              failure_reason = some (records_failed_to_rotate fb.total_records_failed);
            })
            db
        else complete_batch now id db
  ]

  -- `UPDATE key_rotation_batch` with the progress of a run.
  unfoldable pub add_progress : ℕ × ℕ → String → String → Database Buffer → Database Buffer
  add_progress counts last id = update_batch id (λ b. record b {
    total_records_rotated = b.total_records_rotated + counts.0;
    total_records_failed = b.total_records_failed + counts.1;
    last_rotated_record_id = some last;
    last_error_code = if ltb 0 counts.1 then some "PARTIAL_FAILURE" else none;
  })

  -- `resumeRotation`, up to the run that it starts in the background.
  unfoldable pub resume_rotation : String → Database Buffer → Outcome Buffer KeyRotationBatchRecord
  resume_rotation id db = elim (lookup id db.batches) [
    | none ↦ (err batch_not_found, db)
    | some batch ↦ elim (resume_guard batch.status) [
      | err e ↦ (err e, db)
      | ok _ ↦ (ok batch, set_status in_progress id db)
    ]
  ]

  -- The rows of `key_rotation_record` that count as rotated by a batch.
  abbrev pub rotated_by : String → Database Buffer → List (RotationRecord Buffer)
  rotated_by id db = filter (λ c. c.batch_id same id && is_rotated c.status) db.records

  -- `UPDATE key_rotation_record SET status = 'rolled_back' WHERE id = $1`.
  abbrev pub roll_back_record : RotationRecord Buffer → Database Buffer → Database Buffer
  roll_back_record rec db = record db {
    records =
        map {A = RotationRecord Buffer}
          (λ c. if c.id same rec.id then record c { status = RecordStatus.rolled_back } else c)
          db.records;
  }

  unfoldable pub roll_back_each : List (RotationRecord Buffer) → Database Buffer → Database Buffer
  roll_back_each [] db = db
  roll_back_each (c ∷ cs) db = roll_back_each cs (roll_back_record c db)

  unfoldable pub rollback_rotation :
      ℕ → String → String → Database Buffer → Outcome Buffer (Unit {0})
  unfolding roll_back_each
  rollback_rotation now id reason db = elim (lookup id db.batches) [
    | none ↦ (err batch_not_found, db)
    | some batch ↦ (
      ok tt,
      update_batch id
          (λ b. record b {
            status = rolled_back;
            rolled_back_at = some now;
            failure_reason = some (thrown reason);
          })
          (roll_back_each (rotated_by id db) db),
    )
  ]

  module _ (platform : Platform Buffer) where
    -- `executeRotation` from its scan on.
    unfoldable pub rotate_scanned :
        ℕ
        → String
        → KeyRotationBatchRecord
        → List (EncryptedRecord Buffer)
        → Database Buffer
        → Bool × Database Buffer
    unfolding rotate_each add_progress finish_run
    rotate_scanned now id batch [] db = (false, complete_batch now id db)
    rotate_scanned now id batch (r ∷ rs) db =
        let run = rotate_each platform id batch.old_kek_id batch.new_kek_id (r ∷ rs) db in
        let after = add_progress run.0 (last_id r rs) id run.1 in
        if length (r ∷ rs) == batch_size then (true, after) else (false, finish_run now id after)

    -- `executeRotation`; the flag says that it has scheduled itself again.
    unfoldable pub execute_rotation : ℕ → String → Database Buffer → Outcome Buffer Bool
    unfolding rotate_scanned
    execute_rotation now id db = elim (lookup id db.batches) [
      | none ↦ (err batch_not_found, db)
      | some batch ↦
          let started = set_status in_progress id db in
          let run = rotate_scanned now id batch (scan batch started) started in (ok run.0, run.1)
    ]

    -- `startRotation`, up to the run that it starts in the background.
    unfoldable pub start_rotation :
        ℕ
        → String
        → String
        → String
        → String
        → String
        → Database Buffer
        → Outcome Buffer KeyRotationBatchRecord
    start_rotation now batch_id current_kek_id new_kek_id actor request_id db =
        if any (λ b. is_in_progress b.1.status) db.batches
        then (err rotation_already_in_progress, db)
        else elim (validate_kek_access platform db.calls new_kek_id) [
          | err e ↦ (err e, record db { calls = db.calls + 1 })
          | ok _ ↦
              let batch : KeyRotationBatchRecord = record {
                old_kek_id = current_kek_id;
                new_kek_id = new_kek_id;
                status = pending;
                last_rotated_record_id = none;
                total_records_scanned = 0;
                total_records_rotated = 0;
                total_records_failed = 0;
                initiated_by = actor;
                initiated_at = now;
                completed_at = none;
                rolled_back_at = none;
                failure_reason = none;
                last_error_code = none;
                verification_passed = none;
                verification_sample_size = none;
                verification_checked_at = none;
                request_id = request_id;
              } in
              (
                ok batch,
                record db { calls = db.calls + 1; batches = insert batch_id batch db.batches },
              )
        ]

    -- `decryptRecordWithNewKey`, whose result is never empty.
    unfoldable pub decrypt_record_with_new_key :
        ℕ → RotationRecord Buffer → String → Result KeyRotationError (Unit {0})
    decrypt_record_with_new_key call c new_kek_id = elim c.new_dek_wrapped [
      | none ↦ err null_new_dek_wrapped
      | some w ↦ unwrap_dek platform call w new_kek_id >>= λ _. ok tt
    ]

    -- The loop of `verifyRotation`: the ids of the records that failed, with what was thrown.
    unfoldable pub verify_each :
        ℕ → String → List (RotationRecord Buffer) → List (String × ErrorText)
    unfolding decrypt_record_with_new_key
    verify_each call new_kek_id [] = []
    verify_each call new_kek_id (c ∷ cs) =
        let rest = verify_each (call + 1) new_kek_id cs in
        elim (decrypt_record_with_new_key call c new_kek_id) [
          | ok _ ↦ rest
          | err e ↦ (c.record_id, message e) ∷ rest
        ]

    -- `pick` is the sample of at most fifty rows.
    unfoldable pub verify_rotation :
        (ℕ → List (RotationRecord Buffer) → List (RotationRecord Buffer))
        → ℕ
        → String
        → Database Buffer
        → Outcome Buffer Verification
    unfolding verify_each
    verify_rotation pick now id db = elim (lookup id db.batches) [
      | none ↦ (err batch_not_found, db)
      | some batch ↦
          let sample = pick verification_sample_size (rotated_by id db) in
          let failures = verify_each db.calls batch.new_kek_id sample in
          let passed = length failures == 0 in
          let result : Verification = record {
            passed = passed;
            sample_size = length sample;
            records_verified = length sample - length failures;
            records_failed = length failures;
            failure_details = failures;
          } in
          (
            ok result,
            update_batch id
                (λ b. record b {
                  verification_passed = some passed;
                  verification_sample_size = some (length sample);
                  verification_checked_at = some now;
                })
                (record db { calls = db.calls + length sample }),
          )
    ]
