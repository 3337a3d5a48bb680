-- ===== src/KeyRotation/Batch.antt =====
-- What `executeRotation` of backend/src/services/keyRotationService.ts makes of the row of its batch.
use Prim.Native.String.{String}
use text.Mathlib.TextEquality.{eq_iff}
use remitlend.Base.{
  ◌<◌, ℕ, ◌+◌, ◌≡◌, refl, ap, ◌∙◌, inl, inr, true, false, List, [], ◌∷◌, some, arith, length,
  if◌then◌else◌, ◌==◌, lt→ltb, Bool-cases,
}
use remitlend.Base.Assoc.{lookup, insert, lookup-insert}
use remitlend.Base.Result.{ok}
use remitlend.KeyRotation.{
  EncryptedRecord, Database, KeyRotationBatchRecord, batch_size, update_batch, completed,
  in_progress, failed, records_failed_to_rotate,
}
use remitlend.KeyRotation.Kms.{Platform}
use remitlend.KeyRotation.Execution.{scan, last_id, rotate_each}
use remitlend.KeyRotation.Operations.{
  set_status, add_progress, finish_run, rotate_scanned, execute_rotation,
}
use remitlend.KeyRotation.Counting.{rotate_each-counts, rotate_each-batches}

module _ {Buffer : Type 0} (id : String) where
  pub update_batch_lem :
      (f : KeyRotationBatchRecord → KeyRotationBatchRecord) (b : KeyRotationBatchRecord)
      (db : Database Buffer)
      → lookup id db.batches ≡ some b
      → update_batch id f db ≡ record db { batches = insert id (f b) db.batches }
  update_batch_lem f b db h = rw (h, update_batch) refl

  pub lookup-update_batch :
      (f : KeyRotationBatchRecord → KeyRotationBatchRecord) (b : KeyRotationBatchRecord)
      (db : Database Buffer)
      → lookup id db.batches ≡ some b
      → lookup id (update_batch id f db).batches ≡ some (f b)
  lookup-update_batch f b db h =
      ap (λ d. lookup id d.batches) (update_batch_lem f b db h)
      ∙ lookup-insert id id (f b) db.batches
      ∙ ground (arith, eq_iff id id)

  -- What a run over the scanned records makes of its batch.
  abbrev pub batch_after :
      ℕ → KeyRotationBatchRecord → List (EncryptedRecord Buffer) → KeyRotationBatchRecord
  batch_after now batch [] = record batch { status = completed; completed_at = some now }
  batch_after now batch (r ∷ rs) =
      let failures = batch.total_records_failed + length (r ∷ rs) in
      let progressed : KeyRotationBatchRecord = record batch {
        status = in_progress;
        total_records_failed = failures;
        last_rotated_record_id = some (last_id r rs);
        last_error_code = some "PARTIAL_FAILURE";
      } in
      if length (r ∷ rs) == batch_size then progressed else record progressed {
        status = failed;
        failure_reason = some (records_failed_to_rotate failures);
      }

  module _ (platform : Platform Buffer) where
    -- A run over no records, and a run over some.
    scanned-none :
        (now : ℕ) (batch : KeyRotationBatchRecord) (db : Database Buffer)
        → rotate_scanned platform now id batch [] db ≡ (
          false,
          update_batch id (λ b. record b { status = completed; completed_at = some now }) db,
        )
    unfolding rotate_scanned
    scanned-none now batch db = refl

    -- The tables after the progress of a run is written.
    abbrev progressed :
        KeyRotationBatchRecord
        → EncryptedRecord Buffer
        → List (EncryptedRecord Buffer)
        → Database Buffer
        → Database Buffer
    progressed batch r rs db =
        let run = rotate_each platform id batch.old_kek_id batch.new_kek_id (r ∷ rs) db in
        add_progress run.0 (last_id r rs) id run.1

    scanned-some :
        (now : ℕ) (batch : KeyRotationBatchRecord) (r : EncryptedRecord Buffer)
        (rs : List (EncryptedRecord Buffer)) (db : Database Buffer)
        → rotate_scanned platform now id batch (r ∷ rs) db ≡ (
            if length (r ∷ rs) == batch_size
            then (true, progressed batch r rs db)
            else (false, finish_run now id (progressed batch r rs db)))
    unfolding rotate_scanned
    scanned-some now batch r rs db = refl

    progressed-lookup :
        (batch row : KeyRotationBatchRecord) (r : EncryptedRecord Buffer)
        (rs : List (EncryptedRecord Buffer)) (db : Database Buffer)
        → lookup id db.batches ≡ some row
        → lookup id (progressed batch r rs db).batches
          ≡ some (record row {
            total_records_failed = row.total_records_failed + length (r ∷ rs);
            last_rotated_record_id = some (last_id r rs);
            last_error_code = some "PARTIAL_FAILURE";
          })
    unfolding add_progress
    progressed-lookup batch row r rs db h =
        let counts = rotate_each-counts platform id batch.old_kek_id batch.new_kek_id (r ∷ rs) db in
        let kept = rotate_each-batches platform id batch.old_kek_id batch.new_kek_id (r ∷ rs) db in
        rw counts (
          lookup-update_batch _ row
            (rotate_each platform id batch.old_kek_id batch.new_kek_id (r ∷ rs) db).1 (rw kept h)
          ∙ ground arith)

    finish_run-lookup :
        (now : ℕ) (row : KeyRotationBatchRecord) (db : Database Buffer)
        → lookup id db.batches ≡ some row
        → 0 < row.total_records_failed
        → lookup id (finish_run now id db).batches
          ≡ some (record row {
            status = failed;
            failure_reason = some (records_failed_to_rotate row.total_records_failed);
          })
    unfolding finish_run
    finish_run-lookup now row db h pos =
        rw (h, finish_run, lt→ltb 0 row.total_records_failed pos) (lookup-update_batch _ row db h)

    scanned-lookup :
        (now : ℕ) (batch : KeyRotationBatchRecord) (xs : List (EncryptedRecord Buffer))
        (db : Database Buffer)
        → lookup id db.batches ≡ some (record batch { status = in_progress })
        → ((rotate_scanned platform now id batch xs db).0 ≡ (length xs == batch_size))
          × (lookup id (rotate_scanned platform now id batch xs db).1.batches
              ≡ some (batch_after now batch xs))
    scanned-lookup now batch [] db h =
        rw (scanned-none now batch db) (refl, lookup-update_batch _ _ db h)
    scanned-lookup now batch (r ∷ rs) db h =
        let row : KeyRotationBatchRecord = record batch { status = in_progress } in
        let wrote = progressed-lookup batch row r rs db h in
        elim (Bool-cases (length (r ∷ rs) == batch_size)) [
          | inl e ↦ rw (scanned-some now batch r rs db, e) (refl, wrote)
          | inr e ↦
              rw (scanned-some now batch r rs db, e)
                (refl, finish_run-lookup now _ (progressed batch r rs db) wrote (omega arith))
        ]

    started-lookup :
        (batch : KeyRotationBatchRecord) (db : Database Buffer)
        → lookup id db.batches ≡ some batch
        → (lookup id (set_status in_progress id db).batches
            ≡ some (record batch { status = in_progress }))
          × (scan batch (set_status in_progress id db) ≡ scan batch db)
    started-lookup batch db h =
        (lookup-update_batch _ batch db h, rw (update_batch_lem _ batch db h) refl)

    pub execute_rotation_started :
        (now : ℕ) (batch : KeyRotationBatchRecord) (db : Database Buffer)
        → lookup id db.batches ≡ some batch
        → let started = set_status in_progress id db in
          let run = rotate_scanned platform now id batch (scan batch started) started in
          execute_rotation platform now id db ≡ (ok run.0, run.1)
    unfolding execute_rotation
    execute_rotation_started now batch db h = rw (h, execute_rotation) refl

    -- A run of a stored batch schedules another exactly when it scanned a full batch, and leaves the row
    -- that `batch_after` gives: completed when no record was scanned, and otherwise with every scanned
    -- record added to the failures and none to the successes.
    pub execute_rotation-batch :
        (now : ℕ) (batch : KeyRotationBatchRecord) (db : Database Buffer)
        → lookup id db.batches ≡ some batch
        → ((execute_rotation platform now id db).0 ≡ ok (length (scan batch db) == batch_size))
          × (lookup id (execute_rotation platform now id db).1.batches
              ≡ some (batch_after now batch (scan batch db)))
    execute_rotation-batch now batch db h =
        let ready = started-lookup batch db h in
        let after =
          scanned-lookup now batch (scan batch db) (set_status in_progress id db) ready.0 in
        rw (execute_rotation_started now batch db h, ready.1) (ap ok after.0, after.1)
