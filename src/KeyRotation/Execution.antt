-- ===== src/KeyRotation/Execution.antt =====
-- `rotateRecordWithRetry` and `executeRotation` of backend/src/services/keyRotationService.ts. The
-- `setImmediate` of the latter is the flag it returns.
use Prim.Native.String.{String}
use remitlend.Base.{
  ℕ, zero, suc, ◌+◌, ◌-◌, ◌*◌, ◌^◌, min, Bool, true, false, ◌&&◌, ◌||◌, none, some, List, [], ◌∷◌,
  take, filter, ltb, if◌then◌else◌,
}
use remitlend.Base.Assoc.{◌same◌}
use remitlend.Base.Result.{Result, ok, err}
use remitlend.KeyRotation.{
  EncryptedRecord, KeyRotationBatchRecord, Database, ErrorText, thrown, failed_to_rotate,
  KeyRotationError, kms_unwrap_error, kms_wrap_error, decryption_error, kms_access_denied,
  database_error, rotation_failed, rotation_already_in_progress, batch_not_found,
  batch_already_completed, batch_rolled_back, null_new_dek_wrapped, out_of_fuel, max_retries,
  initial_backoff_ms, max_backoff_ms, batch_size, update_field, insert_checkpoint, insert_failure,
}
use remitlend.KeyRotation.Kms.{Platform, includes_timeout, unwrap_dek, wrap_dek}

-- `error.message`, where the service reads it.
abbrev pub message : KeyRotationError → ErrorText
message (kms_unwrap_error t _) = t
message (kms_wrap_error t _) = t
message (decryption_error t _) = t
message (kms_access_denied t) = t
message (database_error t) = t
message (rotation_failed id t) = failed_to_rotate id t
message rotation_already_in_progress = thrown "Another key rotation is already in progress"
message batch_not_found = thrown "Batch not found"
message batch_already_completed = thrown "Batch already completed"
message batch_rolled_back = thrown "Batch was rolled back"
message null_new_dek_wrapped = thrown "Cannot read properties of null"
message out_of_fuel = thrown ""

abbrev pub is_kms_error : KeyRotationError → Bool
is_kms_error (kms_unwrap_error _ _) = true
is_kms_error (kms_wrap_error _ _) = true
is_kms_error _ = false

abbrev pub is_retryable : KeyRotationError → Bool
is_retryable e = is_kms_error e || includes_timeout (message e)

unfoldable pub rotation_backoff_ms : ℕ → ℕ
rotation_backoff_ms attempt = min (initial_backoff_ms * 2 ^ (attempt - 1)) max_backoff_ms

abbrev pub last_id :
    {Buffer : Type 0} → EncryptedRecord Buffer → List (EncryptedRecord Buffer) → String
last_id r [] = r.id
last_id _ (r ∷ rs) = last_id r rs

abbrev pub drop : {A : Type 0} → ℕ → List A → List A
drop zero xs = xs
drop (suc _) [] = []
drop (suc n) (_ ∷ xs) = drop n xs

abbrev pub Outcome : Type 0 → Type 0 → Type 0
Outcome Buffer A = Result KeyRotationError A × Database Buffer

module _ {Buffer : Type 0} where
  -- The scan: `WHERE dek_kek_id = $1 ORDER BY created_at LIMIT $2 OFFSET $3`.
  abbrev pub on_kek : String → List (EncryptedRecord Buffer) → List (EncryptedRecord Buffer)
  on_kek kek = filter (λ r. r.dek_kek_id same kek)

  abbrev pub scan : KeyRotationBatchRecord → Database Buffer → List (EncryptedRecord Buffer)
  scan batch db =
      let offset : ℕ = elim batch.last_rotated_record_id [ none ↦ 0 | some _ ↦ 1 ] in
      take batch_size (drop offset (on_kek batch.old_kek_id db.fields))

  module _ (platform : Platform Buffer) where
    -- The body of the `try`.
    unfoldable pub rotate_once :
        EncryptedRecord Buffer → String → String → Database Buffer → Outcome Buffer (Unit {0})
    unfolding insert_checkpoint
    rotate_once r old_kek_id new_kek_id db =
        elim (unwrap_dek platform db.calls r.dek_wrapped old_kek_id) [
          | err e ↦ (err e, record db { calls = db.calls + 1 })
          | ok dek ↦ elim (wrap_dek platform (db.calls + 1) dek new_kek_id) [
            | err e ↦ (err e, record db { calls = db.calls + 2 })
            | ok new_dek_wrapped ↦
                insert_checkpoint none r (
                  update_field r.id new_dek_wrapped new_kek_id (record db { calls = db.calls + 2 }))
          ]
        ]

    -- One call of `rotateRecordWithRetry`; `again` is its recursive call.
    unfoldable pub rotate_attempt :
        EncryptedRecord Buffer
        → String
        → String
        → (ℕ → Database Buffer → Outcome Buffer (Unit {0}))
        → ℕ
        → Database Buffer
        → Outcome Buffer (Unit {0})
    unfolding rotate_once rotation_backoff_ms
    rotate_attempt r old_kek_id new_kek_id again attempt db =
        let once = rotate_once r old_kek_id new_kek_id db in
        elim once.0 [
          | ok _ ↦ once
          | err e ↦
              if is_retryable e && ltb attempt max_retries
              then again (attempt + 1)
                  (record once.1 { slept_ms = once.1.slept_ms + rotation_backoff_ms attempt })
              else (err (rotation_failed r.id (message e)), once.1)
        ]

    unfoldable pub rotate_record_with_retry :
        ℕ
        → EncryptedRecord Buffer
        → String
        → String
        → ℕ
        → Database Buffer
        → Outcome Buffer (Unit {0})
    unfolding rotate_attempt
    rotate_record_with_retry zero r old_kek_id new_kek_id attempt db = (err out_of_fuel, db)
    rotate_record_with_retry (suc fuel) r old_kek_id new_kek_id attempt db =
        rotate_attempt r old_kek_id new_kek_id
          (rotate_record_with_retry fuel r old_kek_id new_kek_id) attempt db

    -- `for (const record of records)`: how many succeeded, and how many failed.
    unfoldable pub rotate_each :
        String
        → String
        → String
        → List (EncryptedRecord Buffer)
        → Database Buffer
        → (ℕ × ℕ) × Database Buffer
    unfolding rotate_record_with_retry
    rotate_each batch_id old_kek_id new_kek_id [] db = ((0, 0), db)
    rotate_each batch_id old_kek_id new_kek_id (r ∷ rs) db =
        let one = rotate_record_with_retry max_retries r old_kek_id new_kek_id 1 db in
        elim one.0 [
          | ok _ ↦
              let rest = rotate_each batch_id old_kek_id new_kek_id rs one.1 in
              ((rest.0.0 + 1, rest.0.1), rest.1)
          | err e ↦
              let rest =
                rotate_each batch_id old_kek_id new_kek_id rs
                  (insert_failure platform.uuid batch_id r (message e) one.1) in
              ((rest.0.0, rest.0.1 + 1), rest.1)
        ]
