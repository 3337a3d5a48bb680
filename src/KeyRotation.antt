-- ===== src/KeyRotation.antt =====
-- backend/src/services/keyRotationService.ts: moving the wrapped data encryption keys (DEKs) from one
-- key encryption key (KEK) to another. The tables are those of
-- backend/migrations/1805000000000_key-rotation-tables.js; each statement is its own transaction.
pub mod Kms
pub mod Execution
pub mod Operations
pub mod Attempt
pub mod Fuel
pub mod Retrying
pub mod Sound
pub mod Keeping
pub mod Ids
pub mod Fields
pub mod Counting
pub mod Batch
pub mod Steps
pub mod Verifying
pub mod Skipping
pub mod Completing
pub mod Outage
mod Tests
use Prim.Native.String.{String}
use remitlend.Base.{
  ℕ, ◌+◌, Bool, true, false, Option, none, some, List, [], ◌∷◌, ◌++◌, map, any, if◌then◌else◌,
}
use remitlend.Base.Assoc.{Assoc, ◌same◌, lookup, insert}
use remitlend.Base.Result.{Result, ok, err}

pub data BatchStatus : Type 0 where
  pending in_progress completed failed rolled_back : BatchStatus

abbrev pub is_in_progress : BatchStatus → Bool
is_in_progress in_progress = true
is_in_progress _ = false

-- A text that an error carries: a text of the platform's, or one of the templates of the service.
pub data ErrorText : Type 0 where
  thrown : String → ErrorText
  kms_returned : ℕ → ErrorText
  null_batch_id : ErrorText
  records_failed_to_rotate : ℕ → ErrorText
  failed_to_rotate : String → ErrorText → ErrorText

abbrev pub is_completed : BatchStatus → Bool
is_completed completed = true
is_completed _ = false

-- A row is found by its id. The column `metadata`, which no operation reads, is left out.
pub record KeyRotationBatchRecord : Type 0 where
  pub old_kek_id : String
  pub new_kek_id : String
  pub status : BatchStatus
  pub last_rotated_record_id : Option String
  pub total_records_scanned : ℕ
  pub total_records_rotated : ℕ
  pub total_records_failed : ℕ
  pub initiated_by : String
  pub initiated_at : ℕ
  pub completed_at : Option ℕ
  pub rolled_back_at : Option ℕ
  pub failure_reason : Option ErrorText
  pub last_error_code : Option String
  pub verification_passed : Option Bool
  pub verification_sample_size : Option ℕ
  pub verification_checked_at : Option ℕ
  pub request_id : String

pub record EncryptedRecord (Buffer : Type 0) : Type 0 where
  pub id : String
  pub table_name : String
  pub field_name : String
  pub ciphertext : Buffer
  pub gcm_nonce : Buffer
  pub dek_wrapped : Buffer
  pub dek_kek_id : String
  pub encrypted_value : Option Buffer

pub data RecordStatus : Type 0 where
  rotated failed rolled_back : RecordStatus

abbrev pub is_rotated : RecordStatus → Bool
is_rotated RecordStatus.rotated = true
is_rotated _ = false

-- A row of `key_rotation_record`.
pub record RotationRecord (Buffer : Type 0) : Type 0 where
  pub id : String
  pub batch_id : String
  pub table_name : String
  pub record_id : String
  pub field_name : String
  pub status : RecordStatus
  pub new_dek_wrapped : Option Buffer
  pub failure_reason : Option ErrorText

-- `KeyRotationError` by its code, and `database_error` for what the driver throws. The `Bool` is
-- `retryable`, which is false where it is not shown.
pub data KeyRotationError : Type 0 where
  kms_unwrap_error kms_wrap_error decryption_error : ErrorText → Bool → KeyRotationError
  rotation_already_in_progress batch_not_found batch_already_completed : KeyRotationError
  batch_rolled_back null_new_dek_wrapped : KeyRotationError
  kms_access_denied database_error : ErrorText → KeyRotationError
  rotation_failed : String → ErrorText → KeyRotationError
  out_of_fuel : KeyRotationError

abbrev pub max_retries : ℕ
max_retries = 3

abbrev pub initial_backoff_ms : ℕ
initial_backoff_ms = 500

abbrev pub max_backoff_ms : ℕ
max_backoff_ms = 30000

abbrev pub batch_size : ℕ
batch_size = 100

abbrev pub verification_sample_size : ℕ
verification_sample_size = 50

-- The three tables, `pii_encrypted_fields` in the order of `created_at`; a count that tells one request
-- to the KMS, or one nonce, from the next; how many ids were drawn; how long the retries have slept.
pub record Database (Buffer : Type 0) : Type 0 where
  pub fields : List (EncryptedRecord Buffer)
  pub batches : Assoc KeyRotationBatchRecord
  pub records : List (RotationRecord Buffer)
  pub calls : ℕ
  pub uuids : ℕ
  pub slept_ms : ℕ

module _ {Buffer : Type 0} where
  -- `UPDATE key_rotation_batch SET f WHERE id = $1`.
  abbrev pub update_batch :
      String → (KeyRotationBatchRecord → KeyRotationBatchRecord) → Database Buffer → Database Buffer
  update_batch id f db = elim (lookup id db.batches) [
    | none ↦ db
    | some b ↦ record db { batches = insert id (f b) db.batches }
  ]

  abbrev pub rewrap : String → Buffer → String → EncryptedRecord Buffer → EncryptedRecord Buffer
  rewrap id wrapped kek r =
      if r.id same id then record r { dek_wrapped = wrapped; dek_kek_id = kek } else r

  -- `UPDATE pii_encrypted_fields SET dek_wrapped, dek_kek_id WHERE id = $3`.
  abbrev pub update_field : String → Buffer → String → Database Buffer → Database Buffer
  update_field id wrapped kek db = record db { fields = map (rewrap id wrapped kek) db.fields }

  -- `INSERT INTO key_rotation_record ... ON CONFLICT DO NOTHING`. The column `batch_id` is not null, and
  -- `ON CONFLICT` covers the uniqueness of `id` only.
  unfoldable pub insert_checkpoint :
      Option String
      → EncryptedRecord Buffer
      → Database Buffer
      → Result KeyRotationError (Unit {0}) × Database Buffer
  insert_checkpoint none r db = (err (database_error null_batch_id), db)
  insert_checkpoint (some batch_id) r db =
      if any (λ c. c.id same r.id) db.records then (ok tt, db) else (
        ok tt,
        record db {
          records =
              db.records
              ++ (record {
                id = r.id;
                batch_id = batch_id;
                table_name = r.table_name;
                record_id = r.id;
                field_name = r.field_name;
                status = rotated;
                new_dek_wrapped = none;
                failure_reason = none;
              })
                ∷ [];
        },
      )

  -- The row of a record that could not be rotated, under an id drawn for it.
  abbrev pub insert_failure :
      (ℕ → String) → String → EncryptedRecord Buffer → ErrorText → Database Buffer → Database Buffer
  insert_failure uuid batch_id r reason db = record db {
    records =
        db.records
        ++ (record {
          id = uuid db.uuids;
          batch_id = batch_id;
          table_name = r.table_name;
          record_id = r.id;
          field_name = r.field_name;
          status = failed;
          new_dek_wrapped = none;
          failure_reason = some reason;
        })
          ∷ [];
    uuids = db.uuids + 1;
  }
