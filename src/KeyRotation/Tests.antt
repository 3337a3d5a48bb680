-- ===== src/KeyRotation/Tests.antt =====
-- keyRotationService.ts: a table of two rows, and a KMS whose wrapped keys are the keys.
use Prim.Native.String.{String}
use remitlend.Base.{
  ◌+◌, ◌&&◌, ltb, ℕ, ◌≤◌, ◌≡◌, refl, true, false, none, some, List, [], ◌∷◌, replicate, take,
  length, arith, ◌==◌,
}
use remitlend.Base.Assoc.{lookup}
use remitlend.Base.Result.{ok, err}
use remitlend.KeyRotation.{
  EncryptedRecord, Database, KeyRotationBatchRecord, KeyRotationError, RotationRecord, pending,
  rotation_failed, batch_size,
}
use remitlend.KeyRotation.Kms.{Platform, response, rejected, wrap_dek, unwrap_dek}
use remitlend.KeyRotation.Execution.{
  is_retryable, rotate_once, message, on_kek, scan, rotate_record_with_retry,
}
use remitlend.KeyRotation.Operations.{
  execute_rotation, complete_guard, verify_rotation, rollback_rotation,
}
use remitlend.KeyRotation.Retrying.{all_retried, after_attempts, rotate_record_with_retry_ends}
use remitlend.KeyRotation.Sound.{IsSound}
use remitlend.KeyRotation.Fields.{deks}
use remitlend.KeyRotation.Batch.{batch_after, execute_rotation-batch}
use remitlend.KeyRotation.Steps.{Steps, runs, verifies, stays, follows}
use remitlend.KeyRotation.Verifying.{rollback_reverts_nothing, operations_keep_deks}
use remitlend.KeyRotation.Outage.{run_times, outage_never_stops}
use remitlend.KeyRotation.Completing.{old_kek_revoked_in_use}

abbrev kms : Platform ℕ
kms = record {
  has_endpoint = true;
  validate_key = λ _ _. response 200 tt;
  decrypt = λ _ _ w. response 200 w;
  encrypt = λ _ _ d. response 200 d;
  local_decrypt = λ w. ok w;
  local_encrypt = λ _ d. d;
  uuid = λ _. "failure";
}

abbrev no_kms : Platform ℕ
no_kms = record kms { has_endpoint = false }

abbrev silent_kms : Platform ℕ
silent_kms = record kms { decrypt = λ _ _ _. rejected "KMS timeout" }

abbrev opens : String → ℕ → ℕ
opens _ w = w

kms-IsSound : IsSound kms opens
kms-IsSound = record {
  decrypted = λ call status kek w dek e o. cc;
  encrypted = λ call status kek dek w e o. cc;
  deciphered = λ local kek w dek e. cc;
  enciphered = λ local call kek dek. refl;
}

abbrev row : String → ℕ → EncryptedRecord ℕ
row id key = record {
  id = id;
  table_name = "user_profiles";
  field_name = "phone";
  ciphertext = 0;
  gcm_nonce = 0;
  dek_wrapped = key;
  dek_kek_id = "old";
  encrypted_value = none;
}

abbrev a_batch : KeyRotationBatchRecord
a_batch = record {
  old_kek_id = "old";
  new_kek_id = "new";
  status = pending;
  last_rotated_record_id = none;
  total_records_scanned = 0;
  total_records_rotated = 0;
  total_records_failed = 0;
  initiated_by = "admin";
  initiated_at = 0;
  completed_at = none;
  rolled_back_at = none;
  failure_reason = none;
  last_error_code = none;
  verification_passed = none;
  verification_sample_size = none;
  verification_checked_at = none;
  request_id = "r";
}

abbrev with_batch : KeyRotationBatchRecord → List (EncryptedRecord ℕ) → Database ℕ
with_batch b rows = record {
  fields = rows;
  batches = ("b", b) ∷ [];
  records = [];
  calls = 0;
  uuids = 0;
  slept_ms = 0;
}

abbrev two_rows : Database ℕ
two_rows = with_batch a_batch (row "x" 7 ∷ row "y" 8 ∷ [])

-- Both keys are rewrapped.
two_rows_rotated : on_kek "old" (execute_rotation kms 5 "b" two_rows).1.fields ≡ []
unfolding execute_rotation unwrap_dek wrap_dek
two_rows_rotated = refl

abbrev resumed : KeyRotationBatchRecord
resumed = record a_batch { last_rotated_record_id = some "w" }

abbrev one_left : Database ℕ
one_left = with_batch resumed (row "x" 7 ∷ [])

abbrev many_rows : Database ℕ
many_rows = with_batch a_batch (replicate 101 (row "x" 7))

abbrev pick : ℕ → List (RotationRecord ℕ) → List (RotationRecord ℕ)
pick = take

abbrev some_steps :
    Steps kms pick two_rows
      (verify_rotation kms pick 6 "b" (execute_rotation kms 5 "b" two_rows).1).1
some_steps =
    follows (follows (stays two_rows) (runs 5 "b" two_rows))
      (verifies 6 "b" (execute_rotation kms 5 "b" two_rows).1)

abbrev ran : Steps kms pick two_rows (execute_rotation kms 5 "b" two_rows).1
ran = follows (stays two_rows) (runs 5 "b" two_rows)

operations_keep_deks_example :
    deks opens (verify_rotation kms pick 6 "b" (execute_rotation kms 5 "b" two_rows).1).1
    ≡ deks opens two_rows
operations_keep_deks_example =
    operations_keep_deks kms pick opens two_rows
      (verify_rotation kms pick 6 "b" (execute_rotation kms 5 "b" two_rows).1).1 kms-IsSound
      ((refl, tt), (tt, tt)) some_steps

execute_rotation-batch_example :
    ((execute_rotation kms 5 "b" two_rows).0 ≡ ok (length (scan a_batch two_rows) == batch_size))
    × (lookup "b" (execute_rotation kms 5 "b" two_rows).1.batches
        ≡ some (batch_after "b" 5 a_batch (scan a_batch two_rows)))
execute_rotation-batch_example = execute_rotation-batch "b" kms 5 a_batch two_rows refl

old_kek_revoked_in_use_example :
    (complete_guard "b" (verify_rotation kms pick 5 "b" (execute_rotation kms 5 "b" one_left).1).1
      ≡ ok tt)
    × (on_kek "old"
          (verify_rotation kms pick 5 "b" (execute_rotation kms 5 "b" one_left).1).1.fields
        ≡ row "x" 7 ∷ [])
old_kek_revoked_in_use_example =
    old_kek_revoked_in_use kms pick 5 "b" one_left one_left resumed "w" (row "x" 7) refl refl
      (stays one_left) refl refl refl

rollback_reverts_nothing_example :
    ((rollback_rotation 7 "b" "audit" (execute_rotation kms 5 "b" two_rows).1).1.fields
      ≡ (execute_rotation kms 5 "b" two_rows).1.fields)
    × ((rollback_rotation 7 "b" "audit" (execute_rotation kms 5 "b" two_rows).1).1.records
        ≡ (execute_rotation kms 5 "b" two_rows).1.records)
rollback_reverts_nothing_example =
    rollback_reverts_nothing kms pick two_rows (execute_rotation kms 5 "b" two_rows).1 7 "b" "audit"
      refl ran

outage_never_stops_example :
    (execute_rotation silent_kms 3 "b" (run_times silent_kms (1 ∷ 2 ∷ []) "b" many_rows)).0
    ≡ ok true
outage_never_stops_example =
    outage_never_stops silent_kms "KMS timeout" refl (λ _ _ _. refl) (1 ∷ 2 ∷ []) 3 "b" a_batch
      many_rows refl (omega arith)

rotate_record_with_retry_ends_example :
    let out = rotate_record_with_retry silent_kms 3 (row "x" 7) "old" "new" 1 two_rows in
    ((n : ℕ) × (e : KeyRotationError) × (all_retried silent_kms (row "x" 7) "old" "new" 1 n two_rows
        ≡ true)
      × (rotate_once silent_kms
            (row "x" 7)
            "old"
            "new"
            (after_attempts silent_kms (row "x" 7) "old" "new" 1 n two_rows)
          ≡ (err e, out.1))
      × (out.0 ≡ err (rotation_failed "x" (message e)))
      × ((is_retryable e && ltb (1 + n) 3) ≡ false)
      × (1 + n ≤ 3))
    × (out.1.calls ≤ 6)
    × (out.1.slept_ms ≤ 1500)
rotate_record_with_retry_ends_example =
    rotate_record_with_retry_ends silent_kms (row "x" 7) "old" "new" two_rows
