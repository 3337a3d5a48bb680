-- ===== src/KeyRotation/Fuel.antt =====
-- `rotateRecordWithRetry` of backend/src/services/keyRotationService.ts: its fuel and its backoff.
use Prim.Native.String.{String}
use remitlend.Base.{ℕ, zero, suc, ◌+◌, ◌*◌, ◌≤◌, ◌<◌, ◌≡◌, refl, arith}
use remitlend.KeyRotation.{EncryptedRecord, Database, max_retries}
use remitlend.KeyRotation.Kms.{Platform}
use remitlend.KeyRotation.Execution.{rotation_backoff_ms, rotate_attempt, rotate_record_with_retry}
use remitlend.KeyRotation.Attempt.{attempt_cong}

pub backoff_doubles :
    (a : ℕ) → 1 ≤ a → a < max_retries → rotation_backoff_ms (a + 1) ≡ 2 * rotation_backoff_ms a
unfolding rotation_backoff_ms
backoff_doubles zero h k = absurd (omega (arith, h))
backoff_doubles (suc zero) h k = refl
backoff_doubles (suc (suc zero)) h k = refl
backoff_doubles (suc (suc (suc a))) h k = absurd (omega (arith, k))

pub backoff_at_most : (a : ℕ) → a ≤ max_retries → rotation_backoff_ms a ≤ 2000
unfolding rotation_backoff_ms
backoff_at_most zero h = omega arith
backoff_at_most (suc zero) h = omega arith
backoff_at_most (suc (suc zero)) h = omega arith
backoff_at_most (suc (suc (suc zero))) h = omega arith
backoff_at_most (suc (suc (suc (suc a)))) h = absurd (omega (arith, h))

module _ {Buffer : Type 0} (platform : Platform Buffer) (r : EncryptedRecord Buffer)
    (old new : String) where
  more_fuel :
      (fuel attempt : ℕ) (db : Database Buffer)
      → 1 ≤ fuel
      → max_retries < fuel + attempt
      → rotate_record_with_retry platform fuel r old new attempt db
        ≡ rotate_record_with_retry platform (suc fuel) r old new attempt db
  unfolding rotate_record_with_retry
  more_fuel zero attempt db h k = absurd (omega (arith, h))
  more_fuel (suc fuel) attempt db h k =
      attempt_cong platform r old new (rotate_record_with_retry platform fuel r old new)
        (rotate_record_with_retry platform (suc fuel) r old new) attempt db
        (λ below d. more_fuel fuel (attempt + 1) d (omega (arith, below, k)) (omega (arith, k)))

  -- The fuel never cuts the retries off: with fuel to spare for the attempts that are left, the rotation
  -- satisfies the recursive equation of the source.
  pub rotate_record_with_retry_unfolds :
      (fuel attempt : ℕ) (db : Database Buffer)
      → 1 ≤ fuel
      → max_retries < fuel + attempt
      → rotate_record_with_retry platform fuel r old new attempt db
        ≡ rotate_attempt platform r old new
            (rotate_record_with_retry platform fuel r old new)
            attempt
            db
  unfolding rotate_record_with_retry
  rotate_record_with_retry_unfolds fuel attempt db h k = more_fuel fuel attempt db h k
