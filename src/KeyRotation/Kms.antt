-- ===== src/KeyRotation/Kms.antt =====
-- `wrapDek`, `unwrapDek` and `validateKekAccess` of backend/src/services/keyRotationService.ts. The KMS
-- behind `PII_KMS_ENDPOINT`, `fetch` and the cipher of `node:crypto` are parameters; an answer of the KMS
-- depends on how many requests it has had. Metrics and logs are left out.
use Prim.Native.String.{String}
use text.Mathlib.Text.{find?}
use remitlend.Base.{ℕ, ◌≡◌, refl, Bool, true, false, not, ◌&&◌, none, some, leb, if◌then◌else◌}
use remitlend.Base.Result.{Result, ok, err}
use remitlend.KeyRotation.{
  ErrorText, thrown, kms_returned, null_batch_id, records_failed_to_rotate, failed_to_rotate,
  KeyRotationError, kms_unwrap_error, kms_wrap_error, decryption_error, kms_access_denied,
}

-- What the race of a request against its timeout gives: a response with its body, or a rejection.
pub data Fetched (A : Type 0) : Type 0 where
  response : ℕ → A → Fetched A
  rejected : String → Fetched A

pub record Platform (Buffer : Type 0) : Type 0 where
  -- Whether `PII_KMS_ENDPOINT` is set.
  pub has_endpoint : Bool
  pub validate_key : ℕ → String → Fetched (Unit {0})
  pub decrypt : ℕ → String → Buffer → Fetched Buffer
  pub encrypt : ℕ → String → Buffer → Fetched Buffer
  -- AES-256-GCM under `PII_KEK_KEY`, with the drawn nonce numbered.
  pub local_decrypt : Buffer → Result String Buffer
  pub local_encrypt : ℕ → Buffer → Buffer
  pub uuid : ℕ → String

-- `response.ok`.
abbrev pub is_ok : ℕ → Bool
is_ok status = leb 200 status && leb status 299

abbrev pub includes : String → String → Bool
includes s t = elim (find? s t) [ none ↦ false | some _ ↦ true ]

-- `message.includes('timeout')`; the templates do not hold the word.
abbrev pub includes_timeout : ErrorText → Bool
includes_timeout (thrown s) = includes s "timeout"
includes_timeout (kms_returned _) = false
includes_timeout null_batch_id = false
includes_timeout (records_failed_to_rotate _) = false
includes_timeout (failed_to_rotate _ t) = includes_timeout t

module _ {Buffer : Type 0} (platform : Platform Buffer) where
  -- An answer that is not ok is thrown inside the `try`, so its own `retryable` is lost in the `catch`.
  unfoldable pub unwrap_dek : ℕ → Buffer → String → Result KeyRotationError Buffer
  unwrap_dek call dek_wrapped kek_id =
      if platform.has_endpoint
      then elim (platform.decrypt call kek_id dek_wrapped) [
        | response status plaintext ↦
            if not (is_ok status)
            then err
                (kms_unwrap_error (kms_returned status) (includes_timeout (kms_returned status)))
            else ok plaintext
        | rejected m ↦ err (kms_unwrap_error (thrown m) (includes_timeout (thrown m)))
      ]
      else elim (platform.local_decrypt dek_wrapped) [
        | ok dek ↦ ok dek
        | err m ↦ err (decryption_error (thrown m) false)
      ]

  unfoldable pub wrap_dek : ℕ → Buffer → String → Result KeyRotationError Buffer
  wrap_dek call dek kek_id =
      if platform.has_endpoint
      then elim (platform.encrypt call kek_id dek) [
        | response status wrapped_key ↦
            if not (is_ok status)
            then err (kms_wrap_error (kms_returned status) (includes_timeout (kms_returned status)))
            else ok wrapped_key
        | rejected m ↦ err (kms_wrap_error (thrown m) (includes_timeout (thrown m)))
      ]
      else ok (platform.local_encrypt call dek)

  unfoldable pub validate_kek_access : ℕ → String → Result KeyRotationError (Unit {0})
  validate_kek_access call kek_id =
      if not platform.has_endpoint then ok tt else elim (platform.validate_key call kek_id) [
        | response status _ ↦
            if not (is_ok status) then err (kms_access_denied (kms_returned status)) else ok tt
        | rejected m ↦ err (kms_access_denied (thrown m))
      ]

  -- Without a KMS the id of the KEK plays no part: a key wrapped for one KEK opens under any other.
  pub local_rotation_keeps_kek :
      (call later : ℕ) (dek : Buffer) (old_kek_id new_kek_id : String)
      → platform.has_endpoint ≡ false
      → ((c : ℕ) (d : Buffer) → platform.local_decrypt (platform.local_encrypt c d) ≡ ok d)
      → (w : Buffer) × (wrap_dek call dek new_kek_id ≡ ok w)
        × (unwrap_dek later w old_kek_id ≡ ok dek)
  unfolding wrap_dek unwrap_dek
  local_rotation_keeps_kek call later dek old_kek_id new_kek_id local round =
      (platform.local_encrypt call dek, rw local refl, rw (local, round call dek) refl)
