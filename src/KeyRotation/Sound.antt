-- ===== src/KeyRotation/Sound.antt =====
-- What the KMS and the cipher promise of the wrapped keys of
-- backend/src/services/keyRotationService.ts, and what `unwrapDek` and `wrapDek` give then.
use Prim.Native.String.{String}
use remitlend.Base.{ℕ, ◌≡◌, refl, ◌⊎◌, inl, inr, true, false, Bool-cases, arith}
use remitlend.Base.Result.{Result, ok, err}
use remitlend.KeyRotation.Kms.{Platform, Fetched, response, rejected, is_ok, unwrap_dek, wrap_dek}

-- What the KMS and the cipher promise: `opens kek w` is the key that `w` holds under a KEK, an answer of
-- the KMS that is ok is that key or a wrapping of it, and so is what the cipher gives without a KMS.
pub record IsSound {Buffer : Type 0} (platform : Platform Buffer) (opens : String → Buffer → Buffer)
    : Type 0 where
  pub decrypted :
      (call status : ℕ) (kek : String) (w dek : Buffer)
      → platform.decrypt call kek w ≡ response status dek
      → is_ok status ≡ true
      → opens kek w ≡ dek
  pub encrypted :
      (call status : ℕ) (kek : String) (dek w : Buffer)
      → platform.encrypt call kek dek ≡ response status w
      → is_ok status ≡ true
      → opens kek w ≡ dek
  pub deciphered :
      platform.has_endpoint ≡ false
      → (kek : String) (w dek : Buffer) → platform.local_decrypt w ≡ ok dek
      → opens kek w ≡ dek
  pub enciphered :
      platform.has_endpoint ≡ false
      → (call : ℕ) (kek : String) (dek : Buffer) → opens kek (platform.local_encrypt call dek) ≡ dek

Fetched-cases :
    {A : Type 0} (f : Fetched A)
    → ((n : ℕ) × (a : A) × (f ≡ response n a)) ⊎ ((m : String) × (f ≡ rejected m))
Fetched-cases (response n a) = inl (n, a, refl)
Fetched-cases (rejected m) = inr (m, refl)

Result-cases2 : {E A : Type 0} (r : Result E A) → ((a : A) × (r ≡ ok a)) ⊎ ((e : E) × (r ≡ err e))
Result-cases2 (ok a) = inl (a, refl)
Result-cases2 (err e) = inr (e, refl)

module _ {Buffer : Type 0} (platform : Platform Buffer) (opens : String → Buffer → Buffer) where
  pub unwrap_dek-opens :
      (call : ℕ) (w : Buffer) (kek : String) (dek : Buffer)
      → IsSound platform opens
      → unwrap_dek platform call w kek ≡ ok dek
      → opens kek w ≡ dek
  unfolding unwrap_dek
  unwrap_dek-opens call w kek dek sound h = elim (Bool-cases platform.has_endpoint) [
    | inl e ↦ elim (Fetched-cases (platform.decrypt call kek w)) [
      | inl (n, a, f) ↦ elim (Bool-cases (is_ok n)) [
        | inl o ↦ ground (arith, e, f, o, h, sound.decrypted call n kek w a f o)
        | inr o ↦ ground (arith, e, f, o, h)
      ]
      | inr (m, f) ↦ ground (arith, e, f, h)
    ]
    | inr e ↦ elim (Result-cases2 (platform.local_decrypt w)) [
      | inl (a, f) ↦ ground (arith, e, f, h, sound.deciphered e kek w a f)
      | inr (m, f) ↦ ground (arith, e, f, h)
    ]
  ]

  pub wrap_dek-opens :
      (call : ℕ) (dek : Buffer) (kek : String) (w : Buffer)
      → IsSound platform opens
      → wrap_dek platform call dek kek ≡ ok w
      → opens kek w ≡ dek
  unfolding wrap_dek
  wrap_dek-opens call dek kek w sound h = elim (Bool-cases platform.has_endpoint) [
    | inl e ↦ elim (Fetched-cases (platform.encrypt call kek dek)) [
      | inl (n, a, f) ↦ elim (Bool-cases (is_ok n)) [
        | inl o ↦ ground (arith, e, f, o, h, sound.encrypted call n kek dek a f o)
        | inr o ↦ ground (arith, e, f, o, h)
      ]
      | inr (m, f) ↦ ground (arith, e, f, h)
    ]
    | inr e ↦ ground (arith, e, h, sound.enciphered e call kek dek)
  ]
