-- ===== src/Signer/Signing.antt =====
-- signerPolicy.ts: the signers. A call of `sign` in front of the inner signer is two pieces of code with the
-- inner signer's work between them: up to the `await`, and from its answer on.
use Prim.Native.String.{String}
use remitlend.Base.{ℕ, Bool, false, not, ◌&&◌, Option, none, some, if◌then◌else◌}
use remitlend.Base.Assoc.{◌same◌}
use remitlend.Base.Result.{Result, ok, err}
use remitlend.Signer.{
  SignRequest, SignResult, signed_by, denied, SignDenialReason, key_unavailable, signer_timeout,
  replay_detected, SignerPolicy, SignerPlatform, validate_sign_request, ReplayGuard, check, consume,
}

-- What the race between the inner signer and the timer gives.
pub data Raced : Type 0 where
  answered : SignResult → Raced
  threw timed_out : Raced

-- The code before the `await`: a denial, or none, and the inner signer is called.
unfoldable pub begin_sign :
    SignerPlatform
    → SignerPolicy
    → SignRequest
    → ℕ
    → ReplayGuard
    → Option SignDenialReason × ReplayGuard
begin_sign p policy r now g = elim (validate_sign_request p r policy now) [
  | some reason ↦ (some reason, g)
  | none ↦
      let (replayed, g') = check r.nonce now g in
      (if replayed then some replay_detected else none, g')
]

-- The code after it.
unfoldable pub end_sign : SignRequest → ℕ → Raced → ReplayGuard → SignResult × ReplayGuard
end_sign r now (answered (signed_by signature id)) g =
    (signed_by signature id, consume r.nonce now g)
end_sign r now (answered (denied reason)) g = (denied reason, g)
end_sign r now timed_out g = (denied signer_timeout, g)
end_sign r now threw g = (denied key_unavailable, g)

-- `PolicyEnforcedSigner.sign` with no other call in between.
unfoldable pub sign :
    SignerPlatform
    → SignerPolicy
    → SignRequest
    → ℕ
    → ℕ
    → Raced
    → ReplayGuard
    → SignResult × ReplayGuard
sign p policy r now later raced g =
    let (denial, g') = begin_sign p policy r now g in
    elim denial [ some reason ↦ (denied reason, g') | none ↦ end_sign r later raced g' ]

abbrev pub local_signer_id : String
local_signer_id = "local-test-signer"

-- `LocalTestSigner.sign` and `ExternalKmsSigner.sign`, for what the function or the transport gave.
unfoldable pub local_sign : Result String String → SignResult
local_sign (ok signature) = signed_by signature local_signer_id
local_sign (err _) = denied key_unavailable

unfoldable pub external_sign : String → Result String String → SignResult
external_sign id (ok signature) =
    if signature same "" then denied key_unavailable else signed_by signature id
external_sign id (err _) = denied key_unavailable

-- A signer, as far as its selection reads it.
pub data SignerKind : Type 0 where
  local_signer external_signer : SignerKind

pub data SelectError : Type 0 where
  production_needs_external no_signer : SelectError

pub record SignerSelectionConfig : Type 0 where
  pub node_env : Option String
  pub allow_local_signer : Bool
  pub external_configured : Bool
  pub local_configured : Bool

abbrev pub is_production : Option String → Bool
is_production none = false
is_production (some env) = env same "production"

unfoldable pub select_signer : SignerSelectionConfig → Result SelectError SignerKind
select_signer c =
    if is_production c.node_env
    then (if not c.external_configured then err production_needs_external else ok external_signer)
    else if c.allow_local_signer && c.local_configured
    then ok local_signer
    else if c.external_configured
    then ok external_signer
    else err no_signer
