-- ===== src/Signer.antt =====
-- backend/src/services/soroban/signerPolicy.ts: the policy and the replay guard in front of the signer of
-- privileged transactions. The regular expressions' engine, `Buffer.byteLength` and `Date.parse` are
-- arguments. `Date.now()` is an argument too, one for all the reads with no `await` between them. The messages of
-- the denials are left out.
pub mod Signing
pub mod Calls
pub mod Replays
pub mod Races
mod Tests
use Prim.Native.String.{String}
use remitlend.Base.{
  ℕ, zero, suc, ◌+◌, ◌*◌, Bool, true, false, not, ◌&&◌, ◌||◌, Option, none, some, List, [], ◌∷◌,
  ltb, leb, any, if◌then◌else◌,
}
use remitlend.Base.Assoc.{◌same◌, Assoc, lookup, insert}
use remitlend.Base.Int.{ℤ, pos, ◌-ℤ◌, ltb_ℤ}

pub data SignerNetwork : Type 0 where
  testnet mainnet futurenet : SignerNetwork

pub data SignerOperation : Type 0 where
  invoke_contract create_contract upload_wasm extend_footprint_ttl bump_sequence : SignerOperation

abbrev pub network_text : SignerNetwork → String
network_text testnet = "testnet"
network_text mainnet = "mainnet"
network_text futurenet = "futurenet"

abbrev pub operation_text : SignerOperation → String
operation_text invoke_contract = "invoke_contract"
operation_text create_contract = "create_contract"
operation_text upload_wasm = "upload_wasm"
operation_text extend_footprint_ttl = "extend_footprint_ttl"
operation_text bump_sequence = "bump_sequence"

pub record SignRequest : Type 0 where
  pub network : SignerNetwork
  pub contract_id : String
  pub operation : SignerOperation
  pub payload : String
  pub nonce : String
  pub issued_at : String

pub data SignDenialReason : Type 0 where
  policy_denied key_unavailable signer_timeout : SignDenialReason
  replay_detected invalid_payload unauthorized : SignDenialReason

-- A signature with the signer's id, or a denial.
pub data SignResult : Type 0 where
  signed_by : String → String → SignResult
  denied : SignDenialReason → SignResult

pub record SignerPolicy : Type 0 where
  pub allowed_networks : List SignerNetwork
  pub allowed_contracts : List String
  pub allowed_operations : List SignerOperation
  pub max_request_age_ms : ℕ
  pub max_payload_bytes : ℕ

abbrev pub default_signer_policy : SignerPolicy
default_signer_policy = record {
  allowed_networks = testnet ∷ [];
  allowed_contracts = [];
  allowed_operations = [];
  max_request_age_ms = 60000;
  max_payload_bytes = 100000;
}

-- What JavaScript's platform gives: `re.test(s)`, the length in bytes, and the time of a text, if it is one.
pub record SignerPlatform : Type 0 where
  pub matches : String → String → Bool
  pub byte_length : String → ℕ
  pub date_parse : String → Option ℤ

abbrev pub base64_re : String
base64_re = "^[A-Za-z0-9+/]+={0,2}$"

abbrev pub contract_re : String
contract_re = "^C[A-Z2-7]{55}$"

abbrev pub account_re : String
account_re = "^G[A-Z2-7]{55}$"

-- `xs.includes`, for each of the three lists.
abbrev pub includes_text : List String → String → Bool
includes_text xs s = any (λ x. x same s) xs

abbrev pub includes_network : List SignerNetwork → SignerNetwork → Bool
includes_network xs n = any (λ x. network_text x same network_text n) xs

abbrev pub includes_operation : List SignerOperation → SignerOperation → Bool
includes_operation xs o = any (λ x. operation_text x same operation_text o) xs

-- The two tests on the age.
unfoldable pub age_denial : SignerPolicy → ℕ → Option ℤ → Option SignDenialReason
age_denial policy now none = some invalid_payload
age_denial policy now (some issued) =
    if ltb_ℤ (pos policy.max_request_age_ms) (pos now -ℤ issued)
    then some policy_denied
    else if ltb_ℤ (pos policy.max_request_age_ms) (issued -ℤ pos now)
    then some policy_denied
    else none

unfoldable pub validate_sign_request :
    SignerPlatform → SignRequest → SignerPolicy → ℕ → Option SignDenialReason
validate_sign_request p r policy now =
    if not (includes_network policy.allowed_networks r.network)
    then some policy_denied
    else if not (includes_operation policy.allowed_operations r.operation)
    then some policy_denied
    else if not (p.matches contract_re r.contract_id) && not (p.matches account_re r.contract_id)
    then some invalid_payload
    else if not (includes_text policy.allowed_contracts r.contract_id)
    then some policy_denied
    else if (r.payload same "") || not (p.matches base64_re r.payload)
    then some invalid_payload
    else if ltb policy.max_payload_bytes (p.byte_length r.payload)
    then some invalid_payload
    else if r.nonce same ""
    then some invalid_payload
    else age_denial policy now (p.date_parse r.issued_at)

pub record ReplayGuard : Type 0 where
  pub ttl_ms : ℕ
  pub seen : Assoc ℕ

abbrev pub new_replay_guard : ReplayGuard
new_replay_guard = record { ttl_ms = 5 * 60000; seen = [] }

-- `evict`: times are whole, so `now - at > ttl` is `at + ttl < now`.
abbrev pub evict_entries : ℕ → ℕ → Assoc ℕ → Assoc ℕ
evict_entries ttl now [] = []
evict_entries ttl now ((nonce, at) ∷ m) =
    if ltb (at + ttl) now then evict_entries ttl now m else (nonce, at) ∷ evict_entries ttl now m

abbrev pub evict : ℕ → ReplayGuard → ReplayGuard
evict now g = record g { seen = evict_entries g.ttl_ms now g.seen }

abbrev pub is_some : {A : Type 0} → Option A → Bool
is_some none = false
is_some (some _) = true

unfoldable pub check : String → ℕ → ReplayGuard → Bool × ReplayGuard
check nonce now g = let g' = evict now g in (is_some (lookup nonce g'.seen), g')

unfoldable pub consume : String → ℕ → ReplayGuard → ReplayGuard
consume nonce now g = let g' = evict now g in record g' { seen = insert nonce now g'.seen }
