-- ===== src/Signer/Tests.antt =====
-- signerPolicy.ts: two calls for one request, after each other and at the same time.
use remitlend.Base.{[], ◌∷◌, ◌≡◌, refl, true, none, some, [], ◌∷◌, arith}
use remitlend.Base.Int.{pos, ◌-ℤ◌}
use remitlend.Signer.{
  SignRequest, SignDenialReason, SignerPolicy, SignerPlatform, testnet, invoke_contract, signed_by,
  denied, validate_sign_request, age_denial, check, new_replay_guard, default_signer_policy,
}
use remitlend.Signer.Signing.{Raced, answered, begin_sign, end_sign, sign, SignerSelectionConfig}
use remitlend.Signer.Replays.{SignCall, sign_all, signs_once}
use remitlend.Signer.Races.{signs_twice}

-- A platform on which every text matches every expression and was issued at 1000.
abbrev plain_platform : SignerPlatform
plain_platform = record {
  matches = λ e s. true;
  byte_length = λ s. 4;
  date_parse = λ s. some (pos 1000);
}

abbrev policy_example : SignerPolicy
policy_example = record default_signer_policy {
  allowed_contracts = "C" ∷ [];
  allowed_operations = invoke_contract ∷ [];
}

abbrev request_one : SignRequest
request_one = record {
  network = testnet;
  contract_id = "C";
  operation = invoke_contract;
  payload = "AAAA";
  nonce = "n1";
  issued_at = "then";
}

abbrev answer_one : Raced
answer_one = answered (signed_by "sig" "kms")

validates_one : validate_sign_request plain_platform request_one policy_example 2000 ≡ none
unfolding validate_sign_request age_denial ◌-ℤ◌
validates_one = refl

signs_one :
    (sign plain_platform policy_example request_one 2000 2100 answer_one new_replay_guard).0
    ≡ signed_by "sig" "kms"
unfolding sign begin_sign end_sign validate_sign_request age_denial check ◌-ℤ◌
signs_one = refl

-- Another request that is signed in between.
abbrev call_between : SignCall
call_between = record {
  request = record request_one { nonce = "n2" };
  begun_at = 2200;
  ended_at = 2300;
  raced = answer_one;
}

signs_once_example :
    (reason : SignDenialReason) × ((sign plain_platform policy_example request_one 3000 3100
        answer_one
        (sign_all plain_platform policy_example
          (call_between ∷ [])
          (sign plain_platform policy_example request_one 2000 2100 answer_one
            new_replay_guard).1)).0
      ≡ denied reason)
signs_once_example =
    signs_once plain_platform policy_example request_one 2000 2100 3000 3100 answer_one answer_one
      new_replay_guard "sig" "kms" (call_between ∷ []) (omega arith) (omega arith) signs_one
      ((omega arith, omega arith), tt)

signs_twice_example :
    let (denial, g1) = begin_sign plain_platform policy_example request_one 2000 new_replay_guard in
    let (denial', g2) = begin_sign plain_platform policy_example request_one 2000 g1 in
    let (result, g3) = end_sign request_one 2100 (answered (signed_by "sig" "kms")) g2 in
    let (result', g4) = end_sign request_one 2200 (answered (signed_by "gis" "kms")) g3 in
    (denial ≡ none)
    × (denial' ≡ none)
    × (result ≡ signed_by "sig" "kms")
    × (result' ≡ signed_by "gis" "kms")
signs_twice_example =
    signs_twice plain_platform policy_example request_one 2000 2000 2100 2200 new_replay_guard "sig"
      "gis" "kms" validates_one validates_one refl

abbrev production_example : SignerSelectionConfig
production_example = record {
  node_env = some "production";
  allow_local_signer = true;
  external_configured = true;
  local_configured = true;
}
