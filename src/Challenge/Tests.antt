-- ===== src/Challenge/Tests.antt =====
-- challengeNonceService.ts: two challenges, of which the first is consumed twice.
use remitlend.Base.{◌≡◌, refl, true, false, none, some, List, [], ◌∷◌, if◌then◌else◌, arith}
use remitlend.Base.Assoc.{◌same◌}
use remitlend.Base.Result.{ok, err}
use remitlend.Challenge.{
  ChallengePlatform, NonceRow, invalid_public_key, generate_challenge, nonce_row, ChallengeEvent,
  issues, consumes, issue_challenge, consume_challenge, apply_challenges,
}
use remitlend.Challenge.Once.{reissues, consumed_once}

abbrev platform : ChallengePlatform
platform = record {
  sha256 = λ s. s;
  is_valid_key = λ k. k same "G";
  show_ms = λ n. "1000";
  match_message = λ m. if m same "first" then some ("aa", 1000) else none;
}

abbrev first_rows : List NonceRow
first_rows =
    nonce_row platform "G"
      (record { message = "first"; nonce = "aa"; timestamp = 1000; expires_in = 300000 })
    ∷ []

abbrev traffic : List (ChallengeEvent)
traffic = issues false 1200 "bb" 1200 "G" ∷ consumes false 1300 "G" "first" ∷ []

consumed_first : (consume_challenge platform false 1100 "G" "first" first_rows).0 ≡ ok true
unfolding consume_challenge
consumed_first = refl

issued_rows : (issue_challenge platform false 1200 "bb" 1200 "X" []).0 ≡ err invalid_public_key
unfolding issue_challenge generate_challenge
issued_rows = refl

consumed_once_example : ¬ (
    (consume_challenge platform false 1400 "G" "first" (
      apply_challenges platform traffic
        (consume_challenge platform false 1100 "G" "first" first_rows).1)).0
    ≡ ok true)
unfolding reissues
consumed_once_example =
    consumed_once platform first_rows traffic "G" "first" "aa" 1000 1100 1400 false refl refl
      (omega arith)
