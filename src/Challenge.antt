-- ===== src/Challenge.antt =====
-- backend/src/services/challengeNonceService.ts: the one-time challenges of the login, and
-- `generateChallenge` of backend/src/services/authService.ts. The table's rows stand in the order of
-- `expires_at`, as they are issued; its key is `nonce_hash`. The regular expression, the digest, the random
-- nonce, the clocks and whether the database fails are parameters; a database that fails does so before the
-- operation's first statement. Metrics and logs are left out.
pub mod Once
mod Tests
use Prim.Native.String.{String, ◌++◌}
use remitlend.Base.{
  ℕ, zero, suc, ◌+◌, ◌*◌, Bool, true, false, ◌&&◌, not, Option, none, some, List, [], ◌∷◌,
  ◌++◌ as ◌++ₗ◌, map, any, filter, length, ltb, leb, ◌==◌, if◌then◌else◌,
}
use remitlend.Base.Assoc.{◌same◌}
use remitlend.Base.Result.{Result, ok, err}

pub record ChallengePlatform : Type 0 where
  pub sha256 : String → String
  pub is_valid_key : String → Bool
  pub show_ms : ℕ → String
  -- `CHALLENGE_MESSAGE_PATTERN.exec`: the nonce, and the time as a number.
  pub match_message : String → Option (String × ℕ)

abbrev pub challenge_ttl_ms : ℕ
challenge_ttl_ms = 5 * 60 * 1000

abbrev pub cleanup_batch_size : ℕ
cleanup_batch_size = 500

pub data ChallengeError : Type 0 where
  invalid_public_key service_unavailable : ChallengeError

pub record ChallengeMessage : Type 0 where
  pub message : String
  pub nonce : String
  pub timestamp : ℕ
  pub expires_in : ℕ

pub record NonceRow : Type 0 where
  pub nonce_hash : String
  pub message_hash : String
  pub public_key : String
  pub issued_at_ms : ℕ
  pub expires_at : ℕ
  pub consumed_at : Option ℕ

abbrev pub is_unused : Option ℕ → Bool
is_unused none = true
is_unused (some _) = false

-- `DELETE` of at most so many rows that have expired, the oldest first.
abbrev pub delete_expired : ℕ → ℕ → List NonceRow → List NonceRow
delete_expired zero now rs = rs
delete_expired (suc n) now [] = []
delete_expired (suc n) now (r ∷ rs) =
    let fewer = delete_expired n now rs in
    let rest = delete_expired (suc n) now rs in if leb r.expires_at now then fewer else r ∷ rest

-- The conditions of the `UPDATE` on what was issued, and all of them.
abbrev pub is_issued : String → String → String → ℕ → NonceRow → Bool
is_issued nonce_hash message_hash public_key issued_at_ms r =
    (r.nonce_hash same nonce_hash)
    && ((r.message_hash same message_hash)
        && ((r.public_key same public_key) && r.issued_at_ms == issued_at_ms))

abbrev pub is_open : ℕ → NonceRow → Bool
is_open now r = ltb now r.expires_at && is_unused r.consumed_at

-- The `UPDATE` of `consumeChallenge`: the rows, and how many it changed.
abbrev pub consume_rows : ℕ → (NonceRow → Bool) → List NonceRow → ℕ × List NonceRow
consume_rows now test rows = (
  length (filter (λ r. test r && is_open now r) rows),
  map {A = NonceRow}
      (λ r. if test r && is_open now r then record r { consumed_at = some now } else r) rows,
)

pub data ChallengeEvent : Type 0 where
  issues : Bool → ℕ → String → ℕ → String → ChallengeEvent
  consumes : Bool → ℕ → String → String → ChallengeEvent

module _ (platform : ChallengePlatform) where
  unfoldable pub generate_challenge : String → ℕ → String → Result ChallengeError ChallengeMessage
  generate_challenge nonce timestamp public_key =
      if not (platform.is_valid_key public_key)
      then err invalid_public_key
      else ok (record {
        message =
            "Sign this message to authenticate with RemitLend.\n\nNonce: "
            ++ (nonce
                ++ ("\nTimestamp: "
                    ++ (platform.show_ms timestamp
                        ++ "\n\nThis request will expire in 5 minutes.")));
        nonce = nonce;
        timestamp = timestamp;
        expires_in = challenge_ttl_ms;
      })

  abbrev pub nonce_row : String → ChallengeMessage → NonceRow
  nonce_row public_key challenge = record {
    nonce_hash = platform.sha256 challenge.nonce;
    message_hash = platform.sha256 challenge.message;
    public_key = public_key;
    issued_at_ms = challenge.timestamp;
    expires_at = challenge.timestamp + challenge_ttl_ms;
    consumed_at = none;
  }

  -- The `INSERT`, told whether the key is taken.
  abbrev pub insert_nonce :
      Bool
      → String
      → ChallengeMessage
      → List NonceRow
      → Result ChallengeError ChallengeMessage × List NonceRow
  insert_nonce true public_key challenge rows = (err service_unavailable, rows)
  insert_nonce false public_key challenge rows =
      (ok challenge, rows ++ₗ nonce_row public_key challenge ∷ [])

  -- `issueChallenge` once `generateChallenge` has returned or thrown; `now` is the database's clock.
  abbrev pub store_challenge :
      Bool
      → ℕ
      → String
      → Result ChallengeError ChallengeMessage
      → List NonceRow
      → Result ChallengeError ChallengeMessage × List NonceRow
  store_challenge db_fails now public_key (err e) rows = (err e, rows)
  store_challenge true now public_key (ok challenge) rows = (err service_unavailable, rows)
  store_challenge false now public_key (ok challenge) rows =
      let kept = delete_expired cleanup_batch_size now rows in
      insert_nonce (any (λ r. r.nonce_hash same platform.sha256 challenge.nonce) kept) public_key
        challenge kept

  -- `issueChallenge` when its nonce and its time are drawn.
  unfoldable pub issue_challenge :
      Bool
      → ℕ
      → String
      → ℕ
      → String
      → List NonceRow
      → Result ChallengeError ChallengeMessage × List NonceRow
  issue_challenge db_fails now nonce timestamp public_key rows =
      store_challenge db_fails now public_key (generate_challenge nonce timestamp public_key) rows

  -- `consumeChallenge` when its message is matched.
  abbrev pub consume_found :
      Bool
      → ℕ
      → String
      → String
      → Option (String × ℕ)
      → List NonceRow
      → Result ChallengeError Bool × List NonceRow
  consume_found db_fails now public_key message none rows = (ok false, rows)
  consume_found true now public_key message (some _) rows = (err service_unavailable, rows)
  consume_found false now public_key message (some found) rows =
      let run =
        consume_rows now
          (is_issued (platform.sha256 found.0) (platform.sha256 message) public_key found.1) rows in
      (ok (run.0 == 1), run.1)

  unfoldable pub consume_challenge :
      Bool → ℕ → String → String → List NonceRow → Result ChallengeError Bool × List NonceRow
  consume_challenge db_fails now public_key message rows =
      consume_found db_fails now public_key message (platform.match_message message) rows

  unfoldable pub apply_challenge : ChallengeEvent → List NonceRow → List NonceRow
  unfolding issue_challenge consume_challenge
  apply_challenge (issues db_fails now nonce timestamp public_key) rows =
      (issue_challenge db_fails now nonce timestamp public_key rows).1
  apply_challenge (consumes db_fails now public_key message) rows =
      (consume_challenge db_fails now public_key message rows).1

  unfoldable pub apply_challenges : List ChallengeEvent → List NonceRow → List NonceRow
  unfolding apply_challenge
  apply_challenges [] rows = rows
  apply_challenges (e ∷ es) rows = apply_challenges es (apply_challenge e rows)
