-- ===== src/Challenge/Once.antt =====
-- challengeNonceService.ts: the requests to consume a challenge that follow one that the database answered.
use Prim.Native.String.{String}
use remitlend.Base.{
  or_false, ℕ, zero, suc, ◌≤◌, ◌≡◌, refl, Bool, true, false, ◌&&◌, Option, none, some, List, [],
  ◌∷◌, ◌++◌, any, All, filter, length, ltb, leb, if◌then◌else◌, arith, tests,
}
use remitlend.Base.Assoc.{◌same◌}
use remitlend.Base.Result.{Result, ok, err}
use remitlend.Challenge.{
  ChallengeMessage, ChallengeError, nonce_row, insert_nonce, store_challenge, consume_found,
  ChallengePlatform, NonceRow, is_issued, is_open, delete_expired, consume_rows, ChallengeEvent,
  issues, consumes, generate_challenge, issue_challenge, consume_challenge, apply_challenge,
  apply_challenges, cleanup_batch_size,
}

module _ (test : NonceRow → Bool) (now : ℕ) where
  abbrev pub IsSpent : NonceRow → Type 0
  IsSpent r = (test r && is_open now r) ≡ false

  false_twice : (a b : Bool) → (a && (b && false)) ≡ false
  false_twice true true = refl
  false_twice true false = refl
  false_twice false b = refl

  marked-IsSpent : (at : ℕ) (r : NonceRow) → IsSpent (record r { consumed_at = some at })
  marked-IsSpent at r =
      false_twice (test (record r { consumed_at = some at })) (ltb now r.expires_at)

  -- A row that an `UPDATE` changes is consumed; another stays as it was.
  consume-IsSpent :
      (at : ℕ) (other : NonceRow → Bool) (rs : List NonceRow)
      → All IsSpent rs
      → All IsSpent (consume_rows at other rs).1
  consume-IsSpent at other [] h = tt
  consume-IsSpent at other (r ∷ rs) h =
      (updated (other r && is_open at r) h.0, consume-IsSpent at other rs h.1)
    where
      updated :
          (b : Bool) → IsSpent r → IsSpent (if b then record r { consumed_at = some at } else r)
      updated true s = marked-IsSpent at r
      updated false s = s

  -- The `UPDATE` on its own rows leaves none of them open.
  spend-IsSpent : (rs : List NonceRow) → All IsSpent (consume_rows now test rs).1
  spend-IsSpent [] = tt
  spend-IsSpent (r ∷ rs) = (updated (test r && is_open now r) refl, spend-IsSpent rs)
    where
      updated :
          (b : Bool)
          → (test r && is_open now r) ≡ b
          → IsSpent (if b then record r { consumed_at = some now } else r)
      updated true e = marked-IsSpent now r
      updated false e = e

  delete-IsSpent :
      (n at : ℕ) (rs : List NonceRow) → All IsSpent rs → All IsSpent (delete_expired n at rs)
  delete-IsSpent zero at rs h = h
  delete-IsSpent (suc n) at [] h = h
  delete-IsSpent (suc n) at (r ∷ rs) h =
      kept (leb r.expires_at at) (delete-IsSpent n at rs h.1) (delete-IsSpent (suc n) at rs h.1)
    where
      kept :
          (b : Bool)
          → All IsSpent (delete_expired n at rs)
          → All IsSpent (delete_expired (suc n) at rs)
          → All IsSpent (if b then delete_expired n at rs else r ∷ delete_expired (suc n) at rs)
      kept true fewer rest = fewer
      kept false fewer rest = (h.0, rest)

  append-IsSpent :
      (rs : List NonceRow) (r : NonceRow) → All IsSpent rs → IsSpent r → All IsSpent (rs ++ r ∷ [])
  append-IsSpent [] r h s = (s, tt)
  append-IsSpent (_ ∷ rs) r h s = (h.0, append-IsSpent rs r h.1 s)

  -- A row that is not open now is not open later.
  later-IsSpent :
      (later : ℕ) (r : NonceRow) → now ≤ later → IsSpent r → (test r && is_open later r) ≡ false
  later-IsSpent later r le h = grind tests

  none_counted :
      (later : ℕ) (rs : List NonceRow)
      → now ≤ later
      → All IsSpent rs
      → length (filter (λ r. test r && is_open later r) rs) ≡ 0
  none_counted later [] le h = refl
  none_counted later (r ∷ rs) le h =
      rw (later-IsSpent later r le h.0) (none_counted later rs le h.1)

consume_found-refused :
    (platform : ChallengePlatform) (f : Bool) (now later : ℕ) (key message : String)
    (found : String × ℕ) (rows : List NonceRow)
    → now ≤ later
    → All
        (IsSpent (is_issued (platform.sha256 found.0) (platform.sha256 message) key found.1) now)
        rows
    → ¬ ((consume_found platform f later key message (some found) rows).0 ≡ ok true)
consume_found-refused platform true now later key message found rows le h = λ e. cc
consume_found-refused platform false now later key message found rows le h =
    rw
      (none_counted (is_issued (platform.sha256 found.0) (platform.sha256 message) key found.1) now
        later rows le h)
      (λ e. cc)

-- Issuing a challenge with this nonce's hash.
unfoldable pub reissues : ChallengePlatform → String → ChallengeEvent → Bool
reissues platform hash (issues _ _ nonce _ _) = platform.sha256 nonce same hash
reissues platform hash (consumes _ _ _ _) = false

module _ (platform : ChallengePlatform) (nonce_hash message_hash public_key : String)
    (issued_at_ms now : ℕ) where
  abbrev own : NonceRow → Bool
  own = is_issued nonce_hash message_hash public_key issued_at_ms

  insert-IsSpent :
      (taken : Bool) (key : String) (challenge : ChallengeMessage) (rows : List NonceRow)
      → (platform.sha256 challenge.nonce same nonce_hash) ≡ false
      → All (IsSpent own now) rows
      → All (IsSpent own now) (insert_nonce platform taken key challenge rows).1
  insert-IsSpent true key challenge rows differs h = h
  insert-IsSpent false key challenge rows differs h =
      append-IsSpent own now rows (nonce_row platform key challenge) h (rw differs refl)

  store-IsSpent :
      (db_fails : Bool) (at : ℕ) (key : String) (generated : Result ChallengeError ChallengeMessage)
      (rows : List NonceRow)
      → ((challenge : ChallengeMessage)
          → generated ≡ ok challenge
          → (platform.sha256 challenge.nonce same nonce_hash) ≡ false)
      → All (IsSpent own now) rows
      → All (IsSpent own now) (store_challenge platform db_fails at key generated rows).1
  store-IsSpent db_fails at key (err e) rows differs h = h
  store-IsSpent true at key (ok challenge) rows differs h = h
  store-IsSpent false at key (ok challenge) rows differs h =
      insert-IsSpent (any (λ r. r.nonce_hash same platform.sha256 challenge.nonce) kept) key
        challenge kept (differs challenge refl)
        (delete-IsSpent own now cleanup_batch_size at rows h)
    where
      kept : List NonceRow
      kept = delete_expired cleanup_batch_size at rows

  nonce-generate_challenge :
      (nonce : String) (timestamp : ℕ) (key : String) (challenge : ChallengeMessage)
      → generate_challenge platform nonce timestamp key ≡ ok challenge
      → challenge.nonce ≡ nonce
  unfolding generate_challenge
  nonce-generate_challenge nonce timestamp key challenge e = ground arith

  consume_found-IsSpent :
      (f : Bool) (at : ℕ) (key message : String) (found : Option (String × ℕ))
      (rows : List NonceRow)
      → All (IsSpent own now) rows
      → All (IsSpent own now) (consume_found platform f at key message found rows).1
  consume_found-IsSpent f at key message none rows h = h
  consume_found-IsSpent true at key message (some found) rows h = h
  consume_found-IsSpent false at key message (some found) rows h =
      consume-IsSpent own now at
        (is_issued (platform.sha256 found.0) (platform.sha256 message) key found.1) rows h

  apply-IsSpent :
      (e : ChallengeEvent) (rows : List NonceRow)
      → reissues platform nonce_hash e ≡ false
      → All (IsSpent own now) rows
      → All (IsSpent own now) (apply_challenge platform e rows)
  unfolding apply_challenge issue_challenge consume_challenge reissues
  apply-IsSpent (issues f at nonce t key) rows differs h =
      store-IsSpent f at key (generate_challenge platform nonce t key) rows
        (λ challenge e. rw (nonce-generate_challenge nonce t key challenge e) differs) h
  apply-IsSpent (consumes f at key message) rows differs h =
      consume_found-IsSpent f at key message (platform.match_message message) rows h

  applies-IsSpent :
      (es : List ChallengeEvent) (rows : List NonceRow)
      → any (reissues platform nonce_hash) es ≡ false
      → All (IsSpent own now) rows
      → All (IsSpent own now) (apply_challenges platform es rows)
  unfolding apply_challenges
  applies-IsSpent [] rows differs h = h
  applies-IsSpent (e ∷ es) rows differs h =
      applies-IsSpent es (apply_challenge platform e rows) sides.1 (apply-IsSpent e rows sides.0 h)
    where
      sides :
          (reissues platform nonce_hash e ≡ false) × (any (reissues platform nonce_hash) es ≡ false)
      sides =
          or_false (reissues platform nonce_hash e) (any (reissues platform nonce_hash) es) differs

-- When a challenge's message names a nonce and the database has answered a request to consume it, then
-- whatever challenges are issued with other nonces and whatever else is consumed, at any times and with any
-- failures of the database, no later request with the same key and message is told that it was consumed.
pub consumed_once :
    (platform : ChallengePlatform) (rows : List NonceRow) (events : List ChallengeEvent)
    (key message nonce : String) (issued_at now later : ℕ) (db_fails : Bool)
    → platform.match_message message ≡ some (nonce, issued_at)
    → any (reissues platform (platform.sha256 nonce)) events ≡ false
    → now ≤ later
    → ¬ (
        (consume_challenge platform db_fails later key message (
          apply_challenges platform events
            (consume_challenge platform false now key message rows).1)).0
        ≡ ok true)
unfolding consume_challenge
consumed_once platform rows events key message nonce issued_at now later db_fails matched others
      le =
    let own = is_issued (platform.sha256 nonce) (platform.sha256 message) key issued_at in
    rw matched (
      consume_found-refused platform db_fails now later key message (nonce, issued_at) _ le
        (applies-IsSpent platform (platform.sha256 nonce) (platform.sha256 message) key issued_at
          now events _ others (spend-IsSpent own now rows)))
