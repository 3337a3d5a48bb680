-- ===== src/Webhooks.antt =====
-- backend/src/services/webhookService.ts: the deliveries of webhooks, their retries and dead letters. A row
-- of `webhook_deliveries` is a record, and each statement on it a function; the joined subscription, what
-- the request is signed with, and logs are left out. A retry is cut at its request: what it reads before, and
-- what it writes after. `Date.now()` and `NOW()` are arguments.
pub mod Phases
pub mod Lifecycle
pub mod Interleaving
pub mod Fates
pub mod Overlaps
pub mod Payload
pub mod Subscriptions
pub mod Audit
pub mod Owners
mod Tests
use Prim.Native.String.{String}
use remitlend.Base.{
  ℕ, ◌+◌, ◌*◌, ◌-◌, ◌≤◌, Bool, true, false, ◌&&◌, Option, none, some, List, [], ◌∷◌, get_elem?, ltb,
  leb, if◌then◌else◌, min,
}

-- The milliseconds of `RETRY_DELAYS_MS`.
abbrev pub retry_delays_ms : List ℕ
retry_delays_ms = 5 * 60 * 1000 ∷ 15 * 60 * 1000 ∷ 45 * 60 * 1000 ∷ []

abbrev pub max_retry_attempts : ℕ
max_retry_attempts = 4

abbrev delay_or : Option ℕ → ℕ → ℕ
delay_or none d = d
delay_or (some n) _ = n

-- The index of the source stays at 0 or more, as subtraction does here.
unfoldable pub get_retry_delay_ms : ℕ → ℕ
get_retry_delay_ms attempt_number =
    delay_or (get_elem? retry_delays_ms (min (attempt_number - 1) 2)) (45 * 60 * 1000)

-- What went wrong: the template of a refused request, or the message of what `fetch` threw.
pub data Failure : Type 0 where
  returned_status : ℕ → Failure
  threw : String → Failure

pub record Delivery (P : Type 0) : Type 0 where
  pub id : ℕ
  pub subscription_id : ℕ
  pub event_id : String
  pub event_type : String
  pub attempt_count : ℕ
  pub last_status_code : Option ℕ
  pub last_error : Option Failure
  pub delivered_at : Option ℕ
  pub payload : P
  pub next_retry_at : Option ℕ
  pub dead_lettered_at : Option ℕ
  -- The failure that `redactFailureSummary` shortens.
  pub dead_letter_reason : Option Failure
  pub delivery_generation : ℕ
  pub last_redriven_at : Option ℕ
  pub last_redriven_by : Option String

-- What `postWebhook` gives: the status of a response, or an error.
pub data Posted : Type 0 where
  response : ℕ → Posted
  failed : String → Posted

-- `response.ok`.
abbrev pub is_ok_status : ℕ → Bool
is_ok_status status = leb 200 status && leb status 299

abbrev pub is_none : {A : Type 0} → Option A → Bool
is_none none = true
is_none (some _) = false

abbrev pub is_retry_past : ℕ → Option ℕ → Bool
is_retry_past now none = false
is_retry_past now (some t) = leb t now

module _ {P : Type 0} where
  -- The row that a first attempt inserts: `sendToWebhook`.
  unfoldable pub send_to_webhook : ℕ → ℕ → ℕ → String → String → P → Posted → Delivery P
  send_to_webhook now id subscription_id event_id event_type payload posted =
      let fresh : Delivery P = record {
        id = id;
        subscription_id = subscription_id;
        event_id = event_id;
        event_type = event_type;
        attempt_count = 1;
        last_status_code = none;
        last_error = none;
        delivered_at = none;
        payload = payload;
        next_retry_at = none;
        dead_lettered_at = none;
        dead_letter_reason = none;
        delivery_generation = 1;
        last_redriven_at = none;
        last_redriven_by = none;
      } in
      elim posted [
        | response status ↦
            if is_ok_status status
            then record fresh { last_status_code = some status; delivered_at = some now }
            else record fresh {
              last_status_code = some status;
              last_error = some (returned_status status);
              next_retry_at = some (now + get_retry_delay_ms 1);
            }
        | failed message ↦ record fresh {
          last_error = some (threw message);
          next_retry_at = some (now + get_retry_delay_ms 1);
        }
      ]

  -- `WHERE` of the query in `processRetries`.
  unfoldable pub is_due : ℕ → Delivery P → Bool
  is_due now d =
      is_none d.delivered_at
      && is_retry_past now d.next_retry_at
      && ltb d.attempt_count max_retry_attempts
      && is_none d.dead_lettered_at

  -- The columns that a failed attempt writes, besides the status code.
  unfoldable pub record_failed_attempt : ℕ → ℕ → Failure → Delivery P → Delivery P
  record_failed_attempt now new_attempt_count error d =
      let next_retry_time : Option ℕ =
        if ltb new_attempt_count max_retry_attempts
        then some (now + get_retry_delay_ms new_attempt_count)
        else none in
      record d {
        attempt_count = new_attempt_count;
        last_error = some error;
        next_retry_at = next_retry_time;
        dead_lettered_at = elim next_retry_time [ none ↦ some now | some _ ↦ none ];
        dead_letter_reason = elim next_retry_time [ none ↦ some error | some _ ↦ none ];
      }

  -- `retryWebhookDelivery`, from the answer to its request on: the number of attempts is the one that was read
  -- before the request, and the row the one that the `UPDATE` finds.
  unfoldable pub retry_webhook_delivery : ℕ → Posted → ℕ → Delivery P → Delivery P
  unfolding record_failed_attempt
  retry_webhook_delivery now posted attempt_count d =
      let new_attempt_count = attempt_count + 1 in
      elim posted [
        | response status ↦
            if is_ok_status status
            then record d {
              attempt_count = new_attempt_count;
              last_status_code = some status;
              delivered_at = some now;
              last_error = none;
              next_retry_at = none;
            }
            else record (record_failed_attempt now new_attempt_count (returned_status status) d) {
              last_status_code = some status;
            }
        | failed message ↦ record_failed_attempt now new_attempt_count (threw message) d
      ]

  -- What `processRetries` reads of one row, up to the request: the number of attempts, if it retries the row.
  -- Its query may fail, which ends the run.
  unfoldable pub process_retries : Bool → ℕ → Delivery P → Option ℕ
  unfolding is_due
  process_retries query_fails now d =
      if query_fails
      then none
      else if is_due now d
      then (if leb max_retry_attempts d.attempt_count then none else some d.attempt_count)
      else none

  -- `redriveDeadLetter`: the row, and the generation that is returned if the row was re-driven.
  unfoldable pub redrive_dead_letter : ℕ → String → Delivery P → Option ℕ × Delivery P
  redrive_dead_letter now actor d =
      if is_none d.dead_lettered_at
      then (none, d)
      else if is_none d.delivered_at
      then (
        some (d.delivery_generation + 1),
        record d {
          dead_lettered_at = none;
          dead_letter_reason = none;
          attempt_count = 0;
          delivery_generation = d.delivery_generation + 1;
          next_retry_at = some now;
          last_redriven_at = some now;
          last_redriven_by = some actor;
        },
      )
      else (none, d)

  -- `WHERE` of the query in `listDeadLetters`.
  abbrev pub is_listed : Delivery P → Bool
  is_listed d = if is_none d.dead_lettered_at then false else is_none d.delivered_at
