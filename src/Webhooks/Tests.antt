-- ===== src/Webhooks/Tests.antt =====
-- webhookService.ts: one delivery, one owner's subscription, and a small payload.
use Prim.Native.String.{String}
use remitlend.Base.{ℕ, ◌<◌, ◌≡◌, refl, ◌⊎◌, true, false, none, some, List, [], ◌∷◌, arith}
use remitlend.Base.Result.{ok, err}
use remitlend.Webhooks.{Delivery, response, failed, send_to_webhook, get_retry_delay_ms}
use remitlend.Webhooks.Phases.{IsWaiting}
use remitlend.Webhooks.Interleaving.{DeliveryEvent, reads, writes, redrives, apply_delivery_events}
use remitlend.Webhooks.Fates.{HasFate, delivery_never_lost}
use remitlend.Webhooks.Payload.{
  Payload, text, number, PreparedPayload, summary_exceeds_limit, summarize_oversized_minimal,
  prepare_webhook_payload, Fits, prepare_webhook_payload-Fits,
}
use remitlend.Webhooks.Subscriptions.{
  WebhookSubscription, SubscriptionOp, registers, updates, deletes, apply_ops, no_subscriptions,
}
use remitlend.Webhooks.Audit.{IsAudited, audit_replays_table}
use remitlend.Webhooks.Owners.{others_change_nothing}

-- Its first attempt was answered with 500.
abbrev refused : Delivery ℕ
refused = send_to_webhook 1000 1 7 "e1" "LoanRepaid" 5 (response 500)

first_retry : refused.next_retry_at ≡ some 301000
unfolding send_to_webhook get_retry_delay_ms
first_retry = refl

-- Two retries that overlap, and a re-drive between their answers.
abbrev some_events : List DeliveryEvent
some_events =
    reads false 301000
    ∷ reads false 311000
    ∷ writes 1 320000 (failed "timeout")
    ∷ redrives 330000 "admin"
    ∷ writes 0 340000 (response 503)
    ∷ []

delivery_never_lost_example :
    HasFate {P = ℕ}
      (apply_delivery_events some_events (record {
        row = send_to_webhook 1000 1 7 "e1" "LoanRepaid" 5 (response 500);
        in_flight = [];
      })).row
delivery_never_lost_example =
    delivery_never_lost 1000 1 7 "e1" "LoanRepaid" 5 (response 500) some_events

-- It has one attempt left.
abbrev last_chance : Delivery ℕ
last_chance = record refused { attempt_count = 3; next_retry_at = some 2000 }

last_chance-IsWaiting : IsWaiting last_chance
unfolding send_to_webhook
last_chance-IsWaiting = record {
  at = 2000;
  undelivered = refl;
  retry = refl;
  not_dead = refl;
  below = omega arith;
}

abbrev a_payload : Payload
a_payload = ("eventId", text "e1") ∷ ("ledger", number 9) ∷ []

abbrev stringify : Payload → String
stringify _ = "{}"

abbrev byte_length : String → ℕ
byte_length _ = 2

prepare_webhook_payload-Fits_example :
    ((prepared : PreparedPayload) × (prepare_webhook_payload stringify byte_length 64 a_payload
        ≡ ok prepared)
      × Fits stringify byte_length 64 "e1" prepared)
    ⊎ ((prepare_webhook_payload stringify byte_length 64 a_payload ≡ err (summary_exceeds_limit 64))
        × (64
            < byte_length (
                stringify
                  (summarize_oversized_minimal a_payload (byte_length (stringify a_payload)) 64))))
prepare_webhook_payload-Fits_example =
    prepare_webhook_payload-Fits stringify byte_length 64 a_payload "e1" refl

abbrev registered : List SubscriptionOp
registered = registers "GA" "https://a.example/hook" ("LoanRepaid" ∷ []) none ∷ []

abbrev by_others : List SubscriptionOp
by_others = updates 1 "GB" (some "https://b.example/hook") none ∷ deletes 1 "GB" ∷ []

abbrev the_subscription : WebhookSubscription
the_subscription = record {
  owner_public_key = "GA";
  callback_url = "https://a.example/hook";
  event_types = "LoanRepaid" ∷ [];
  secret = none;
  is_active = true;
}

audit_replays_table_example :
    IsAudited (apply_ops by_others (apply_ops registered no_subscriptions))
unfolding apply_ops
audit_replays_table_example = audit_replays_table (
    registers "GA" "https://a.example/hook" ("LoanRepaid" ∷ []) none
    ∷ updates 1 "GB" (some "https://b.example/hook") none
    ∷ deletes 1 "GB"
    ∷ [])

registered_row : (apply_ops registered no_subscriptions).rows 1 ≡ some the_subscription
unfolding apply_ops
registered_row = refl

others_change_nothing_example :
    (apply_ops by_others (apply_ops registered no_subscriptions)).rows 1 ≡ some the_subscription
others_change_nothing_example =
    others_change_nothing registered by_others 1 the_subscription registered_row (refl, (refl, tt))
