-- ===== src/Webhooks/Phases.antt =====
-- The phases of a delivery of backend/src/services/webhookService.ts: delivered, waiting for its next
-- attempt, or a dead letter.
use Prim.Native.String.{String}
use remitlend.Base.{ℕ, ◌+◌, ◌≤◌, ◌<◌, ◌≡◌, refl, ◌⊎◌, inl, inr, Bool-cases, none, some, arith}
use remitlend.Webhooks.{
  Delivery, Failure, Posted, response, failed, is_ok_status, max_retry_attempts, get_retry_delay_ms,
  send_to_webhook,
}

module _ {P : Type 0} where
  pub record IsDelivered (d : Delivery P) : Type 0 where
    pub at : ℕ
    pub delivered : d.delivered_at ≡ some at
    pub no_retry : d.next_retry_at ≡ none
    pub not_dead : d.dead_lettered_at ≡ none
    pub bounded : d.attempt_count ≤ max_retry_attempts

  pub record IsWaiting (d : Delivery P) : Type 0 where
    pub at : ℕ
    pub undelivered : d.delivered_at ≡ none
    pub retry : d.next_retry_at ≡ some at
    pub not_dead : d.dead_lettered_at ≡ none
    pub below : d.attempt_count < max_retry_attempts

  pub record IsDead (d : Delivery P) : Type 0 where
    pub at : ℕ
    pub reason : Failure
    pub undelivered : d.delivered_at ≡ none
    pub no_retry : d.next_retry_at ≡ none
    pub dead : d.dead_lettered_at ≡ some at
    pub explained : d.dead_letter_reason ≡ some reason
    pub exhausted : d.attempt_count ≡ max_retry_attempts

  abbrev pub HasPhase : Delivery P → Type 0
  HasPhase d = IsDelivered d ⊎ (IsWaiting d ⊎ IsDead d)

  pub send-HasPhase :
      (now id sub : ℕ) (event type : String) (payload : P) (posted : Posted)
      → HasPhase (send_to_webhook now id sub event type payload posted)
  unfolding send_to_webhook
  send-HasPhase now id sub event type payload (response status) =
      elim (Bool-cases (is_ok_status status)) [
        | inl e ↦
            rw (e, send_to_webhook)
              (inl (record {
                at = now;
                delivered = refl;
                no_retry = refl;
                not_dead = refl;
                bounded = omega arith;
              }))
        | inr e ↦
            rw (e, send_to_webhook)
              (inr (
                inl (record {
                  at = now + get_retry_delay_ms 1;
                  undelivered = refl;
                  retry = refl;
                  not_dead = refl;
                  below = omega arith;
                })))
      ]
  send-HasPhase now id sub event type payload (failed m) = inr (
      inl (record {
        at = now + get_retry_delay_ms 1;
        undelivered = refl;
        retry = refl;
        not_dead = refl;
        below = omega arith;
      }))
