-- ===== src/Webhooks/Fates.antt =====
-- webhookService.ts: what holds of a delivery whatever the order of its retries' reads and writes and its
-- re-drives.
use Prim.Native.String.{String}
use remitlend.Base.{
  ℕ, zero, suc, ◌+◌, ◌≤◌, ◌<◌, ◌≡◌, refl, ◌⊎◌, inl, inr, Bool, true, false, Bool-cases, Option,
  none, some, List, [], ◌∷◌, some_inj, get_elem?, All, ltb, arith,
}
use remitlend.Webhooks.{
  Delivery, Failure, returned_status, threw, Posted, response, failed, is_ok_status, is_none,
  is_due, max_retry_attempts, send_to_webhook, record_failed_attempt, retry_webhook_delivery,
  process_retries, redrive_dead_letter,
}
use remitlend.Webhooks.Interleaving.{
  DeliveryEvent, reads, writes, redrives, remove_at, Sending, start_request, end_request,
  apply_delivery_event, apply_delivery_events,
}

remove_at-below :
    (i : ℕ) (ns : List ℕ)
    → All (λ n. n < max_retry_attempts) ns
    → All (λ n. n < max_retry_attempts) (remove_at i ns)
remove_at-below i [] h = h
remove_at-below zero (n ∷ ns) h = h.1
remove_at-below (suc i) (n ∷ ns) h = (h.0, remove_at-below i ns h.1)

get_elem-below :
    (ns : List ℕ) (i n : ℕ)
    → All (λ n. n < max_retry_attempts) ns
    → get_elem? ns i ≡ some n
    → n < max_retry_attempts
get_elem-below [] i n h e = absurd (cc)
get_elem-below (m ∷ ns) zero n h e = omega (arith, h.0, some_inj e)
get_elem-below (m ∷ ns) (suc i) n h e = get_elem-below ns i n h.1 e

module _ {P : Type 0} where
  -- What holds of the row whatever the order.
  pub record HasFate (d : Delivery P) : Type 0 where
    pub bounded : d.attempt_count ≤ max_retry_attempts
    pub scheduled :
        is_none d.next_retry_at ≡ false
        → (is_none d.dead_lettered_at ≡ true) × (d.attempt_count < max_retry_attempts)
    pub kept :
        is_none d.delivered_at ≡ true
        → (is_none d.next_retry_at ≡ false) ⊎ (is_none d.dead_lettered_at ≡ false)
    pub explained : is_none d.dead_letter_reason ≡ is_none d.dead_lettered_at

  send-HasFate :
      (now id sub : ℕ) (event type : String) (payload : P) (posted : Posted)
      → HasFate (send_to_webhook now id sub event type payload posted)
  unfolding send_to_webhook
  send-HasFate now id sub event type payload (response status) =
      elim (Bool-cases (is_ok_status status)) [
        | inl e ↦
            rw (e, send_to_webhook)
              (record {
                bounded = omega (arith);
                scheduled = λ e. absurd (cc);
                kept = λ e. absurd (cc);
                explained = refl;
              })
        | inr e ↦
            rw (e, send_to_webhook)
              (record {
                bounded = omega (arith);
                scheduled = λ e. (refl, omega arith);
                kept = λ e. inl refl;
                explained = refl;
              })
      ]
  send-HasFate now id sub event type payload (failed m) = record {
    bounded = omega (arith);
    scheduled = λ e. (refl, omega arith);
    kept = λ e. inl refl;
    explained = refl;
  }

  record_failed_attempt-HasFate :
      (now attempts : ℕ) (e : Failure) (d : Delivery P)
      → attempts < max_retry_attempts
      → HasFate (record_failed_attempt now (attempts + 1) e d)
  unfolding record_failed_attempt
  record_failed_attempt-HasFate now attempts e d l =
      elim (Bool-cases (ltb (attempts + 1) max_retry_attempts)) [
        | inl t ↦
            rw (t, record_failed_attempt)
              (record {
                bounded = omega (arith, l);
                scheduled = λ e. (refl, ground (arith, t));
                kept = λ e. inl refl;
                explained = refl;
              })
        | inr t ↦
            rw (t, record_failed_attempt)
              (record {
                bounded = omega (arith, l);
                scheduled = λ e. absurd (cc);
                kept = λ e. inr refl;
                explained = refl;
              })
      ]

  with_status :
      (status : ℕ) (d : Delivery P)
      → HasFate d
      → HasFate (record d { last_status_code = some status })
  with_status status d h = record {
    bounded = h.bounded;
    scheduled = h.scheduled;
    kept = h.kept;
    explained = h.explained;
  }

  retry-HasFate :
      (now : ℕ) (posted : Posted) (attempts : ℕ) (d : Delivery P)
      → attempts < max_retry_attempts
      → HasFate d
      → HasFate (retry_webhook_delivery now posted attempts d)
  unfolding retry_webhook_delivery
  retry-HasFate now (response status) attempts d l h = elim (Bool-cases (is_ok_status status)) [
    | inl e ↦
        rw (e, retry_webhook_delivery)
          (record {
            bounded = omega (arith, l);
            scheduled = λ e. absurd (cc);
            kept = λ e. absurd (cc);
            explained = h.explained;
          })
    | inr e ↦
        rw (e, retry_webhook_delivery)
          (with_status status _
            (record_failed_attempt-HasFate now attempts (returned_status status) d l))
  ]
  retry-HasFate now (failed m) attempts d l h =
      record_failed_attempt-HasFate now attempts (threw m) d l

  redrive-HasFate :
      (now : ℕ) (actor : String) (d : Delivery P)
      → HasFate d
      → HasFate (redrive_dead_letter now actor d).1
  unfolding redrive_dead_letter
  redrive-HasFate now actor d h = elim (Bool-cases (is_none d.dead_lettered_at)) [
    | inl a ↦ rw (a, redrive_dead_letter) h
    | inr a ↦ elim (Bool-cases (is_none d.delivered_at)) [
      | inl b ↦
          rw (a, redrive_dead_letter, b)
            (record {
              bounded = omega (arith);
              scheduled = λ e. (refl, omega arith);
              kept = λ e. inl refl;
              explained = refl;
            })
      | inr b ↦ rw (a, redrive_dead_letter, b) h
    ]
  ]

  pub record IsFair (s : Sending P) : Type 0 where
    pub fate : HasFate s.row
    pub below : All (λ n. n < max_retry_attempts) s.in_flight

  read_below :
      (query_fails : Bool) (now : ℕ) (d : Delivery P) (n : ℕ)
      → process_retries query_fails now d ≡ some n
      → n < max_retry_attempts
  unfolding process_retries is_due
  read_below query_fails now d n h = ground arith

  start_request-IsFair :
      (s : Sending P) (o : Option ℕ)
      → ((n : ℕ) → o ≡ some n → n < max_retry_attempts)
      → IsFair s
      → IsFair (start_request s o)
  start_request-IsFair s none l h = h
  start_request-IsFair s (some n) l h = record { fate = h.fate; below = (l n refl, h.below) }

  end_request-IsFair :
      (s : Sending P) (i now : ℕ) (posted : Posted) (o : Option ℕ)
      → ((n : ℕ) → o ≡ some n → n < max_retry_attempts)
      → IsFair s
      → IsFair (end_request s i now posted o)
  end_request-IsFair s i now posted none l h = h
  end_request-IsFair s i now posted (some n) l h = record {
    fate = retry-HasFate now posted n s.row (l n refl) h.fate;
    below = remove_at-below i s.in_flight h.below;
  }

  apply_delivery_event-IsFair :
      (e : DeliveryEvent) (s : Sending P) → IsFair s → IsFair (apply_delivery_event e s)
  unfolding apply_delivery_event
  apply_delivery_event-IsFair (reads query_fails now) s h =
      start_request-IsFair s (process_retries query_fails now s.row)
        (λ n e. read_below query_fails now s.row n e) h
  apply_delivery_event-IsFair (writes i now posted) s h =
      end_request-IsFair s i now posted (get_elem? s.in_flight i)
        (λ n e. get_elem-below s.in_flight i n h.below e) h
  apply_delivery_event-IsFair (redrives now actor) s h = record {
    fate = redrive-HasFate now actor s.row h.fate;
    below = h.below;
  }

  apply_delivery_events-IsFair :
      (es : List DeliveryEvent) (s : Sending P) → IsFair s → IsFair (apply_delivery_events es s)
  unfolding apply_delivery_events
  apply_delivery_events-IsFair [] s h = h
  apply_delivery_events-IsFair (e ∷ es) s h =
      apply_delivery_events-IsFair es (apply_delivery_event e s) (apply_delivery_event-IsFair e s h)

  -- Whatever the order in which retries, overlapping ones too, read and write a delivery after its first
  -- attempt, and operators re-drive it: it has at most four attempts; if a retry is to come it is no dead
  -- letter and has fewer than four; if it is not delivered a retry is to come or it is a dead letter; and a
  -- reason stands with it exactly when it is a dead letter.
  pub delivery_never_lost :
      (now id sub : ℕ) (event type : String) (payload : P) (posted : Posted)
      (es : List DeliveryEvent)
      → HasFate
          (apply_delivery_events es (record {
            row = send_to_webhook now id sub event type payload posted;
            in_flight = [];
          })).row
  delivery_never_lost now id sub event type payload posted es =
      (apply_delivery_events-IsFair es _
        (record { fate = send-HasFate now id sub event type payload posted; below = tt })).fate
