-- ===== src/Webhooks/Interleaving.antt =====
-- webhookService.ts: the retries of one delivery and its re-drives, in any order. The timer starts a run every
-- ten seconds whether or not the one before is over, so that retries of one row may overlap.
use Prim.Native.String.{String}
use remitlend.Base.{ℕ, zero, suc, Bool, Option, none, some, List, [], ◌∷◌, get_elem?}
use remitlend.Webhooks.{
  Delivery, Posted, retry_webhook_delivery, process_retries, redrive_dead_letter,
}

-- A run of the retries reads the row; one of those whose request is answered writes it; an operator re-drives.
pub data DeliveryEvent : Type 0 where
  reads : Bool → ℕ → DeliveryEvent
  writes : ℕ → ℕ → Posted → DeliveryEvent
  redrives : ℕ → String → DeliveryEvent

abbrev pub remove_at : ℕ → List ℕ → List ℕ
remove_at i [] = []
remove_at zero (x ∷ xs) = xs
remove_at (suc i) (x ∷ xs) = x ∷ remove_at i xs

module _ (P : Type 0) where
  -- The row, and what the retries read whose request has no answer yet.
  pub record Sending : Type 0 where
    pub row : Delivery P
    pub in_flight : List ℕ

module _ {P : Type 0} where
  abbrev pub start_request : Sending P → Option ℕ → Sending P
  start_request s none = s
  start_request s (some attempts) = record s { in_flight = attempts ∷ s.in_flight }

  abbrev pub end_request : Sending P → ℕ → ℕ → Posted → Option ℕ → Sending P
  end_request s i now posted none = s
  end_request s i now posted (some attempts) = record {
    row = retry_webhook_delivery now posted attempts s.row;
    in_flight = remove_at i s.in_flight;
  }

  unfoldable pub apply_delivery_event : DeliveryEvent → Sending P → Sending P
  apply_delivery_event (reads query_fails now) s =
      start_request s (process_retries query_fails now s.row)
  apply_delivery_event (writes i now posted) s =
      end_request s i now posted (get_elem? s.in_flight i)
  apply_delivery_event (redrives now actor) s = record s {
    row = (redrive_dead_letter now actor s.row).1;
  }

  unfoldable pub apply_delivery_events : List DeliveryEvent → Sending P → Sending P
  apply_delivery_events [] s = s
  apply_delivery_events (e ∷ es) s = apply_delivery_events es (apply_delivery_event e s)
