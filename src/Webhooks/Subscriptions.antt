-- ===== src/Webhooks/Subscriptions.antt =====
-- backend/src/services/webhookService.ts: webhook subscriptions, and the audit row that each change writes in
-- its transaction. The secret is stored as it is given; dates are left out.
use Prim.Native.String.{String}
use remitlend.Base.{
  ℕ, ◌+◌, Bool, true, false, ◌&&◌, Option, none, some, List, [], ◌∷◌, ◌++◌, filter, ◌==◌,
  if◌then◌else◌,
}
use remitlend.Base.Assoc.{◌same◌}

pub record WebhookSubscription : Type 0 where
  pub owner_public_key : String
  pub callback_url : String
  pub event_types : List String
  pub secret : Option String
  pub is_active : Bool

pub data ChangeType : Type 0 where
  created updated deleted : ChangeType

-- A row of `webhook_subscription_audit`.
pub record AuditRow : Type 0 where
  pub subscription_id : ℕ
  pub owner_public_key : String
  pub change_type : ChangeType
  pub previous_callback_url : Option String
  pub callback_url : Option String
  pub previous_event_types : Option (List String)
  pub event_types : Option (List String)

pub record SubscriptionStore : Type 0 where
  pub rows : ℕ → Option WebhookSubscription
  pub next_id : ℕ
  pub audit : List AuditRow

abbrev pub no_subscriptions : SubscriptionStore
no_subscriptions = record { rows = λ _. none; next_id = 1; audit = [] }

abbrev pub set_subscription : ℕ → Option WebhookSubscription → SubscriptionStore → SubscriptionStore
set_subscription id r s = record s { rows = λ j. if id == j then r else s.rows j }

abbrev pub add_audit : AuditRow → SubscriptionStore → SubscriptionStore
add_audit a s = record s { audit = s.audit ++ a ∷ [] }

-- `registerSubscription`: the new id.
unfoldable pub register_subscription :
    String → String → List String → Option String → SubscriptionStore → ℕ × SubscriptionStore
register_subscription owner url types secret s =
    let id = s.next_id in
    let row : WebhookSubscription = record {
      owner_public_key = owner;
      callback_url = url;
      event_types = types;
      secret = secret;
      is_active = true;
    } in
    (
      id,
      add_audit
          (record {
            subscription_id = id;
            owner_public_key = owner;
            change_type = created;
            previous_callback_url = none;
            callback_url = some url;
            previous_event_types = none;
            event_types = some types;
          })
          (set_subscription id (some row) (record s { next_id = s.next_id + 1 })),
    )

-- `SELECT ... WHERE id = $1 AND owner_public_key = $2`.
abbrev pub owned : Option WebhookSubscription → String → Option WebhookSubscription
owned none owner = none
owned (some w) owner = if w.owner_public_key same owner then some w else none

-- Equality of two lists of texts, which is that of their JSON.
abbrev pub same_types : List String → List String → Bool
same_types [] [] = true
same_types (x ∷ xs) (y ∷ ys) = x same y && same_types xs ys
same_types _ _ = false

abbrev pub or_current : {A : Type 0} → Option A → A → A
or_current none a = a
or_current (some b) _ = b

-- `updateSubscription`; a change that is `none` is left out of the request.
unfoldable pub update_subscription :
    ℕ
    → String
    → Option String
    → Option (List String)
    → SubscriptionStore
    → Option WebhookSubscription × SubscriptionStore
update_subscription id owner url types s = elim (owned (s.rows id) owner) [
  | none ↦ (none, s)
  | some current ↦
      let next_url = or_current url current.callback_url in
      let next_types = or_current types current.event_types in
      let next : WebhookSubscription = record current {
        callback_url = next_url;
        event_types = next_types;
      } in
      if next_url same current.callback_url && same_types next_types current.event_types
      then (some current, s)
      else (
        some next,
        add_audit
            (record {
              subscription_id = id;
              owner_public_key = owner;
              change_type = updated;
              previous_callback_url = some current.callback_url;
              callback_url = some next_url;
              previous_event_types = some current.event_types;
              event_types = some next_types;
            })
            (set_subscription id (some next) s),
      )
]

-- `deleteSubscription`.
unfoldable pub delete_subscription : ℕ → String → SubscriptionStore → Bool × SubscriptionStore
delete_subscription id owner s = elim (owned (s.rows id) owner) [
  | none ↦ (false, s)
  | some current ↦ (
    true,
    set_subscription id none (
        add_audit
          (record {
            subscription_id = id;
            owner_public_key = owner;
            change_type = deleted;
            previous_callback_url = some current.callback_url;
            callback_url = none;
            previous_event_types = some current.event_types;
            event_types = none;
          })
          s),
  )
]

-- `getSubscriptionAuditHistory`, the oldest first.
abbrev pub audit_history : ℕ → String → SubscriptionStore → List AuditRow
audit_history id owner s =
    filter (λ a. a.subscription_id == id && a.owner_public_key same owner) s.audit

pub data SubscriptionOp : Type 0 where
  registers : String → String → List String → Option String → SubscriptionOp
  updates : ℕ → String → Option String → Option (List String) → SubscriptionOp
  deletes : ℕ → String → SubscriptionOp

unfoldable pub apply_op : SubscriptionOp → SubscriptionStore → SubscriptionStore
unfolding register_subscription update_subscription delete_subscription
apply_op (registers owner url types secret) s = (register_subscription owner url types secret s).1
apply_op (updates id owner url types) s = (update_subscription id owner url types s).1
apply_op (deletes id owner) s = (delete_subscription id owner s).1

unfoldable pub apply_ops : List SubscriptionOp → SubscriptionStore → SubscriptionStore
unfolding apply_op
apply_ops [] s = s
apply_ops (o ∷ os) s = apply_ops os (apply_op o s)
