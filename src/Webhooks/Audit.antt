-- ===== src/Webhooks/Audit.antt =====
-- The audit rows of webhook subscriptions in backend/src/services/webhookService.ts, and the subscriptions
-- that they describe.
use Prim.Native.String.{String}
use remitlend.Base.{
  ℕ, ◌+◌, ◌≡◌, refl, ◌∙◌, ◌⊎◌, inl, inr, Bool-cases, Option-cases, ◌&&◌, Option, none, some, List,
  [], ◌∷◌, ◌++◌, ◌==◌, if◌then◌else◌,
}
use remitlend.Base.Assoc.{◌same◌}
use remitlend.Webhooks.Subscriptions.{
  WebhookSubscription, deleted, AuditRow, SubscriptionStore, no_subscriptions, set_subscription,
  add_audit, owned, same_types, or_current, register_subscription, update_subscription,
  delete_subscription, SubscriptionOp, registers, updates, deletes, apply_op, apply_ops,
}

-- The abstract view of a subscription: where it is called, and for which events.
abbrev pub View : Type 0
View = Option (Option String × Option (List String))

-- What one audit row makes of the view of an id.
abbrev pub audited : AuditRow → ℕ → View → View
audited a id old =
    if a.subscription_id == id
    then elim a.change_type [ deleted ↦ none | _ ↦ some (a.callback_url, a.event_types) ]
    else old

-- The audit rows read from the oldest on.
abbrev pub replay_from : View → List AuditRow → ℕ → View
replay_from old [] id = old
replay_from old (a ∷ rest) id = replay_from (audited a id old) rest id

abbrev pub view : Option WebhookSubscription → View
view none = none
view (some w) = some (some w.callback_url, some w.event_types)

replay-append :
    (old : View) (xs : List AuditRow) (a : AuditRow) (id : ℕ)
    → replay_from old (xs ++ a ∷ []) id ≡ audited a id (replay_from old xs id)
replay-append old [] a id = refl
replay-append old (x ∷ xs) a id = replay-append (audited x id old) xs a id

-- The audit rows of every id, replayed, give the subscription that is stored under it.
abbrev pub IsAudited : SubscriptionStore → Type 0
IsAudited s = (id : ℕ) → replay_from none s.audit id ≡ view (s.rows id)

IsAudited-step :
    (s : SubscriptionStore) (a : AuditRow) (r : Option WebhookSubscription) (n : ℕ)
    → (elim a.change_type as (λ _. View) [
      | deleted ↦ none
      | _ ↦ some (a.callback_url, a.event_types)
    ])
      ≡ view r
    → IsAudited s
    → IsAudited (add_audit a (set_subscription a.subscription_id r (record s { next_id = n })))
IsAudited-step s a r n e h id = elim (Bool-cases (a.subscription_id == id)) [
  | inl t ↦ replay-append none s.audit a id ∙ (rw t e)
  | inr t ↦ replay-append none s.audit a id ∙ (rw t (h id))
]

owned-cases :
    (o : Option WebhookSubscription) (owner : String)
    → (owned o owner ≡ none) ⊎ ((w : WebhookSubscription) × (owned o owner ≡ some w))
owned-cases o owner = Option-cases (owned o owner)

register-IsAudited :
    (owner url : String) (types : List String) (secret : Option String) (s : SubscriptionStore)
    → IsAudited s
    → IsAudited (register_subscription owner url types secret s).1
unfolding register_subscription
register-IsAudited owner url types secret s h = IsAudited-step s _ _ (s.next_id + 1) refl h

update-IsAudited :
    (n : ℕ) (owner : String) (url : Option String) (types : Option (List String))
    (s : SubscriptionStore)
    → IsAudited s
    → IsAudited (update_subscription n owner url types s).1
unfolding update_subscription
update-IsAudited n owner url types s h = elim (Option-cases (owned (s.rows n) owner)) [
  | inl e ↦ rw (e, update_subscription) h
  | inr (w, e) ↦
      elim (Bool-cases (
        or_current url w.callback_url same w.callback_url
        && same_types (or_current types w.event_types) w.event_types)) [
          | inl t ↦ rw (e, update_subscription, t) h
          | inr t ↦ rw (e, update_subscription, t) (IsAudited-step s _ _ s.next_id refl h)
        ]
]

delete-IsAudited :
    (n : ℕ) (owner : String) (s : SubscriptionStore)
    → IsAudited s
    → IsAudited (delete_subscription n owner s).1
unfolding delete_subscription
delete-IsAudited n owner s h = elim (Option-cases (owned (s.rows n) owner)) [
  | inl e ↦ rw (e, delete_subscription) h
  | inr (w, e) ↦ rw (e, delete_subscription) (IsAudited-step s _ none s.next_id refl h)
]

apply_op-IsAudited :
    (o : SubscriptionOp) (s : SubscriptionStore) → IsAudited s → IsAudited (apply_op o s)
unfolding apply_op
apply_op-IsAudited (registers owner url types secret) s h =
    register-IsAudited owner url types secret s h
apply_op-IsAudited (updates n owner url types) s h = update-IsAudited n owner url types s h
apply_op-IsAudited (deletes n owner) s h = delete-IsAudited n owner s h

apply_ops-IsAudited :
    (os : List SubscriptionOp) (s : SubscriptionStore) → IsAudited s → IsAudited (apply_ops os s)
unfolding apply_ops
apply_ops-IsAudited [] s h = h
apply_ops-IsAudited (o ∷ os) s h = apply_ops-IsAudited os (apply_op o s) (apply_op-IsAudited o s h)

-- After any registrations, updates and deletions, by whatever owners, the audit rows alone give the table:
-- replayed from the oldest on, those of an id give the address and the events of the subscription stored
-- under it, and nothing where there is none.
pub audit_replays_table : (os : List SubscriptionOp) → IsAudited (apply_ops os no_subscriptions)
audit_replays_table os = apply_ops-IsAudited os no_subscriptions (λ id. refl)
