-- ===== src/Webhooks/Owners.antt =====
-- Who may change a webhook subscription: backend/src/services/webhookService.ts.
use Prim.Native.String.{String}
use remitlend.Base.{
  ℕ, ◌≤◌, ◌≡◌, refl, ◌∙◌, ◌⊎◌, inl, inr, false, Bool-cases, Option-cases, ◌&&◌, Option, none, some,
  List, [], ◌∷◌, All, arith, ◌==◌, ==_iff,
}
use remitlend.Base.Assoc.{◌same◌}
use remitlend.Webhooks.Subscriptions.{
  WebhookSubscription, SubscriptionStore, no_subscriptions, owned, same_types, or_current,
  register_subscription, update_subscription, delete_subscription, SubscriptionOp, registers,
  updates, deletes, apply_op, apply_ops,
}

-- The ids from the next one on are free.
abbrev AreFree : SubscriptionStore → Type 0
AreFree s = (j : ℕ) → s.next_id ≤ j → s.rows j ≡ none

-- An update or a deletion is another owner's; a registration may be anyone's.
abbrev pub IsByOther : String → SubscriptionOp → Type 0
IsByOther owner (registers _ _ _ _) = Unit
IsByOther owner (updates _ actor _ _) = (owner same actor) ≡ false
IsByOther owner (deletes _ actor) = (owner same actor) ≡ false

owned-other :
    (w : WebhookSubscription) (actor : String)
    → (w.owner_public_key same actor) ≡ false
    → owned (some w) actor ≡ none
owned-other w actor h = rw h refl

-- The row that an update or a deletion of another id leaves.
update-rows :
    (n : ℕ) (actor : String) (url : Option String) (types : Option (List String))
    (s : SubscriptionStore) (j : ℕ)
    → (owned (s.rows n) actor ≡ none) ⊎ ((n == j) ≡ false)
    → (update_subscription n actor url types s).1.rows j ≡ s.rows j
unfolding update_subscription
update-rows n actor url types s j h = elim (Option-cases (owned (s.rows n) actor)) [
  | inl e ↦ rw (e, update_subscription) refl
  | inr (w, e) ↦
      elim (Bool-cases (
        or_current url w.callback_url same w.callback_url
        && same_types (or_current types w.event_types) w.event_types)) [
          | inl t ↦ rw (e, update_subscription, t) refl
          | inr t ↦ rw (e, update_subscription, t) (ground (arith, h, e))
        ]
]

delete-rows :
    (n : ℕ) (actor : String) (s : SubscriptionStore) (j : ℕ)
    → (owned (s.rows n) actor ≡ none) ⊎ ((n == j) ≡ false)
    → (delete_subscription n actor s).1.rows j ≡ s.rows j
unfolding delete_subscription
delete-rows n actor s j h = elim (Option-cases (owned (s.rows n) actor)) [
  | inl e ↦ rw (e, delete_subscription) refl
  | inr (w, e) ↦ rw (e, delete_subscription) (ground (arith, h, e))
]

-- Either the id is another, or its row is not the actor's.
target-cases :
    (n j : ℕ) (actor : String) (w : WebhookSubscription) (s : SubscriptionStore)
    → s.rows j ≡ some w
    → (w.owner_public_key same actor) ≡ false
    → (owned (s.rows n) actor ≡ none) ⊎ ((n == j) ≡ false)
target-cases n j actor w s h k = elim (Bool-cases (n == j)) [
  | inl e ↦ inl (rw ((==_iff n j).0 e, h) (owned-other w actor k))
  | inr e ↦ inr e
]

apply_op-rows :
    (o : SubscriptionOp) (j : ℕ) (w : WebhookSubscription) (s : SubscriptionStore)
    → AreFree s
    → s.rows j ≡ some w
    → IsByOther w.owner_public_key o
    → (apply_op o s).rows j ≡ some w
unfolding apply_op register_subscription
apply_op-rows (registers owner url types secret) j w s free h k =
    elim (Bool-cases (s.next_id == j)) [
      | inl e ↦ absurd (ground (arith, e, h, free j))
      | inr e ↦ rw e h
    ]
apply_op-rows (updates n actor url types) j w s free h k =
    update-rows n actor url types s j (target-cases n j actor w s h k) ∙ h
apply_op-rows (deletes n actor) j w s free h k =
    delete-rows n actor s j (target-cases n j actor w s h k) ∙ h

free-cases :
    (n j : ℕ) (actor : String) (s : SubscriptionStore)
    → s.rows j ≡ none
    → (owned (s.rows n) actor ≡ none) ⊎ ((n == j) ≡ false)
free-cases n j actor s h = elim (Bool-cases (n == j)) [
  | inl e ↦ inl (rw ((==_iff n j).0 e, h) refl)
  | inr e ↦ inr e
]

update-next_id :
    (n : ℕ) (actor : String) (url : Option String) (types : Option (List String))
    (s : SubscriptionStore)
    → (update_subscription n actor url types s).1.next_id ≡ s.next_id
unfolding update_subscription
update-next_id n actor url types s = elim (Option-cases (owned (s.rows n) actor)) [
  | inl e ↦ rw (e, update_subscription) refl
  | inr (w, e) ↦
      elim (Bool-cases (
        or_current url w.callback_url same w.callback_url
        && same_types (or_current types w.event_types) w.event_types)) [
          | inl t ↦ rw (e, update_subscription, t) refl
          | inr t ↦ rw (e, update_subscription, t) refl
        ]
]

delete-next_id :
    (n : ℕ) (actor : String) (s : SubscriptionStore)
    → (delete_subscription n actor s).1.next_id ≡ s.next_id
unfolding delete_subscription
delete-next_id n actor s = elim (Option-cases (owned (s.rows n) actor)) [
  | inl e ↦ rw (e, delete_subscription) refl
  | inr (w, e) ↦ rw (e, delete_subscription) refl
]

apply_op-AreFree : (o : SubscriptionOp) (s : SubscriptionStore) → AreFree s → AreFree (apply_op o s)
unfolding apply_op register_subscription
apply_op-AreFree (registers owner url types secret) s free j above =
    ground (arith, above, free j (omega (arith, above)))
apply_op-AreFree (updates n actor url types) s free j above =
    let none_yet = free j (omega (arith, above, update-next_id n actor url types s)) in
    update-rows n actor url types s j (free-cases n j actor s none_yet) ∙ none_yet
apply_op-AreFree (deletes n actor) s free j above =
    let none_yet = free j (omega (arith, above, delete-next_id n actor s)) in
    delete-rows n actor s j (free-cases n j actor s none_yet) ∙ none_yet

apply_ops-AreFree :
    (os : List SubscriptionOp) (s : SubscriptionStore) → AreFree s → AreFree (apply_ops os s)
unfolding apply_ops
apply_ops-AreFree [] s free = free
apply_ops-AreFree (o ∷ os) s free = apply_ops-AreFree os (apply_op o s) (apply_op-AreFree o s free)

others_keep_row :
    (os : List SubscriptionOp) (j : ℕ) (w : WebhookSubscription) (s : SubscriptionStore)
    → AreFree s
    → s.rows j ≡ some w
    → All (IsByOther w.owner_public_key) os
    → (apply_ops os s).rows j ≡ some w
unfolding apply_ops
others_keep_row [] j w s free h k = h
others_keep_row (o ∷ os) j w s free h k =
    others_keep_row os j w (apply_op o s) (apply_op-AreFree o s free)
      (apply_op-rows o j w s free h k.0) k.1

-- Nobody else changes a subscription: once any operations have stored it, it stays as it is through any
-- registrations, and any updates and deletions by others than its owner.
pub others_change_nothing :
    (before after : List SubscriptionOp) (id : ℕ) (w : WebhookSubscription)
    → (apply_ops before no_subscriptions).rows id ≡ some w
    → All (IsByOther w.owner_public_key) after
    → (apply_ops after (apply_ops before no_subscriptions)).rows id ≡ some w
others_change_nothing before after id w h k =
    others_keep_row after id w (apply_ops before no_subscriptions)
      (apply_ops-AreFree before no_subscriptions (λ j above. refl)) h k
