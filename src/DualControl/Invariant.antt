-- ===== src/DualControl/Invariant.antt =====
-- What holds of the table and of the executions started, between any two statements.
use Prim.Native.String.{String}
use remitlend.Base.{
  ℕ, suc, ◌≤◌, ◌<◌, ◌≡◌, inl, inr, refl, sym, ap, ◌∙◌, Bool, true, false, not, Bool-cases,
  Option-cases, Option, none, some, List, ◌∷◌, ◌==◌, ==_iff, if◌then◌else◌, arith,
}
use mathlib.Core.Path.{subst}
use remitlend.Base.Assoc.{◌same◌}
use remitlend.DualControl.{
  Request, Table, RequestStatus, pending, approved, revoked, executing, executed, failed,
  action_text, update_where, set_row, may_approve, may_revoke,
}
use remitlend.DualControl.Canonical.{Json, JsonPlatform, stored_payload, compute_payload_hash}
use remitlend.DualControl.Execution.{Outcome, outcome_status, may_claim, claim, finish, always}
use remitlend.DualControl.Runs.{System, count}

-- The states that a request reaches only by an approval, and those that it reaches only by a claim.
abbrev pub past_approval : RequestStatus → Bool
past_approval pending = false
past_approval revoked = false
past_approval _ = true

abbrev pub past_claim : RequestStatus → Bool
past_claim executing = true
past_claim executed = true
past_claim failed = true
past_claim _ = false

-- Somebody other than the initiator is the approver.
abbrev pub has_second_person : Request → Bool
has_second_person r = elim r.approver [ none ↦ false | some p ↦ not (r.initiator same p) ]

-- The row has the hash of the payload that was requested, and that payload as it is stored.
abbrev pub IsHashed : JsonPlatform → Request → Type 0
IsHashed p r =
    (requested : Json) × (r.payload ≡ stored_payload p requested)
    × (r.payload_hash ≡ compute_payload_hash p (action_text r.action_type) requested)

pub record RowInv (p : JsonPlatform) (r : Request) (n : ℕ) : Type 0 where
  pub two_persons : past_approval r.status ≡ true → has_second_person r ≡ true
  pub hash_stored : IsHashed p r
  pub claimed_once : n ≤ 1
  pub claimed_state : 0 < n → past_claim r.status ≡ true

abbrev pub SlotInv : JsonPlatform → Option Request → ℕ → Type 0
SlotInv p none n = n ≡ 0
SlotInv p (some r) n = RowInv p r n

abbrev pub SystemInv : JsonPlatform → System → Type 0
SystemInv p s =
    (j : ℕ)
    → SlotInv p (s.table.rows j) (count j s.started) × (s.table.next_id ≤ j → s.table.rows j ≡ none)

-- What an update leaves under its id, and under any other.
abbrev pub changed : (Request → Bool) → (Request → Request) → Option Request → Option Request
changed test f none = none
changed test f (some r) = some (if test r then f r else r)

same_slot : (id j : ℕ) {B : Type 0} (rows : ℕ → B) → (id == j) ≡ true → rows j ≡ rows id
same_slot id j rows e = ap rows (sym ((==_iff id j).0 e))

pub update_slot :
    (id : ℕ) (test : Request → Bool) (f : Request → Request) (t : Table) (j : ℕ)
    → ((update_where id test f t).1.rows j
        ≡ (if id == j then changed test f (t.rows j) else t.rows j))
      × ((update_where id test f t).1.next_id ≡ t.next_id)
update_slot id test f t j = elim (Option-cases (t.rows id)) [
  | inl e ↦ elim (Bool-cases (id == j)) [
    | inl b ↦ rw (e, update_where, b, same_slot id j t.rows b, e) (refl, refl)
    | inr b ↦ rw (e, update_where, b) (refl, refl)
  ]
  | inr (r, e) ↦ elim (Bool-cases (id == j)) [
    | inl b ↦ elim (Bool-cases (test r)) [
      | inl c ↦ rw (e, update_where, c, b, same_slot id j t.rows b, e, c) (refl, refl)
      | inr c ↦ rw (e, update_where, c, b, same_slot id j t.rows b, e, c) (refl, refl)
    ]
    | inr b ↦ elim (Bool-cases (test r)) [
      | inl c ↦ rw (e, update_where, c, set_row, b) (refl, refl)
      | inr c ↦ rw (e, update_where, c, set_row, b) (refl, refl)
    ]
  ]
]

-- An update keeps the system's invariant if what it leaves under its id has the slot's.
pub update-SystemInv :
    (p : JsonPlatform) (id : ℕ) (test : Request → Bool) (f : Request → Request) (s : System)
    (is : List ℕ)
    → ((j : ℕ) → (id == j) ≡ false → count j is ≡ count j s.started)
    → SlotInv p (changed test f (s.table.rows id)) (count id is)
    → SystemInv p s
    → SystemInv p (record { table = (update_where id test f s.table).1; started = is })
update-SystemInv p id test f s is others at_id inv j =
    let (e, n) = update_slot id test f s.table j in
    let (slot, fresh) = inv j in
    elim (Bool-cases (id == j)) [
      | inl b ↦
          let same_id = (==_iff id j).0 b in
          (
            subst (λ o. SlotInv p o (count j is)) (sym (e ∙ (rw b refl)))
                (subst (λ i. SlotInv p (changed test f (s.table.rows i)) (count i is)) same_id
                  at_id),
            λ l. e ∙ (rw (b, fresh (rw (sym n) l)) refl),
          )
      | inr b ↦ (
        subst (λ o. SlotInv p o (count j is)) (sym (e ∙ (rw b refl)))
            (subst (SlotInv p (s.table.rows j)) (sym (others j b)) slot),
        λ l. e ∙ (rw b (fresh (rw (sym n) l))),
      )
    ]

pub changed-SlotInv :
    (p : JsonPlatform) (test : Request → Bool) (f : Request → Request) (n : ℕ) (o : Option Request)
    → ((r : Request) → RowInv p r n → test r ≡ true → RowInv p (f r) n)
    → SlotInv p o n
    → SlotInv p (changed test f o) n
changed-SlotInv p test f n none keeps h = h
changed-SlotInv p test f n (some r) keeps h = elim (Bool-cases (test r)) [
  | inl e ↦ rw e (keeps r h e)
  | inr e ↦ rw e h
]

pub approves-RowInv :
    (p : JsonPlatform) (approver hash : String) (now : ℕ) (n : ℕ) (r : Request)
    → RowInv p r n
    → may_approve approver hash now r ≡ true
    → RowInv p (record r { status = approved; approver = some approver }) n
approves-RowInv p approver hash now n r h t = ground arith

pub revokes-RowInv :
    (p : JsonPlatform) (actor : String) (n : ℕ) (r : Request)
    → RowInv p r n
    → may_revoke actor r ≡ true
    → RowInv p (record r { status = revoked }) n
revokes-RowInv p actor n r h t = ground arith

claims-RowInv :
    (p : JsonPlatform) (actor hash : String) (now : ℕ) (n : ℕ) (r : Request)
    → RowInv p r n
    → may_claim actor hash now r ≡ true
    → RowInv p (record r { status = executing }) (suc n)
claims-RowInv p actor hash now n r h t = ground arith

finishes-RowInv :
    (p : JsonPlatform) (outcome : Outcome) (n : ℕ) (r : Request)
    → RowInv p r n
    → 0 < n
    → RowInv p (record r { status = outcome_status outcome }) n
finishes-RowInv p (Outcome.executed_as x) n r h t = ground arith
finishes-RowInv p (Outcome.failed_with x) n r h t = ground arith

pub finishes_at :
    (p : JsonPlatform) (id : ℕ) (outcome : Outcome) (s : System)
    → (count id s.started == 0) ≡ false
    → SystemInv p s
    → SystemInv p (record s { table = finish id outcome s.table })
unfolding finish
finishes_at p id outcome s c inv =
    update-SystemInv p id always (λ r. record r { status = outcome_status outcome }) s s.started
      (λ j b. refl)
      (changed-SlotInv p always (λ r. record r { status = outcome_status outcome })
        (count id s.started) (s.table.rows id)
        (λ r h t. finishes-RowInv p outcome (count id s.started) r h (ground arith)) (inv id).0)
      inv

pub claims_at :
    (p : JsonPlatform) (id : ℕ) (actor : String) (row r : Request) (now : ℕ) (s : System)
    → s.table.rows id ≡ some r
    → may_claim actor row.payload_hash now r ≡ true
    → SystemInv p s
    → SystemInv p (record { table = (claim id actor row now s.table).1; started = id ∷ s.started })
unfolding claim
claims_at p id actor row r now s e c inv =
    update-SystemInv p id (may_claim actor row.payload_hash now)
      (λ r'. record r' { status = executing }) s (id ∷ s.started) (λ j b. rw b refl)
      (rw (e, c, (==_iff id id).1 refl)
        (claims-RowInv p actor row.payload_hash now (count id s.started) r
          (subst (λ o. SlotInv p o (count id s.started)) e (inv id).0) c))
      inv
