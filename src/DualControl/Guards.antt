-- ===== src/DualControl/Guards.antt =====
-- privilegedActionService.ts: when each operation succeeds, and what it changes.
use Prim.Native.String.{String}
use text.Mathlib.TextEquality.{eq_iff}
use remitlend.Base.{
  ℕ, ◌<◌, ◌≡◌, ◌≢◌, ◌⊎◌, ◌↔◌, inl, inr, refl, ap, sym, ◌∙◌, ==_iff, true, false, Bool-cases, ◌==◌,
  ◌&&◌, Option, none, some, if◌then◌else◌, arith,
}
use remitlend.Base.Result.{Result, ok, err}
use remitlend.DualControl.{
  Request, Table, pending, approved, approve_request, explain_rejection, update_where, may_approve,
  is_actor, execute, stored_mismatch,
}
use remitlend.DualControl.Invariant.{changed, update_slot}
use remitlend.DualControl.Reachable.{approve-table}
use remitlend.DualControl.Canonical.{JsonPlatform}
use remitlend.DualControl.Execution.{Outcome, hash_matches, execute_request, may_claim, claim}

may_approve_iff :
    (approver hash : String) (now : ℕ) (r : Request)
    → (may_approve approver hash now r ≡ true) ↔ (
        (r.status ≡ pending)
        × (now < r.expires_at)
        × (r.initiator ≢ approver)
        × (r.payload_hash ≡ hash))
may_approve_iff approver hash now r =
    ground (arith, eq_iff r.initiator approver, eq_iff r.payload_hash hash)

approve-success :
    (id : ℕ) (approver hash : String) (now later : ℕ) (r : Request) (t : Table)
    → t.rows id ≡ some r
    → ((approve_request id approver hash now later t).0 ≡ ok tt) ↔ (
        (r.status ≡ pending)
        × (now < r.expires_at)
        × (r.initiator ≢ approver)
        × (r.payload_hash ≡ hash))
unfolding approve_request
approve-success id approver hash now later r t e =
    elim (Bool-cases (may_approve approver hash now r)) [
      | inl c ↦
          rw (e, approve_request, update_where, c)
            ((λ h. (may_approve_iff approver hash now r).0 c), λ h. refl)
      | inr c ↦
          rw (e, approve_request, update_where, c)
            ((λ h. absurd (cc)), λ h. absurd (ground (arith, may_approve_iff approver hash now r)))
    ]

abbrev approved_by : String → Request → Request
approved_by approver r = record r { status = approved; approver = some approver }

approve-slot :
    (id : ℕ) (approver hash : String) (now : ℕ) (r : Request) (t : Table) (j : ℕ)
    → t.rows id ≡ some r
    → (if id == j
        then changed (may_approve approver hash now) (approved_by approver) (t.rows j)
        else t.rows j)
      ≡ (if (id == j) && may_approve approver hash now r
          then some (approved_by approver r)
          else t.rows j)
approve-slot id approver hash now r t j e = elim (Bool-cases (id == j)) [
  | inr b ↦ rw b refl
  | inl b ↦
      let at : t.rows j ≡ some r = ap t.rows (sym ((==_iff id j).0 b)) ∙ e in
      elim (Bool-cases (may_approve approver hash now r)) [
        | inl c ↦ rw (b, at, c) refl
        | inr c ↦ rw (b, at, c) refl
      ]
]

-- An approval of a row that is there succeeds exactly when the row is pending, has not expired, was not
-- requested by the approver and has the hash that the approver gives. It then makes that row approved, with
-- its approver, and changes no other; a refused approval changes no row, and neither gives out an id.
pub approve_request_iff :
    (id : ℕ) (approver hash : String) (now later : ℕ) (r : Request) (t : Table)
    → t.rows id ≡ some r
    → (((approve_request id approver hash now later t).0 ≡ ok tt) ↔ (
        (r.status ≡ pending)
        × (now < r.expires_at)
        × (r.initiator ≢ approver)
        × (r.payload_hash ≡ hash)))
      × ((j : ℕ)
          → (approve_request id approver hash now later t).1.rows j ≡ (
              if (id == j) && may_approve approver hash now r
              then some (record r { status = approved; approver = some approver })
              else t.rows j))
      × ((approve_request id approver hash now later t).1.next_id ≡ t.next_id)
approve_request_iff id approver hash now later r t e = (
  approve-success id approver hash now later r t e,
  (λ j.
      ap (λ u. u.rows j) (approve-table id approver hash now later t)
      ∙ (update_slot id (may_approve approver hash now) (approved_by approver) t j).0
      ∙ approve-slot id approver hash now r t j e),
  ap (λ u. u.next_id) (approve-table id approver hash now later t)
      ∙ (update_slot id (may_approve approver hash now) (approved_by approver) t 0).1,
)

is_actor_needs : (o : Option String) (actor : String) → is_actor o actor ≡ true → o ≡ some actor
is_actor_needs none actor h = absurd (cc)
is_actor_needs (some p) actor h = ap some ((eq_iff p actor).0 h)

may_claim_needs :
    (actor : String) (now : ℕ) (r : Request)
    → may_claim actor r.payload_hash now r ≡ true
    → (r.status ≡ approved)
      × (now < r.expires_at)
      × ((r.initiator ≡ actor) ⊎ (r.approver ≡ some actor))
may_claim_needs actor now r h =
    ground (arith, eq_iff r.initiator actor, is_actor_needs r.approver actor)

execute_tampered :
    (p : JsonPlatform) (cut : String → String) (executor : Request → Result String String) (id : ℕ)
    (actor : String) (now later : ℕ) (r : Request) (t : Table)
    → t.rows id ≡ some r
    → hash_matches p r ≡ false
    → execute_request p cut executor id actor now later t ≡ (err stored_mismatch, t)
unfolding execute_request hash_matches
execute_tampered p cut executor id actor now later r t e m =
    rw (e, execute_request, hash_matches, m) refl

execute_refused :
    (p : JsonPlatform) (cut : String → String) (executor : Request → Result String String) (id : ℕ)
    (actor : String) (now later : ℕ) (r : Request) (t : Table)
    → t.rows id ≡ some r
    → hash_matches p r ≡ true
    → may_claim actor r.payload_hash now r ≡ false
    → execute_request p cut executor id actor now later t
      ≡ (err (explain_rejection id actor execute later t), t)
unfolding execute_request hash_matches claim
execute_refused p cut executor id actor now later r t e m c =
    rw (e, execute_request, hash_matches, m, claim, update_where, e, c, claim, update_where, e, c)
      refl

-- An execution that ends with an outcome took a row that was approved and had not expired, whose stored
-- hash was that of its payload, for its initiator or its approver.
pub execute_request_needs :
    (p : JsonPlatform) (cut : String → String) (executor : Request → Result String String) (id : ℕ)
    (actor : String) (now later : ℕ) (r : Request) (t : Table) (o : Outcome)
    → t.rows id ≡ some r
    → (execute_request p cut executor id actor now later t).0 ≡ ok o
    → (r.status ≡ approved)
      × (now < r.expires_at)
      × (hash_matches p r ≡ true)
      × ((r.initiator ≡ actor) ⊎ (r.approver ≡ some actor))
execute_request_needs p cut executor id actor now later r t o e h =
    elim (Bool-cases (hash_matches p r)) [
      | inr m ↦ let no = execute_tampered p cut executor id actor now later r t e m in absurd (cc)
      | inl m ↦ elim (Bool-cases (may_claim actor r.payload_hash now r)) [
        | inr c ↦
            let no = execute_refused p cut executor id actor now later r t e m c in absurd (cc)
        | inl c ↦ let (a, b, d) = may_claim_needs actor now r c in (a, b, m, d)
      ]
    ]
