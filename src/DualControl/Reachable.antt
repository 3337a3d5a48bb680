-- ===== src/DualControl/Reachable.antt =====
-- privilegedActionService.ts: what every interleaving of the service's statements leaves in the table.
use Prim.Native.String.{String}
use mathlib.Core.Path.{subst}
use remitlend.Base.{
  ℕ, ◌+◌, ◌≡◌, inl, inr, refl, sym, true, false, Bool-cases, Option-cases, Option, none, some, List,
  [], ◌∷◌, ◌==◌, ==_iff, arith,
}
use remitlend.DualControl.{
  Request, Table, pending, approved, revoked, executing, action_text, create_request,
  approve_request, revoke_request, update_where, set_row, may_approve, may_revoke, action_of,
  ActionType, default_approval_ttl_ms,
}
use remitlend.DualControl.Canonical.{Json, JsonPlatform, stored_payload, compute_payload_hash}
use remitlend.DualControl.Execution.{hash_matches, may_claim, claim}
use remitlend.DualControl.Runs.{
  System, Event, creates, approves, revokes, claims, finishes, count, step, run,
}
use remitlend.DualControl.Invariant.{
  SlotInv, SystemInv, update-SystemInv, changed-SlotInv, approves-RowInv, revokes-RowInv,
  finishes_at, claims_at,
}

pub approve-table :
    (id : ℕ) (approver hash : String) (now later : ℕ) (t : Table)
    → (approve_request id approver hash now later t).1
      ≡ (update_where id
          (may_approve approver hash now)
          (λ r. record r { status = approved; approver = some approver })
          t).1
unfolding approve_request
approve-table id approver hash now later t = elim (Option-cases (t.rows id)) [
  | inl e ↦ rw (e, approve_request, update_where, e, update_where) refl
  | inr (r, e) ↦ elim (Bool-cases (may_approve approver hash now r)) [
    | inl c ↦ rw (e, approve_request, update_where, c, e, update_where, c) refl
    | inr c ↦ rw (e, approve_request, update_where, c, e, update_where, c) refl
  ]
]

revoke-table :
    (id : ℕ) (actor : String) (now : ℕ) (t : Table)
    → (revoke_request id actor now t).1
      ≡ (update_where id (may_revoke actor) (λ r. record r { status = revoked }) t).1
unfolding revoke_request
revoke-table id actor now t = elim (Option-cases (t.rows id)) [
  | inl e ↦ rw (e, revoke_request, update_where, e, update_where) refl
  | inr (r, e) ↦ elim (Bool-cases (may_revoke actor r)) [
    | inl c ↦ rw (e, revoke_request, update_where, c, e, update_where, c) refl
    | inr c ↦ rw (e, revoke_request, update_where, c, e, update_where, c) refl
  ]
]

creates_row :
    (p : JsonPlatform) (a : ActionType) (payload : Json) (initiator : String) (expires : ℕ)
    (s : System)
    → SystemInv p s
    → SystemInv p (record s {
      table =
          set_row s.table.next_id
            (record {
              action_type = a;
              payload = stored_payload p payload;
              payload_hash = compute_payload_hash p (action_text a) payload;
              initiator = initiator;
              approver = none;
              status = pending;
              expires_at = expires;
            })
            (record (s.table) { next_id = s.table.next_id + 1 });
    })
creates_row p a payload initiator expires s inv j = elim (Bool-cases (s.table.next_id == j)) [
  | inl b ↦
      let same_id = (==_iff s.table.next_id j).0 b in
      let (slot, fresh) = inv j in
      let n = subst (λ o. SlotInv p o (count j s.started)) (fresh (omega (arith, same_id))) slot in
      rw b (
        record {
          two_persons = λ h. absurd (cc);
          hash_stored = (payload, refl, refl);
          claimed_once = omega (arith, n);
          claimed_state = λ h. absurd (omega (arith, n));
        },
        λ l. absurd (omega (arith, same_id)),
      )
  | inr b ↦ let (slot, fresh) = inv j in rw b (slot, λ l. fresh (omega arith))
]

creates-SystemInv :
    (p : JsonPlatform) (action : String) (payload : Json) (initiator : String) (ttl : Option ℕ)
    (now : ℕ) (s : System)
    → SystemInv p s
    → SystemInv p
        (record s { table = (create_request p action payload initiator ttl now s.table).1 })
unfolding create_request
creates-SystemInv p action payload initiator ttl now s inv =
    elim (Option-cases (action_of action)) [
      | inl e ↦ rw (e, create_request) inv
      | inr (a, e) ↦
          rw (e, create_request)
            (creates_row p a payload initiator
              (now + (elim ttl [ none ↦ default_approval_ttl_ms | some t' ↦ t' ])) s inv)
    ]

claim_taken :
    (id : ℕ) (actor : String) (row r : Request) (now : ℕ) (t : Table)
    → t.rows id ≡ some r
    → may_claim actor row.payload_hash now r ≡ true
    → (claim id actor row now t).0 ≡ some (record r { status = executing })
unfolding claim
claim_taken id actor row r now t e c = rw (e, claim, update_where, c) refl

claim_refused :
    (id : ℕ) (actor : String) (row r : Request) (now : ℕ) (t : Table)
    → t.rows id ≡ some r
    → may_claim actor row.payload_hash now r ≡ false
    → (claim id actor row now t).0 ≡ none
unfolding claim
claim_refused id actor row r now t e c = rw (e, claim, update_where, c) refl

claim_missing :
    (id : ℕ) (actor : String) (row : Request) (now : ℕ) (t : Table)
    → t.rows id ≡ none
    → (claim id actor row now t).0 ≡ none
unfolding claim
claim_missing id actor row now t e = rw (e, claim, update_where) refl

claims-SystemInv :
    (p : JsonPlatform) (id : ℕ) (actor : String) (row : Request) (now : ℕ) (s : System)
    → SystemInv p s
    → SystemInv p (step p (claims id actor row now) s)
unfolding step
claims-SystemInv p id actor row now s inv = elim (Bool-cases (hash_matches p row)) [
  | inr m ↦ rw (m, step) inv
  | inl m ↦ elim (Option-cases (s.table.rows id)) [
    | inl e ↦ rw (m, step, claim_missing id actor row now s.table e) inv
    | inr (r, e) ↦ elim (Bool-cases (may_claim actor row.payload_hash now r)) [
      | inr c ↦ rw (m, step, claim_refused id actor row r now s.table e c) inv
      | inl c ↦
          rw (m, step, claim_taken id actor row r now s.table e c)
            (claims_at p id actor row r now s e c inv)
    ]
  ]
]

step-SystemInv :
    (p : JsonPlatform) (e : Event) (s : System) → SystemInv p s → SystemInv p (step p e s)
unfolding step
step-SystemInv p (creates action payload initiator ttl now) s inv =
    creates-SystemInv p action payload initiator ttl now s inv
step-SystemInv p (approves id approver hash now later) s inv =
    subst (λ t. SystemInv p (record s { table = t }))
      (sym (approve-table id approver hash now later s.table))
      (update-SystemInv p id (may_approve approver hash now)
        (λ r. record r { status = approved; approver = some approver }) s s.started (λ j b. refl)
        (changed-SlotInv p (may_approve approver hash now)
          (λ r. record r { status = approved; approver = some approver }) (count id s.started)
          (s.table.rows id) (approves-RowInv p approver hash now (count id s.started)) (inv id).0)
        inv)
step-SystemInv p (revokes id actor now) s inv =
    subst (λ t. SystemInv p (record s { table = t })) (sym (revoke-table id actor now s.table))
      (update-SystemInv p id (may_revoke actor) (λ r. record r { status = revoked }) s s.started
        (λ j b. refl)
        (changed-SlotInv p (may_revoke actor) (λ r. record r { status = revoked })
          (count id s.started) (s.table.rows id) (revokes-RowInv p actor (count id s.started))
          (inv id).0)
        inv)
step-SystemInv p (claims id actor row now) s inv = claims-SystemInv p id actor row now s inv
step-SystemInv p (finishes id outcome) s inv = elim (Bool-cases (count id s.started == 0)) [
  | inl c ↦ rw c inv
  | inr c ↦ rw c (finishes_at p id outcome s c inv)
]

pub run-SystemInv :
    (p : JsonPlatform) (es : List Event) (s : System) → SystemInv p s → SystemInv p (run p es s)
unfolding run
run-SystemInv p [] s inv = inv
run-SystemInv p (e ∷ es) s inv = run-SystemInv p es (step p e s) (step-SystemInv p e s inv)
