-- ===== src/DualControl.antt =====
-- backend/src/services/privilegedActionService.ts: two-person approval of privileged actions. The table
-- `privileged_action_requests` is a map from ids to rows, and an `UPDATE ... WHERE ... RETURNING` a
-- function that gives the row it changed, if any; a comparison with a null column holds of nothing.
-- `NOW()` and `Date.now()` are arguments. The audit log, whose failures are swallowed, is left out.
pub mod Canonical
pub mod Execution
pub mod Runs
pub mod Invariant
pub mod Reachable
pub mod Persons
pub mod Guards
mod Tests
use Prim.Native.String.{String}
use remitlend.Base.{
  ℕ, suc, ◌+◌, ◌*◌, Bool, true, false, not, ◌&&◌, ◌||◌, Option, none, some, ltb, leb, ◌==◌,
  if◌then◌else◌,
}
use remitlend.Base.Assoc.{◌same◌}
use remitlend.Base.Result.{Result, ok, err}
use Canonical.{Json, JsonPlatform, stored_payload, compute_payload_hash}

pub data ActionType : Type 0 where
  contract_config_change reconciliation_resolution : ActionType

abbrev pub action_text : ActionType → String
action_text contract_config_change = "contract_config_change"
action_text reconciliation_resolution = "reconciliation_resolution"

-- `PRIVILEGED_ACTION_TYPES.includes`.
unfoldable pub action_of : String → Option ActionType
action_of s =
    if s same "contract_config_change"
    then some contract_config_change
    else if s same "reconciliation_resolution"
    then some reconciliation_resolution
    else none

pub data RequestStatus : Type 0 where
  pending approved revoked executing executed failed : RequestStatus

pub record Request : Type 0 where
  pub action_type : ActionType
  pub payload : Json
  pub payload_hash : String
  pub initiator : String
  pub approver : Option String
  pub status : RequestStatus
  pub expires_at : ℕ

pub record Table : Type 0 where
  pub rows : ℕ → Option Request
  pub next_id : ℕ

pub data Verb : Type 0 where
  approve revoke execute : Verb

pub data ActionError : Type 0 where
  unsupported_action not_found own_request expired hash_mismatch stored_mismatch : ActionError
  not_in_state : Verb → RequestStatus → ActionError

abbrev pub is_pending : RequestStatus → Bool
is_pending pending = true
is_pending _ = false

abbrev pub is_approved : RequestStatus → Bool
is_approved approved = true
is_approved _ = false

abbrev pub is_approve : Verb → Bool
is_approve approve = true
is_approve _ = false

-- A column that may be null equals a text.
abbrev pub is_actor : Option String → String → Bool
is_actor none actor = false
is_actor (some p) actor = p same actor

abbrev pub default_approval_ttl_ms : ℕ
default_approval_ttl_ms = 60 * 60 * 1000

abbrev pub set_row : ℕ → Request → Table → Table
set_row id r t = record t { rows = λ j. if id == j then some r else t.rows j }

-- `UPDATE ... SET f WHERE id = $1 AND test RETURNING`.
abbrev pub update_where :
    ℕ → (Request → Bool) → (Request → Request) → Table → Option Request × Table
update_where id test f t = elim (t.rows id) [
  | none ↦ (none, t)
  | some r ↦ if test r then (some (f r), set_row id (f r) t) else (none, t)
]

-- `createRequest`: the new row's id and the table.
module _ (platform : JsonPlatform) where
  unfoldable pub create_request :
      String → Json → String → Option ℕ → ℕ → Table → Result ActionError ℕ × Table
  create_request action payload initiator ttl_ms now t = elim (action_of action) [
    | none ↦ (err unsupported_action, t)
    | some action_type ↦ (
      ok t.next_id,
      set_row t.next_id
          (record {
            action_type = action_type;
            payload = stored_payload platform payload;
            payload_hash = compute_payload_hash platform (action_text action_type) payload;
            initiator = initiator;
            approver = none;
            status = pending;
            expires_at = now + (elim ttl_ms [ none ↦ default_approval_ttl_ms | some t' ↦ t' ]);
          })
          (record t { next_id = t.next_id + 1 }),
    )
  ]

-- `explainRejection`, with the clock as it reads it.
unfoldable pub explain_rejection : ℕ → String → Verb → ℕ → Table → ActionError
explain_rejection id actor verb now t = elim (t.rows id) [
  | none ↦ not_found
  | some r ↦
      if (r.initiator same actor) && is_approve verb
      then own_request
      else if leb r.expires_at now
      then expired
      else not_in_state verb r.status
]

-- The `WHERE` clause of `approveRequest` behind the id.
abbrev pub may_approve : String → String → ℕ → Request → Bool
may_approve approver payload_hash now r =
    is_pending r.status
    && (ltb now r.expires_at
        && (not (r.initiator same approver) && (r.payload_hash same payload_hash)))

-- What `approveRequest` throws when its update changed no row.
unfoldable pub approve_rejection : ℕ → String → String → ℕ → Table → ActionError
approve_rejection id approver payload_hash now t = elim (t.rows id) [
  | none ↦ explain_rejection id approver approve now t
  | some r ↦
      if not (r.payload_hash same "") && not (r.payload_hash same payload_hash)
      then hash_mismatch
      else explain_rejection id approver approve now t
]

unfoldable pub approve_request :
    ℕ → String → String → ℕ → ℕ → Table → Result ActionError (Unit {0}) × Table
approve_request id approver payload_hash now later t =
    let (changed, t') =
      update_where id (may_approve approver payload_hash now)
        (λ r. record r { status = approved; approver = some approver }) t in
    elim changed [
      | some _ ↦ (ok tt, t')
      | none ↦ (err (approve_rejection id approver payload_hash later t'), t')
    ]

abbrev pub may_revoke : String → Request → Bool
may_revoke actor r =
    (is_pending r.status || is_approved r.status)
    && ((r.initiator same actor) || is_actor r.approver actor)

unfoldable pub revoke_request : ℕ → String → ℕ → Table → Result ActionError (Unit {0}) × Table
revoke_request id actor now t =
    let (changed, t') = update_where id (may_revoke actor) (λ r. record r { status = revoked }) t in
    elim changed [
      | some _ ↦ (ok tt, t')
      | none ↦ (err (explain_rejection id actor revoke now t'), t')
    ]
