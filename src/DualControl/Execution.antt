-- ===== src/DualControl/Execution.antt =====
-- privilegedActionService.ts: `executeRequest`, as its three accesses to the table and as a whole. What the
-- executor does is an argument, and `cut` is `slice(0, 500)`.
use Prim.Native.String.{String}
use remitlend.Base.{ℕ, Bool, true, not, ◌&&◌, ◌||◌, Option, none, some, ltb, if◌then◌else◌}
use remitlend.Base.Assoc.{◌same◌}
use remitlend.Base.Result.{Result, ok, err}
use remitlend.DualControl.{
  Request, Table, RequestStatus, executing, executed, failed, execute, ActionError, not_found,
  stored_mismatch, action_text, is_approved, is_actor, update_where, explain_rejection,
}
use remitlend.DualControl.Canonical.{JsonPlatform, compute_payload_hash}

pub data Outcome : Type 0 where
  executed_as failed_with : String → Outcome

-- The payload that was read still has the hash stored with it.
unfoldable pub hash_matches : JsonPlatform → Request → Bool
hash_matches p r = compute_payload_hash p (action_text r.action_type) r.payload same r.payload_hash

-- The `WHERE` clause of the claim behind the id.
abbrev pub may_claim : String → String → ℕ → Request → Bool
may_claim actor payload_hash now r =
    is_approved r.status
    && (ltb now r.expires_at
        && ((r.payload_hash same payload_hash)
            && ((r.initiator same actor) || is_actor r.approver actor)))

-- The claim, for a row read before.
unfoldable pub claim : ℕ → String → Request → ℕ → Table → Option Request × Table
claim id actor row now t =
    update_where id (may_claim actor row.payload_hash now) (λ r. record r { status = executing }) t

unfoldable pub always : Request → Bool
always _ = true

abbrev pub outcome_status : Outcome → RequestStatus
outcome_status (executed_as _) = executed
outcome_status (failed_with _) = failed

-- The last update, which has no condition but the id.
unfoldable pub finish : ℕ → Outcome → Table → Table
unfolding always
finish id outcome t =
    (update_where id always (λ r. record r { status = outcome_status outcome }) t).1

abbrev outcome_of : (String → String) → Result String String → Outcome
outcome_of cut (ok reference) = executed_as reference
outcome_of cut (err message) = failed_with (cut message)

unfoldable pub execute_request :
    JsonPlatform
    → (String → String)
    → (Request → Result String String)
    → ℕ
    → String
    → ℕ
    → ℕ
    → Table
    → Result ActionError Outcome × Table
unfolding hash_matches claim finish
execute_request p cut executor id actor now later t = elim (t.rows id) [
  | none ↦ (err not_found, t)
  | some row ↦
      if not (hash_matches p row)
      then (err stored_mismatch, t)
      else let (claimed, t') = claim id actor row now t in
        elim claimed [
          | none ↦ (err (explain_rejection id actor execute later t'), t')
          | some c ↦ let outcome = outcome_of cut (executor c) in (ok outcome, finish id outcome t')
        ]
]
