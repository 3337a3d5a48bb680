-- ===== src/DualControl/Tests.antt =====
-- privilegedActionService.ts: one request, from its creation to its execution.
use Prim.Native.String.{String}
use remitlend.Base.{
  ℕ, ◌&&◌, ◌≤◌, ◌<◌, ◌≡◌, ◌≢◌, ◌↔◌, refl, true, none, some, List, [], ◌∷◌, arith, ◌==◌,
  if◌then◌else◌,
}
use remitlend.Base.Result.{ok}
use remitlend.DualControl.{
  Request, Table, contract_config_change, pending, approved, action_of, create_request,
  approve_request, may_approve,
}
use remitlend.DualControl.Canonical.{null, JsonPlatform, compute_payload_hash, canonicalize}
use remitlend.DualControl.Execution.{
  executed_as, execute_request, hash_matches, claim, finish, always,
}
use remitlend.DualControl.Runs.{
  Event, creates, approves, claims, finishes, count, step, run, empty_system,
}
use remitlend.DualControl.Invariant.{past_claim, has_second_person}
use remitlend.DualControl.Persons.{executed_needs_two, executes_once}
use remitlend.DualControl.Guards.{approve_request_iff}

-- A platform whose digest is the text itself.
abbrev plain : JsonPlatform
plain = record {
  stringify = λ j. "null";
  before = λ a b. true;
  sha256 = λ s. s;
  is_finite = λ n. true;
  jsonb = λ j. j;
}

abbrev digest : String
digest = "contract_config_change\nnull"

abbrev requested_row : Request
requested_row = record {
  action_type = contract_config_change;
  payload = null;
  payload_hash = digest;
  initiator = "ada";
  approver = none;
  status = pending;
  expires_at = 100;
}

abbrev approved_row : Request
approved_row = record requested_row { approver = some "bob"; status = approved }

abbrev table_of : Request → Table
table_of r = record { rows = λ j. if j == 1 then some r else none; next_id = 2 }

-- A request by `ada`, an approval by `bob`, two claims on the row as approved, and one completion.
abbrev history : List Event
history =
    creates "contract_config_change" null "ada" (some 100) 0
    ∷ approves 1 "ada" digest 5 5
    ∷ approves 1 "bob" digest 10 10
    ∷ claims 1 "bob" approved_row 20
    ∷ claims 1 "ada" approved_row 21
    ∷ finishes 1 (executed_as "tx")
    ∷ []

abbrev until_approval : List Event
until_approval =
    creates "contract_config_change" null "ada" (some 100) 0 ∷ approves 1 "bob" digest 10 10 ∷ []

started : 0 < count 1 (run plain history empty_system).started
unfolding run step create_request approve_request claim finish hash_matches compute_payload_hash
    canonicalize action_of always
started = omega arith

executed_needs_two_example :
    (r : Request) × ((run plain history empty_system).table.rows 1 ≡ some r)
    × (has_second_person r ≡ true)
    × (past_claim r.status ≡ true)
executed_needs_two_example = executed_needs_two plain history 1 started

executes_once_example : count 1 (run plain history empty_system).started ≤ 1
executes_once_example = executes_once plain history 1

approve_request_iff_example :
    (((approve_request 1 "bob" digest 10 10 (table_of requested_row)).0 ≡ ok tt)
      ↔ ((pending ≡ pending) × (10 < 100) × (requested_row.initiator ≢ "bob") × (digest ≡ digest)))
    × ((j : ℕ)
        → (approve_request 1 "bob" digest 10 10 (table_of requested_row)).1.rows j ≡ (
            if (1 == j) && may_approve "bob" digest 10 requested_row
            then some approved_row
            else (table_of requested_row).rows j))
    × ((approve_request 1 "bob" digest 10 10 (table_of requested_row)).1.next_id ≡ 2)
approve_request_iff_example =
    approve_request_iff 1 "bob" digest 10 10 requested_row (table_of requested_row) refl

done :
    (execute_request plain (λ s. s) (λ r. ok "tx") 1 "bob" 20 20 (table_of approved_row)).0
    ≡ ok (executed_as "tx")
unfolding execute_request claim finish hash_matches compute_payload_hash canonicalize always
done = refl
