-- ===== src/DualControl/Runs.antt =====
-- Every interleaving of requests, approvals, revocations and executions: each statement on the table is a
-- step, and an execution's claim may use a row that was read at any earlier time.
use Prim.Native.String.{String}
use remitlend.Base.{ℕ, suc, Option, none, some, List, [], ◌∷◌, ◌==◌, if◌then◌else◌}
use remitlend.DualControl.{Request, Table, create_request, approve_request, revoke_request}
use remitlend.DualControl.Canonical.{Json, JsonPlatform}
use remitlend.DualControl.Execution.{Outcome, hash_matches, claim, finish}

-- The table, and the ids whose executor was started, the latest first.
pub record System : Type 0 where
  pub table : Table
  pub started : List ℕ

pub data Event : Type 0 where
  creates : String → Json → String → Option ℕ → ℕ → Event
  approves : ℕ → String → String → ℕ → ℕ → Event
  revokes : ℕ → String → ℕ → Event
  claims : ℕ → String → Request → ℕ → Event
  finishes : ℕ → Outcome → Event

abbrev pub count : ℕ → List ℕ → ℕ
count j [] = 0
count j (i ∷ is) = if i == j then suc (count j is) else count j is

-- A claim is made if the row read passes the hash check; its executor starts if the claim changed the row.
-- An execution ends only if it was started.
unfoldable pub step : JsonPlatform → Event → System → System
step p (creates action payload initiator ttl now) s = record s {
  table = (create_request p action payload initiator ttl now s.table).1;
}
step p (approves id approver hash now later) s = record s {
  table = (approve_request id approver hash now later s.table).1;
}
step p (revokes id actor now) s = record s { table = (revoke_request id actor now s.table).1 }
step p (claims id actor row now) s =
    if hash_matches p row
    then (let (claimed, t) = claim id actor row now s.table in
        elim claimed [ none ↦ s | some _ ↦ record { table = t; started = id ∷ s.started } ])
    else s
step p (finishes id outcome) s =
    if count id s.started == 0 then s else record s { table = finish id outcome s.table }

unfoldable pub run : JsonPlatform → List Event → System → System
run p [] s = s
run p (e ∷ es) s = run p es (step p e s)

abbrev pub empty_system : System
empty_system = record { table = record { rows = λ _. none; next_id = 1 }; started = [] }
