-- ===== src/WriteQueue.antt =====
-- backend/src/services/sorobanWriteQueue.ts: the queue of signed writes that wait for the RPC, over the
-- in-memory store (`InMemorySorobanWriteQueueStore`), and the facade `SorobanWriteQueue`. Times are
-- milliseconds: the ISO texts of the source keep those exactly. A payload is any type `P`.
pub mod Replay
pub mod Rows
pub mod Ready
pub mod Retry
pub mod Outcome
pub mod Passes
pub mod Runs
mod Tests
use Prim.Native.String.{String}
use remitlend.Base.{
  ℕ, suc, ◌+◌, ◌-◌, ◌*◌, ◌^◌, min, Bool, true, false, ◌&&◌, Option, none, some, List, [], ◌∷◌, ◌++◌,
  leb, ◌==◌, if◌then◌else◌, length, take, find, filter,
}
use remitlend.Base.Assoc.{◌same◌}

pub data WriteStatus : Type 0 where
  pending replaying applied failed : WriteStatus

abbrev pub is_pending : WriteStatus → Bool
is_pending pending = true
is_pending _ = false

pub record QueuedWrite (P : Type 0) : Type 0 where
  pub id : ℕ
  pub idempotency_key : String
  pub operation : String
  pub payload : P
  pub status : WriteStatus
  pub attempts : ℕ
  pub last_error : Option String
  pub next_attempt_at : ℕ
  pub created_at : ℕ
  pub updated_at : ℕ

pub record EnqueueInput (P : Type 0) : Type 0 where
  pub idempotency_key : String
  pub operation : String
  pub payload : P

pub record Store (P : Type 0) : Type 0 where
  pub rows : List (QueuedWrite P)
  pub next_id : ℕ

pub record QueueConfig : Type 0 where
  pub backoff_base_ms : ℕ
  pub backoff_max_ms : ℕ

module _ {P : Type 0} where
  unfoldable pub empty_store : Store P
  empty_store = record { rows = []; next_id = 1 }

  abbrev pub new_write : ℕ → ℕ → EnqueueInput P → QueuedWrite P
  new_write id now input = record {
    id = id;
    idempotency_key = input.idempotency_key;
    operation = input.operation;
    payload = input.payload;
    status = pending;
    attempts = 0;
    last_error = none;
    next_attempt_at = now;
    created_at = now;
    updated_at = now;
  }

  abbrev pub has_key : String → QueuedWrite P → Bool
  has_key key row = row.idempotency_key same key

  -- `insert`: the record, whether it was inserted, and the store.
  unfoldable pub insert : ℕ → EnqueueInput P → Store P → QueuedWrite P × Bool × Store P
  insert now input s = elim (find (has_key input.idempotency_key) s.rows) [
    | some existing ↦ (existing, false, s)
    | none ↦
        let row = new_write s.next_id now input in
        (row, true, record s { rows = s.rows ++ row ∷ []; next_id = s.next_id + 1 })
  ]

  abbrev pub is_ready : ℕ → QueuedWrite P → Bool
  is_ready now row = is_pending row.status && leb row.next_attempt_at now

  -- `sort((a, b) => a.id - b.id)`, which is stable.
  unfoldable pub insert_by_id : QueuedWrite P → List (QueuedWrite P) → List (QueuedWrite P)
  insert_by_id r [] = r ∷ []
  insert_by_id r (x ∷ xs) = if leb r.id x.id then r ∷ x ∷ xs else x ∷ insert_by_id r xs

  unfoldable pub sort_by_id : List (QueuedWrite P) → List (QueuedWrite P)
  unfolding insert_by_id
  sort_by_id [] = []
  sort_by_id (r ∷ rs) = insert_by_id r (sort_by_id rs)

  unfoldable pub list_ready : ℕ → ℕ → Store P → List (QueuedWrite P)
  unfolding sort_by_id
  list_ready now limit s = take limit (sort_by_id (filter (is_ready now) s.rows))

  -- A change to the row that `rows.find` gives for an id, which is the first.
  abbrev pub update_row :
      ℕ → (QueuedWrite P → QueuedWrite P) → List (QueuedWrite P) → List (QueuedWrite P)
  update_row id f [] = []
  update_row id f (r ∷ rs) = if r.id == id then f r ∷ rs else r ∷ update_row id f rs

  unfoldable pub mark_applied : ℕ → ℕ → Store P → Store P
  mark_applied now id s = record s {
    rows = update_row id (λ row. record row { status = applied; updated_at = now }) s.rows;
  }

  unfoldable pub mark_pending_after_failure : ℕ → ℕ → String → ℕ → Store P → Store P
  mark_pending_after_failure now id error next_attempt_at s = record s {
    rows =
        update_row id
          (λ row. record row {
            status = pending;
            attempts = row.attempts + 1;
            last_error = some error;
            next_attempt_at = next_attempt_at;
            updated_at = now;
          })
          s.rows;
  }

  unfoldable pub count_pending : Store P → ℕ
  count_pending s = length (filter (λ row. is_pending row.status) s.rows)

  -- `SorobanWriteQueue.enqueue`: the record, whether it is a duplicate, and the store.
  unfoldable pub enqueue : ℕ → EnqueueInput P → Store P → QueuedWrite P × Bool × Store P
  enqueue now input s =
      let (row, inserted, s') = insert now input s in (row, if inserted then false else true, s')

-- The delay is exact in the source as long as it is finite, and is cut to the maximum.
unfoldable pub backoff_ms : QueueConfig → ℕ → ℕ
backoff_ms cfg attempts = min (cfg.backoff_base_ms * 2 ^ (attempts - 1)) cfg.backoff_max_ms

-- `markFailed`: the next attempt's time, and the store.
unfoldable pub mark_failed : {P : Type 0} → QueueConfig → ℕ → ℕ → String → ℕ → Store P → ℕ × Store P
mark_failed cfg now id error attempts s =
    let next_attempt_at = now + backoff_ms cfg attempts in
    (next_attempt_at, mark_pending_after_failure now id error next_attempt_at s)
