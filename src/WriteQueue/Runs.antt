-- ===== src/WriteQueue/Runs.antt =====
-- writeQueue.ts: any sequence of the store's operations and of replay passes, from an empty store.
use Prim.Native.String.{String}
use remitlend.Base.{ℕ, Bool, true, false, List, [], ◌∷◌}
use remitlend.Base.Result.{Result}
use remitlend.WriteQueue.{
  EnqueueInput, QueuedWrite, Store, QueueConfig, empty_store, enqueue, mark_applied, mark_failed,
}
use remitlend.WriteQueue.Replay.{run_replay_once}
use remitlend.WriteQueue.Rows.{IsValid, insert-IsValid, mark_applied-IsValid, mark_failed-IsValid}
use remitlend.WriteQueue.Passes.{replay_pass}

pub data Op (P : Type 0) : Type 0 where
  enqueues : ℕ → EnqueueInput P → Op P
  applies : ℕ → ℕ → Op P
  fails : ℕ → ℕ → String → ℕ → Op P
  replays : (QueuedWrite P → Result String (Unit {0})) → Bool → Bool → ℕ → ℕ → Op P

module _ {P : Type 0} (cfg : QueueConfig) where
  unfoldable pub run_op : Op P → Store P → Store P
  run_op (enqueues now i) s = (enqueue now i s).2
  run_op (applies now id) s = mark_applied now id s
  run_op (fails now id message attempts) s = (mark_failed cfg now id message attempts s).1
  run_op (replays submit in_flight available batch_size now) s =
      (run_replay_once cfg submit in_flight available batch_size now s).1

  unfoldable pub run_ops : List (Op P) → Store P → Store P
  run_ops [] s = s
  run_ops (op ∷ ops) s = run_ops ops (run_op op s)

  replay-IsValid :
      (submit : QueuedWrite P → Result String (Unit {0})) (in_flight available : Bool)
      (batch_size now : ℕ) (s : Store P)
      → IsValid s
      → IsValid (run_replay_once cfg submit in_flight available batch_size now s).1
  unfolding run_replay_once
  replay-IsValid submit true available batch_size now s h = h
  replay-IsValid submit false false batch_size now s h = h
  replay-IsValid submit false true batch_size now s h =
      (replay_pass cfg submit batch_size now s h).0

  run_op-IsValid : (op : Op P) (s : Store P) → IsValid s → IsValid (run_op op s)
  unfolding run_op enqueue
  run_op-IsValid (enqueues now i) s h = insert-IsValid now i s h
  run_op-IsValid (applies now id) s h = mark_applied-IsValid now id s h
  run_op-IsValid (fails now id message attempts) s h =
      mark_failed-IsValid cfg now id message attempts s h
  run_op-IsValid (replays submit in_flight available batch_size now) s h =
      replay-IsValid submit in_flight available batch_size now s h

  run_ops-IsValid : (ops : List (Op P)) (s : Store P) → IsValid s → IsValid (run_ops ops s)
  unfolding run_ops
  run_ops-IsValid [] s h = h
  run_ops-IsValid (op ∷ ops) s h = run_ops-IsValid ops (run_op op s) (run_op-IsValid op s h)

  -- After any sequence of enqueues, marks and replay passes on an empty store, the rows stand in ascending
  -- order of their ids, all below the next id, and no two have the same idempotency key.
  pub queue_always-IsValid : (ops : List (Op P)) → IsValid (run_ops ops (empty_store {P = P}))
  unfolding empty_store
  queue_always-IsValid ops =
      run_ops-IsValid ops empty_store (record { ids_below = tt; ascending = tt; distinct = tt })
