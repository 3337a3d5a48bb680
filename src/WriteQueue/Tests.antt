-- ===== src/WriteQueue/Tests.antt =====
-- sorobanWriteQueue.ts and sorobanWriteReplayProcessor.ts: a queue of three writes.
use Prim.Native.String.{String}
use remitlend.Base.{
  ℕ, ◌+◌, ◌≡◌, ◌↔◌, ◌⊎◌, refl, true, false, none, some, List, [], ◌∷◌, arith, length, find,
}
use remitlend.Base.Result.{Result, ok, err}
use remitlend.WriteQueue.{
  QueuedWrite, EnqueueInput, Store, QueueConfig, empty_store, enqueue, has_key, list_ready,
  sort_by_id, insert_by_id, new_write,
}
use remitlend.WriteQueue.Replay.{run_replay_once, counted}
use remitlend.WriteQueue.Rows.{IsValid, find_id, enqueue_twice}
use remitlend.WriteQueue.Outcome.{as_applied, succeeding, first_failure, failures, expected}
use remitlend.WriteQueue.Passes.{replay_pass, replay_overtakes}
use remitlend.WriteQueue.Runs.{Op, enqueues, fails, replays, run_ops, queue_always-IsValid}

abbrev queue_config : QueueConfig
queue_config = record { backoff_base_ms = 1000; backoff_max_ms = 60000 }

abbrev input : String → EnqueueInput ℕ
input key = record { idempotency_key = key; operation = "repay"; payload = 5 }

-- The first write waits until 5000; the others are due.
abbrev waiting : QueuedWrite ℕ
waiting = record (new_write 1 0 (input "a")) { next_attempt_at = 5000 }

abbrev due : QueuedWrite ℕ
due = new_write 2 0 (input "b")

abbrev due_too : QueuedWrite ℕ
due_too = new_write 3 0 (input "c")

abbrev three_writes : Store ℕ
three_writes = record { rows = waiting ∷ due ∷ due_too ∷ []; next_id = 4 }

three_writes-IsValid : IsValid three_writes
three_writes-IsValid = record {
  ids_below = (omega arith, (omega arith, (omega arith, tt)));
  ascending = ((omega arith, (omega arith, tt)), ((omega arith, tt), (tt, tt)));
  distinct = (refl, (refl, (refl, tt)));
}

-- The submission of the write with the key "c" fails.
abbrev submit_one : QueuedWrite ℕ → Result String (Unit {0})
submit_one w = elim (has_key "c" w) [ true ↦ err "busy" | false ↦ ok tt ]

abbrev some_ops : List (Op ℕ)
some_ops =
    enqueues 0 (input "a")
    ∷ enqueues 1 (input "b")
    ∷ enqueues 2 (input "a")
    ∷ fails 3 1 "down" 1
    ∷ replays submit_one false true 10 4
    ∷ []

queue_always-IsValid_example : IsValid (run_ops queue_config some_ops empty_store)
queue_always-IsValid_example = queue_always-IsValid queue_config some_ops

enqueue_twice_example :
    let (row, duplicate, s) = enqueue 10 (input "d") three_writes in
    (enqueue 20 (input "d") s ≡ (row, true, s))
    × ((duplicate ≡ false) ↔ (find (has_key "d") three_writes.rows ≡ none))
    × ((duplicate ≡ false) ⊎ (s ≡ three_writes))
enqueue_twice_example = enqueue_twice 10 20 (input "d") (input "d") three_writes refl

replay_pass_example :
    let (r, s') = run_replay_once queue_config submit_one false true 10 100 three_writes in
    let ready = list_ready 100 10 three_writes in
    let done = length (succeeding submit_one ready) in
    let lost = failures (first_failure submit_one ready) in
    IsValid s'
    × ((j : ℕ)
        → find_id j s'.rows
          ≡ expected queue_config 100 submit_one ready j (find_id j three_writes.rows))
    × (r ≡ counted (done + lost) done lost)
replay_pass_example = replay_pass queue_config submit_one 10 100 three_writes three_writes-IsValid

ready_example : list_ready 100 10 three_writes ≡ due ∷ due_too ∷ []
unfolding list_ready sort_by_id insert_by_id
ready_example = refl

replay_overtakes_example :
    let s' = (run_replay_once queue_config submit_one false true 10 100 three_writes).1 in
    (find_id 2 s'.rows ≡ some (as_applied 100 due)) × (find_id 1 s'.rows ≡ some waiting)
replay_overtakes_example =
    replay_overtakes queue_config submit_one 10 100 three_writes waiting due (due_too ∷ [])
      three_writes-IsValid ready_example refl (omega arith) refl (omega arith) refl
