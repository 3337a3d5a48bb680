-- ===== src/WriteQueue/Replay.antt =====
-- backend/src/services/sorobanWriteReplayProcessor.ts: `runSorobanWriteReplayOnce`. What `submit` does
-- with a write, and whether the RPC is available, are arguments.
use Prim.Native.String.{String}
use remitlend.Base.{ℕ, ◌+◌, Bool, true, false, not, List, [], ◌∷◌, if◌then◌else◌}
use remitlend.Base.Result.{Result, ok, err}
use remitlend.WriteQueue.{QueuedWrite, Store, QueueConfig, list_ready, mark_applied, mark_failed}

pub record ReplayResult : Type 0 where
  pub skipped : Bool
  pub considered : ℕ
  pub applied : ℕ
  pub failed : ℕ

abbrev pub counted : ℕ → ℕ → ℕ → ReplayResult
counted considered applied failed = record {
  skipped = false;
  considered = considered;
  applied = applied;
  failed = failed;
}

abbrev pub skip : ReplayResult
skip = record { skipped = true; considered = 0; applied = 0; failed = 0 }

module _ {P : Type 0} where
  -- The `for` loop over the ready writes, with the counts so far.
  unfoldable pub replay_loop :
      QueueConfig
      → (QueuedWrite P → Result String (Unit {0}))
      → ℕ
      → List (QueuedWrite P)
      → ℕ
      → ℕ
      → Store P
      → ReplayResult × Store P
  replay_loop cfg submit now [] considered applied s = (counted considered applied 0, s)
  replay_loop cfg submit now (w ∷ ws) considered applied s = elim (submit w) [
    | ok _ ↦ replay_loop cfg submit now ws (considered + 1) (applied + 1) (mark_applied now w.id s)
    | err message ↦ (
      counted (considered + 1) applied 1,
      (mark_failed cfg now w.id message (w.attempts + 1) s).1,
    )
  ]

  -- One pass. `run_in_flight` says that another pass has not ended; `now` is the clock of the pass.
  unfoldable pub run_replay_once :
      QueueConfig
      → (QueuedWrite P → Result String (Unit {0}))
      → Bool
      → Bool
      → ℕ
      → ℕ
      → Store P
      → ReplayResult × Store P
  run_replay_once cfg submit run_in_flight available batch_size now s =
      if run_in_flight
      then (skip, s)
      else if not available
      then (skip, s)
      else replay_loop cfg submit now (list_ready now batch_size s) 0 0 s
