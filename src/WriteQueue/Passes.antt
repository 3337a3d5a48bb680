-- ===== src/WriteQueue/Passes.antt =====
-- What one replay pass does to the queue, and what its early stop does not keep.
use Prim.Native.String.{String}
use mathlib.Core.Path.{subst}
use remitlend.Base.{
  ℕ, ◌+◌, ◌<◌, ◌≡◌, inl, inr, refl, sym, ◌∙◌, ap, true, false, some, List, [], ◌∷◌, arith, All,
  length,
}
use remitlend.Base.Result.{Result, ok, Result-cases}
use remitlend.WriteQueue.{QueuedWrite, Store, QueueConfig, pending, list_ready, mark_applied}
use remitlend.WriteQueue.Replay.{counted, replay_loop, run_replay_once}
use remitlend.WriteQueue.Rows.{
  Ascending, IsValid, find_id, mark_applied-IsValid, mark_failed-IsValid,
}
use remitlend.WriteQueue.Ready.{list_ready_lem, list_ready-found}
use remitlend.WriteQueue.Outcome.{
  as_applied, succeeding, first_failure, failures, expected, expected-absent, still_found,
  applied_step, expected-ok, expected-err, failed_step,
}

module _ {P : Type 0} where
  replay_loop_lem :
      (cfg : QueueConfig) (submit : QueuedWrite P → Result String (Unit {0})) (now : ℕ)
      (ws : List (QueuedWrite P)) (c a : ℕ) (s : Store P)
      → IsValid s
      → Ascending ws
      → All (λ w. find_id w.id s.rows ≡ some w) ws
      → let (r, s') = replay_loop cfg submit now ws c a s in
        IsValid s'
        × ((j : ℕ) → find_id j s'.rows ≡ expected cfg now submit ws j (find_id j s.rows))
        × (r
            ≡ counted
                (c + length (succeeding submit ws) + failures (first_failure submit ws))
                (a + length (succeeding submit ws))
                (failures (first_failure submit ws)))
  unfolding replay_loop
  replay_loop_lem cfg submit now [] c a s v asc found = (v, (λ j. refl), ground arith)
  replay_loop_lem cfg submit now (w ∷ ws) c a s v asc found = elim (Result-cases (submit w)) [
    | inl e ↦
        let s1 = mark_applied now w.id s in
        let ih =
          replay_loop_lem cfg submit now ws (c + 1) (a + 1) s1 (mark_applied-IsValid now w.id s v)
            asc.1 (still_found now w ws s asc.0 found.1) in
        rw (e, replay_loop)
          (
            ih.0,
            (λ j.
                ih.1 j
                ∙ applied_step cfg submit now w ws j s asc.0 found.0
                ∙ sym (expected-ok cfg submit now w ws j (find_id j s.rows) e)),
            ih.2 ∙ ground arith,
          )
    | inr (m, e) ↦
        rw (e, replay_loop)
          (
            mark_failed-IsValid cfg now w.id m (w.attempts + 1) s v,
            (λ j.
                failed_step cfg submit now w m j s found.0
                ∙ sym (expected-err cfg submit now w ws j (find_id j s.rows) e)),
            ground arith,
          )
  ]

  -- A pass over a valid store with the RPC available, and none in flight, leaves a valid store. Under each
  -- id the store then has: for the ready writes before the first whose submission fails, the row marked
  -- applied; for that one, the row pending again with one more attempt, its error, and a next attempt after
  -- the delay; and any other row unchanged. The result counts the applied writes and the failed one.
  pub replay_pass :
      (cfg : QueueConfig) (submit : QueuedWrite P → Result String (Unit {0})) (batch_size now : ℕ)
      (s : Store P)
      → IsValid s
      → let (r, s') = run_replay_once cfg submit false true batch_size now s in
        let ready = list_ready now batch_size s in
        let done = length (succeeding submit ready) in
        let lost = failures (first_failure submit ready) in
        IsValid s'
        × ((j : ℕ) → find_id j s'.rows ≡ expected cfg now submit ready j (find_id j s.rows))
        × (r ≡ counted (done + lost) done lost)
  unfolding run_replay_once
  replay_pass cfg submit batch_size now s v =
      let ready = list_ready now batch_size s in
      let (valid, rows, counts) =
        replay_loop_lem cfg submit now ready 0 0 s v (list_ready_lem now batch_size s v).1
          (list_ready-found now batch_size s v) in
      (valid, rows, counts ∙ ground arith)

  -- A write whose retry is not due does not hold back a later one: if the first ready write `b` has a
  -- greater id than a pending write `a` whose next attempt is still ahead, and submitting `b` succeeds,
  -- then the pass applies `b` and leaves `a` pending.
  pub replay_overtakes :
      (cfg : QueueConfig) (submit : QueuedWrite P → Result String (Unit {0})) (batch_size now : ℕ)
      (s : Store P) (a b : QueuedWrite P) (rest : List (QueuedWrite P))
      → IsValid s
      → list_ready now batch_size s ≡ b ∷ rest
      → find_id a.id s.rows ≡ some a
      → a.id < b.id
      → a.status ≡ pending
      → now < a.next_attempt_at
      → submit b ≡ ok tt
      → let s' = (run_replay_once cfg submit false true batch_size now s).1 in
        (find_id b.id s'.rows ≡ some (as_applied now b)) × (find_id a.id s'.rows ≡ some a)
  replay_overtakes cfg submit batch_size now s a b rest v head at lt st due sub =
      let (valid, rows, counts) = replay_pass cfg submit batch_size now s v in
      let asc = subst Ascending head (list_ready_lem now batch_size s v).1 in
      (
        rows b.id
            ∙ ap (λ l. expected cfg now submit l b.id (find_id b.id s.rows)) head
            ∙ expected-ok cfg submit now b rest b.id (find_id b.id s.rows) sub
            ∙ ground arith,
        rows a.id
            ∙ ap (λ l. expected cfg now submit l a.id (find_id a.id s.rows)) head
            ∙ expected-absent cfg now submit (b ∷ rest) a.id (find_id a.id s.rows)
                (lt, above a.id rest asc.0 lt)
            ∙ at,
      )
    where
      above :
          (n : ℕ) (ws : List (QueuedWrite P))
          → All (λ x. b.id < x.id) ws
          → n < b.id
          → All (λ x. n < x.id) ws
      above n [] h lt = tt
      above n (w ∷ ws) h lt = (omega (arith, h.0), above n ws h.1 lt)
