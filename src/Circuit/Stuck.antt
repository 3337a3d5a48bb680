-- ===== src/Circuit/Stuck.antt =====
-- A trial read whose loader throws an error that is not transient reports nothing to the breaker.
use Prim.Native.String.{String}
use mathlib.Core.Path.{subst}
use remitlend.Base.{
  ℕ, ◌+◌, ◌≤◌, ◌≡◌, sym, Bool, true, false, Option, none, some, List, [], ◌∷◌, arith, All, ap,
}
use remitlend.Base.Result.{err}
use remitlend.Circuit.{
  Config, Breaker, Snapshot, opened, half_open, should_short_circuit, record_stale_served,
  save_snapshot, read_snapshot,
}
use remitlend.Circuit.Probe.{check_availability}
use remitlend.Circuit.StaleRead.{
  ReadError, no_cached_data, thrown, Loaded, rejected, serve, after_load, with_stale_read,
}
use remitlend.Circuit.Invariant.{
  Call, step, run, short_circuit, stale_served, save, read, check, stale_read, success, failure,
  probe_end, reset_all,
}

-- The calls that an API process makes while it serves reads and queues writes: none reports an outcome
-- by itself, and no check is forced.
abbrev pub IsOrdinary : {V : Type 0} → Call V → Type 0
IsOrdinary (short_circuit _) = Unit
IsOrdinary (stale_served _) = Unit
IsOrdinary (save _ _ _) = Unit
IsOrdinary (read _ _) = Unit
IsOrdinary (check force _ _) = force ≡ false
IsOrdinary (stale_read _ _ _ _ _) = Unit
IsOrdinary (success _) = ⊥
IsOrdinary (failure _ _ _) = ⊥
IsOrdinary (probe_end _ _ _ _) = ⊥
IsOrdinary reset_all = ⊥

-- Half open, with a trial in flight and no probe under way.
abbrev pub IsStuck : {V : Type 0} → Breaker V → Type 0
IsStuck b = (b.state ≡ half_open) × (b.half_open_in_flight ≡ true) × (b.probe_in_flight ≡ false)

module _ {V : Type 0} (cfg : Config) where
  short_stuck : (t : ℕ) (b : Breaker V) → IsStuck b → should_short_circuit cfg t b ≡ (true, b)
  unfolding should_short_circuit
  short_stuck t b h = ground arith

  read-IsStuck :
      (key : String) (t : ℕ) (b : Breaker V) → IsStuck b → IsStuck (read_snapshot cfg key t b).1
  unfolding read_snapshot
  read-IsStuck key t b h = ground arith

  serve-IsStuck :
      (e : ReadError) (t : ℕ) (r : Option (Snapshot V) × Breaker V)
      → IsStuck r.1
      → IsStuck (serve e t r).1
  unfolding serve record_stale_served
  serve-IsStuck e t (none, b) h = h
  serve-IsStuck e t (some s, b) h = h

  check_stuck :
      (now later : ℕ) (b : Breaker V) → IsStuck b → (check_availability cfg false now later b).1 ≡ b
  unfolding check_availability
  check_stuck now later b h = ground (arith, short_stuck later b h)

  stale_read-IsStuck :
      (transient : String → Bool) (key : String) (now later : ℕ) (answer : Loaded V) (b : Breaker V)
      → IsStuck b
      → IsStuck (with_stale_read cfg transient key now later answer b).1
  unfolding with_stale_read
  stale_read-IsStuck transient key now later answer b h =
      rw (short_stuck now b h, with_stale_read)
        (serve-IsStuck no_cached_data now (read_snapshot cfg key now b) (read-IsStuck key now b h))

  step-IsStuck : (c : Call V) (b : Breaker V) → IsOrdinary c → IsStuck b → IsStuck (step cfg c b)
  unfolding step
  step-IsStuck (short_circuit t) b o h = subst (λ p. IsStuck p.1) (sym (short_stuck t b h)) h
  step-IsStuck (stale_served t) b o h = unfold record_stale_served in h
  step-IsStuck (save key value t) b o h = unfold save_snapshot in h
  step-IsStuck (read key t) b o h = read-IsStuck key t b h
  step-IsStuck (check force now later) b o h =
      subst (λ f. IsStuck (check_availability cfg f now later b).1) (sym o)
        (subst IsStuck (sym (check_stuck now later b h)) h)
  step-IsStuck (stale_read transient key now later answer) b o h =
      stale_read-IsStuck transient key now later answer b h
  step-IsStuck (success t) b o h = absurd o
  step-IsStuck (failure m t l) b o h = absurd o
  step-IsStuck (probe_end p t l k) b o h = absurd o
  step-IsStuck reset_all b o h = absurd o

  run-IsStuck :
      (cs : List (Call V)) (b : Breaker V) → All IsOrdinary cs → IsStuck b → IsStuck (run cfg cs b)
  unfolding run
  run-IsStuck [] b o h = h
  run-IsStuck (c ∷ cs) b o h = run-IsStuck cs (step cfg c b) o.1 (step-IsStuck c b o.0 h)

  after_trial_read :
      (transient : String → Bool) (key message : String) (now later : ℕ) (b : Breaker V)
      → b.state ≡ opened
      → b.opened_at + cfg.cooldown_ms ≤ now
      → transient message ≡ false
      → b.probe_in_flight ≡ false
      → let r = with_stale_read cfg transient key now later (rejected message) b in
        (r.0 ≡ err (thrown message)) × IsStuck r.1
  unfolding with_stale_read after_load should_short_circuit
  after_trial_read transient key message now later b o c t p = ground arith

  -- An open circuit whose cooldown is over admits a read. If its loader throws an error that does not
  -- count as transient, the read throws that error, and from then on, whatever reads, snapshots and
  -- unforced checks follow, every call at every time is rejected: the trial stays in flight for good.
  pub nontransient_trial_sticks :
      (transient : String → Bool) (key message : String) (now later : ℕ) (b : Breaker V)
      → b.state ≡ opened
      → b.opened_at + cfg.cooldown_ms ≤ now
      → transient message ≡ false
      → b.probe_in_flight ≡ false
      → (cs : List (Call V)) → All IsOrdinary cs
      → (t : ℕ)
      → let (r, c) = with_stale_read cfg transient key now later (rejected message) b in
        (r ≡ err (thrown message)) × ((should_short_circuit cfg t (run cfg cs c)).0 ≡ true)
  nontransient_trial_sticks transient key message now later b o c tr p cs ord t =
      let (r, s) = after_trial_read transient key message now later b o c tr p in
      let d = (with_stale_read cfg transient key now later (rejected message) b).1 in
      (r, ap (λ q. q.0) (short_stuck t (run cfg cs d) (run-IsStuck cs d ord s)))
