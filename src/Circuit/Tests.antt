-- ===== src/Circuit/Tests.antt =====
-- sorobanCircuitBreaker.ts and `withStaleRead` at concrete times, with a threshold of two failures.
use Prim.Native.String.{String}
use text.Mathlib.TextEquality.{eq_iff}
use remitlend.Base.{
  ℕ, ◌≤◌, ◌<◌, ◌≡◌, ◌≢◌, ◌⊎◌, refl, true, false, Option, none, some, List, [], ◌∷◌, arith,
}
use remitlend.Base.Result.{err}
use remitlend.Base.Assoc.{lookup}
use remitlend.Circuit.{Config, Breaker, closed, opened, half_open, config_of, should_short_circuit}
use remitlend.Circuit.Probe.{reset}
use remitlend.Circuit.StaleRead.{loaded, rejected, thrown, with_stale_read}
use remitlend.Circuit.Invariant.{Call, failure, short_circuit, stale_read, run, breaker_consistent}
use remitlend.Circuit.Trial.{answers, in_trial, one_trial}
use remitlend.Circuit.Stuck.{nontransient_trial_sticks}

abbrev config_example : Config
config_example = record {
  health_cache_ms = 3000;
  failure_threshold = 2;
  cooldown_ms = 100;
  stale_read_ttl_ms = 500;
  stale_warning_ttl_ms = 60;
}

abbrev new_breaker : Breaker ℕ
new_breaker = record {
  state = closed;
  consecutive_failures = 0;
  opened_at = 0;
  half_open_in_flight = false;
  last_success_at = none;
  last_failure_at = none;
  last_error = none;
  last_stale_served_at = none;
  cached_availability = none;
  probe_in_flight = false;
  snapshots = ("loan", record { value = 7; stored_at = 900 }) ∷ [];
}

abbrev opened_breaker : Breaker ℕ
opened_breaker = record new_breaker { state = opened; consecutive_failures = 2; opened_at = 1000 }

abbrev trial_breaker : Breaker ℕ
trial_breaker = in_trial opened_breaker

abbrev no_env : String → Option String
no_env _ = none

abbrev three_failures : List (Call ℕ)
three_failures = failure "a" 1 1 ∷ failure "b" 2 2 ∷ failure "c" 3 3 ∷ short_circuit 20000 ∷ []

keys_differ : ◌≢◌ {A = String} "loan" "pool"
keys_differ e = let no : false ≡ true = (eq_iff "loan" "pool").1 e in absurd (cc)

new_admits : (should_short_circuit config_example 1000 new_breaker).0 ≡ false
unfolding should_short_circuit
new_admits = refl

opened_rejects : (should_short_circuit config_example 1050 opened_breaker).0 ≡ true
unfolding should_short_circuit
opened_rejects = refl

opened_keeps :
    lookup "loan" (should_short_circuit config_example 1050 opened_breaker).1.snapshots
    ≡ some (record { value = 7; stored_at = 900 })
unfolding should_short_circuit
opened_keeps = refl

breaker_consistent_example :
    let cfg = config_of (λ s. none) no_env in
    let b = run cfg three_failures reset in
    (((b.state ≡ closed) × (b.consecutive_failures < cfg.failure_threshold))
      ⊎ ((b.state ≢ closed) × (cfg.failure_threshold ≤ b.consecutive_failures)))
    × ((b.half_open_in_flight ≡ false) ⊎ (b.state ≡ half_open))
breaker_consistent_example = breaker_consistent (λ s. none) no_env three_failures

one_trial_example :
    (answers config_example (1000 ∷ 1099 ∷ []) opened_breaker ≡ (true ∷ true ∷ [], opened_breaker))
    × (answers config_example (1100 ∷ 1101 ∷ 9000 ∷ []) opened_breaker
        ≡ (false ∷ true ∷ true ∷ [], trial_breaker))
one_trial_example =
    one_trial config_example (1000 ∷ 1099 ∷ []) 1100 (1101 ∷ 9000 ∷ []) opened_breaker refl
      (omega arith, (omega arith, tt)) (omega arith)

abbrev two_failures : List (String × ℕ × ℕ)
two_failures = ("a", 1, 1) ∷ ("b", 2, 2) ∷ []

abbrev later_reads : List (Call ℕ)
later_reads = stale_read (λ m. true) "loan" 2000 2001 (loaded 8) ∷ short_circuit 3000 ∷ []

nontransient_trial_sticks_example :
    let (r, c) =
      with_stale_read config_example
        (λ m. false)
        "loan"
        1100
        1150
        (rejected "bad input")
        opened_breaker in
    (r ≡ err (thrown "bad input"))
    × ((should_short_circuit config_example 99999 (run config_example later_reads c)).0 ≡ true)
nontransient_trial_sticks_example =
    nontransient_trial_sticks config_example (λ m. false) "loan" "bad input" 1100 1150
      opened_breaker refl (omega arith) refl refl later_reads (tt, (tt, tt)) 99999
