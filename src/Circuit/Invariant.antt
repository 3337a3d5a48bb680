-- ===== src/Circuit/Invariant.antt =====
-- The breaker's state agrees with its failure count, whatever sequence of calls it has served.
use Prim.Native.String.{String}
use remitlend.Base.{
  ℕ, zero, suc, ◌≤◌, ◌<◌, ◌≡◌, ◌≢◌, ◌⊎◌, refl, Bool, true, false, Option, none, some, List, [], ◌∷◌,
  arith, Bool-cases, inl, inr,
}
use remitlend.Base.Int.{ℤ, pos, negsuc}
use remitlend.Circuit.{
  Config, Breaker, CircuitState, Snapshot, closed, opened, half_open, config_of, read_positive_int,
  or_fallback, should_short_circuit, record_success, record_failure, record_stale_served,
  save_snapshot, read_snapshot,
}
use remitlend.Circuit.Probe.{
  ProbeOutcome, reached, failed, circuit_open_error, check_availability, finish_probe, reset,
}
use remitlend.Circuit.StaleRead.{
  ReadError, no_cached_data, thrown, Loaded, loaded, rejected, serve, after_load, with_stale_read,
}

-- The circuit is closed exactly while fewer failures have been counted than the threshold, and a trial
-- is in flight only while it is half open.
pub record IsConsistent {V : Type 0} (cfg : Config) (b : Breaker V) : Type 0 where
  pub closed_below : b.state ≡ closed → b.consecutive_failures < cfg.failure_threshold
  pub broken_above : b.state ≢ closed → cfg.failure_threshold ≤ b.consecutive_failures
  pub trial_half_open : b.half_open_in_flight ≡ true → b.state ≡ half_open

-- A call of the breaker's methods, with the times that the clock gave.
pub data Call (V : Type 0) : Type 0 where
  short_circuit : ℕ → Call V
  success : ℕ → Call V
  failure : String → ℕ → ℕ → Call V
  stale_served : ℕ → Call V
  save : String → V → ℕ → Call V
  read : String → ℕ → Call V
  check : Bool → ℕ → ℕ → Call V
  probe_end : ProbeOutcome → ℕ → ℕ → ℕ → Call V
  stale_read : (String → Bool) → String → ℕ → ℕ → Loaded V → Call V
  reset_all : Call V

module _ {V : Type 0} where
  unfoldable pub step : Config → Call V → Breaker V → Breaker V
  step cfg (short_circuit now) b = (should_short_circuit cfg now b).1
  step cfg (success now) b = record_success now b
  step cfg (failure message now later) b = record_failure cfg message now later b
  step cfg (stale_served now) b = record_stale_served now b
  step cfg (save key value now) b = save_snapshot key value now b
  step cfg (read key now) b = (read_snapshot cfg key now b).1
  step cfg (check force now later) b = (check_availability cfg force now later b).1
  step cfg (probe_end outcome now later last) b = finish_probe cfg outcome now later last b
  step cfg (stale_read transient key now later answer) b =
      (with_stale_read cfg transient key now later answer b).1
  step cfg reset_all b = reset

  unfoldable pub run : Config → List (Call V) → Breaker V → Breaker V
  unfolding step
  run cfg [] b = b
  run cfg (c ∷ cs) b = run cfg cs (step cfg c b)

  module _ (cfg : Config) (positive : 0 < cfg.failure_threshold) where
    pub reset-IsConsistent : IsConsistent cfg (reset {V = V})
    unfolding reset
    reset-IsConsistent = ground arith

    short-IsConsistent :
        (now : ℕ) (b : Breaker V)
        → IsConsistent cfg b
        → IsConsistent cfg (should_short_circuit cfg now b).1
    unfolding should_short_circuit
    short-IsConsistent now b h = ground arith

    success-IsConsistent :
        (now : ℕ) (b : Breaker V) → IsConsistent cfg b → IsConsistent cfg (record_success now b)
    unfolding record_success
    success-IsConsistent now b h = ground arith

    failure-IsConsistent :
        (message : String) (now later : ℕ) (b : Breaker V)
        → IsConsistent cfg b
        → IsConsistent cfg (record_failure cfg message now later b)
    unfolding record_failure
    failure-IsConsistent message now later b h = ground arith

    read-IsConsistent :
        (key : String) (now : ℕ) (b : Breaker V)
        → IsConsistent cfg b
        → IsConsistent cfg (read_snapshot cfg key now b).1
    unfolding read_snapshot
    read-IsConsistent key now b h = ground arith

    check-IsConsistent :
        (force : Bool) (now later : ℕ) (b : Breaker V)
        → IsConsistent cfg b
        → IsConsistent cfg (check_availability cfg force now later b).1
    unfolding check_availability
    check-IsConsistent force now later b h = ground (arith, short-IsConsistent later b)

    probe-IsConsistent :
        (outcome : ProbeOutcome) (now later last : ℕ) (b : Breaker V)
        → IsConsistent cfg b
        → IsConsistent cfg (finish_probe cfg outcome now later last b)
    unfolding finish_probe
    probe-IsConsistent (reached l) now later last b h = ground (arith, success-IsConsistent now b h)
    probe-IsConsistent (failed m) now later last b h =
        ground (arith, failure-IsConsistent m now later b h)
    probe-IsConsistent (circuit_open_error m) now later last b h = ground arith

    serve-IsConsistent :
        (e : ReadError) (now : ℕ) (r : Option (Snapshot V) × Breaker V)
        → IsConsistent cfg r.1
        → IsConsistent cfg (serve e now r).1
    unfolding serve record_stale_served
    serve-IsConsistent e now (none, b) h = h
    serve-IsConsistent e now (some s, b) h = ground arith

    after_load-IsConsistent :
        (transient : String → Bool) (key : String) (now : ℕ) (answer : Loaded V) (b : Breaker V)
        → IsConsistent cfg b
        → IsConsistent cfg (after_load cfg transient key now answer b).1
    unfolding after_load
    after_load-IsConsistent transient key now (loaded v) b h =
        unfold record_success save_snapshot in ground arith
    after_load-IsConsistent transient key now (rejected m) b h = elim (Bool-cases (transient m)) [
      | inl e ↦ rw e (
          serve-IsConsistent (thrown m) now
            (read_snapshot cfg key now (record_failure cfg m now now b))
            (read-IsConsistent key now (record_failure cfg m now now b)
              (failure-IsConsistent m now now b h)))
      | inr e ↦ rw e h
    ]

    stale_read-IsConsistent :
        (transient : String → Bool) (key : String) (now later : ℕ) (answer : Loaded V)
        (b : Breaker V)
        → IsConsistent cfg b
        → IsConsistent cfg (with_stale_read cfg transient key now later answer b).1
    unfolding with_stale_read
    stale_read-IsConsistent transient key now later answer b h =
        elim (Bool-cases (should_short_circuit cfg now b).0) [
          | inl e ↦ rw e (
              serve-IsConsistent no_cached_data now
                (read_snapshot cfg key now (should_short_circuit cfg now b).1)
                (read-IsConsistent key now (should_short_circuit cfg now b).1
                  (short-IsConsistent now b h)))
          | inr e ↦ rw e (
              after_load-IsConsistent transient key later answer (should_short_circuit cfg now b).1
                (short-IsConsistent now b h))
        ]

    pub step-IsConsistent :
        (c : Call V) (b : Breaker V) → IsConsistent cfg b → IsConsistent cfg (step cfg c b)
    unfolding step
    step-IsConsistent (short_circuit now) b h = short-IsConsistent now b h
    step-IsConsistent (success now) b h = success-IsConsistent now b h
    step-IsConsistent (failure message now later) b h = failure-IsConsistent message now later b h
    step-IsConsistent (stale_served now) b h = unfold record_stale_served in ground arith
    step-IsConsistent (save key value now) b h = unfold save_snapshot in ground arith
    step-IsConsistent (read key now) b h = read-IsConsistent key now b h
    step-IsConsistent (check force now later) b h = check-IsConsistent force now later b h
    step-IsConsistent (probe_end outcome now later last) b h =
        probe-IsConsistent outcome now later last b h
    step-IsConsistent (stale_read transient key now later answer) b h =
        stale_read-IsConsistent transient key now later answer b h
    step-IsConsistent reset_all b h = reset-IsConsistent

    run-IsConsistent :
        (cs : List (Call V)) (b : Breaker V) → IsConsistent cfg b → IsConsistent cfg (run cfg cs b)
    unfolding run
    run-IsConsistent [] b h = h
    run-IsConsistent (c ∷ cs) b h = run-IsConsistent cs (step cfg c b) (step-IsConsistent c b h)

or_fallback-pos :
    (parsed : Option ℤ) (fallback : ℕ) → 0 < fallback → 0 < or_fallback parsed fallback
or_fallback-pos none fallback h = h
or_fallback-pos (some (pos zero)) fallback h = h
or_fallback-pos (some (pos (suc n))) fallback h = omega arith
or_fallback-pos (some (negsuc n)) fallback h = h

read_positive_int-pos :
    (parse_int : String → Option ℤ) (raw : Option String) (fallback : ℕ)
    → 0 < fallback
    → 0 < read_positive_int parse_int raw fallback
unfolding read_positive_int
read_positive_int-pos parse_int none fallback h = h
read_positive_int-pos parse_int (some String.[]) fallback h = h
read_positive_int-pos parse_int (some (String.◌∷◌ c s)) fallback h =
    or_fallback-pos (parse_int (String.◌∷◌ c s)) fallback h

threshold-pos :
    (parse_int : String → Option ℤ) (env : String → Option String)
    → 0 < (config_of parse_int env).failure_threshold
unfolding config_of
threshold-pos parse_int env =
    read_positive_int-pos parse_int (env "SOROBAN_CIRCUIT_FAILURE_THRESHOLD") 3 (omega arith)

closed_or_not : (s : CircuitState) → (s ≡ closed) ⊎ (s ≢ closed)
closed_or_not closed = inl refl
closed_or_not opened = inr (λ e. cc)
closed_or_not half_open = inr (λ e. cc)

split_consistent :
    {V : Type 0} (cfg : Config) (b : Breaker V)
    → IsConsistent cfg b
    → (((b.state ≡ closed) × (b.consecutive_failures < cfg.failure_threshold))
        ⊎ ((b.state ≢ closed) × (cfg.failure_threshold ≤ b.consecutive_failures)))
      × ((b.half_open_in_flight ≡ false) ⊎ (b.state ≡ half_open))
split_consistent cfg b h = (
  elim (closed_or_not b.state) [
    | inl e ↦ inl (e, h.closed_below e)
    | inr n ↦ inr (n, h.broken_above n)
  ],
  elim (Bool-cases b.half_open_in_flight) [ inl e ↦ inr (h.trial_half_open e) | inr e ↦ inl e ],
)

-- After any sequence of calls on a new breaker, in any environment, the circuit is closed while fewer
-- failures have been counted than the configured threshold and not closed otherwise, and a trial call is
-- marked in flight only while the circuit is half open.
pub breaker_consistent :
    {V : Type 0} (parse_int : String → Option ℤ) (env : String → Option String) (cs : List (Call V))
    → let cfg = config_of parse_int env in
      let b = run cfg cs reset in
      (((b.state ≡ closed) × (b.consecutive_failures < cfg.failure_threshold))
        ⊎ ((b.state ≢ closed) × (cfg.failure_threshold ≤ b.consecutive_failures)))
      × ((b.half_open_in_flight ≡ false) ⊎ (b.state ≡ half_open))
breaker_consistent parse_int env cs =
    let cfg = config_of parse_int env in
    split_consistent cfg (run cfg cs reset) (
      run-IsConsistent cfg (threshold-pos parse_int env) cs reset
        (reset-IsConsistent cfg (threshold-pos parse_int env)))
