-- ===== src/Circuit.antt =====
-- backend/src/services/sorobanCircuitBreaker.ts: the class `SorobanCircuitBreaker`. A call of
-- `Date.now()` is an argument, in milliseconds; comparisons of a difference of two times are written
-- as sums, so that a clock that steps back gives the source's answer too. The state `'open'` is
-- `opened`. Logging is left out. A method that awaits the RPC is split at the `await`.
pub mod Probe
pub mod StaleRead
pub mod Invariant
pub mod Trial
pub mod Stuck
pub mod Snapshots
mod Tests
use Prim.Native.String.{String}
use remitlend.Base.{
  ℕ, zero, suc, ◌+◌, Bool, true, false, not, ◌&&◌, ◌||◌, Option, none, some, ltb, leb,
  if◌then◌else◌,
}
use remitlend.Base.Int.{ℤ, pos, negsuc}
use remitlend.Base.Assoc.{Assoc, lookup, insert, erase}

pub data CircuitState : Type 0 where
  closed opened half_open : CircuitState

pub record Availability : Type 0 where
  pub available : Bool
  pub latest_ledger : Option ℕ
  pub error : Option String
  pub checked_at : ℕ

pub record Snapshot (V : Type 0) : Type 0 where
  pub value : V
  pub stored_at : ℕ

pub record DegradationStatus : Type 0 where
  pub state : CircuitState
  pub available : Bool
  pub degraded : Bool
  pub consecutive_failures : ℕ
  pub last_checked_at : Option ℕ
  pub last_success_at : Option ℕ
  pub last_failure_at : Option ℕ
  pub last_error : Option String
  pub last_stale_served_at : Option ℕ
  pub warning : Option String

abbrev pub soroban_degradation_warning : String
soroban_degradation_warning =
    "Stellar RPC is currently unavailable. Serving the last known on-chain data; write operations are queued and will be replayed automatically."

-- `Number.isFinite(parsed) && parsed > 0 ? parsed : fallback`, `none` being a number that is not finite.
abbrev pub or_fallback : Option ℤ → ℕ → ℕ
or_fallback none fallback = fallback
or_fallback (some (pos zero)) fallback = fallback
or_fallback (some (pos (suc n))) fallback = suc n
or_fallback (some (negsuc n)) fallback = fallback

-- `parse_int` stands for `Number.parseInt` in base ten. An empty text is falsy.
unfoldable pub read_positive_int : (String → Option ℤ) → Option String → ℕ → ℕ
read_positive_int parse_int none fallback = fallback
read_positive_int parse_int (some String.[]) fallback = fallback
read_positive_int parse_int (some (String.◌∷◌ c s)) fallback =
    or_fallback (parse_int (String.◌∷◌ c s)) fallback

-- The getters of the class, read from the environment.
pub record Config : Type 0 where
  pub health_cache_ms : ℕ
  pub failure_threshold : ℕ
  pub cooldown_ms : ℕ
  pub stale_read_ttl_ms : ℕ
  pub stale_warning_ttl_ms : ℕ

unfoldable pub config_of : (String → Option ℤ) → (String → Option String) → Config
unfolding read_positive_int
config_of parse_int env = record {
  health_cache_ms = read_positive_int parse_int (env "SOROBAN_RPC_HEALTH_CACHE_MS") 3000;
  failure_threshold = read_positive_int parse_int (env "SOROBAN_CIRCUIT_FAILURE_THRESHOLD") 3;
  cooldown_ms = read_positive_int parse_int (env "SOROBAN_CIRCUIT_COOLDOWN_MS") 15000;
  stale_read_ttl_ms = read_positive_int parse_int (env "SOROBAN_STALE_READ_TTL_MS") 3600000;
  stale_warning_ttl_ms = read_positive_int parse_int (env "SOROBAN_STALE_WARNING_TTL_MS") 60000;
}

-- The fields of the class. `probe_in_flight` says whether a probe's promise is held.
pub record Breaker (V : Type 0) : Type 0 where
  pub state : CircuitState
  pub consecutive_failures : ℕ
  pub opened_at : ℕ
  pub half_open_in_flight : Bool
  pub last_success_at : Option ℕ
  pub last_failure_at : Option ℕ
  pub last_error : Option String
  pub last_stale_served_at : Option ℕ
  pub cached_availability : Option Availability
  pub probe_in_flight : Bool
  pub snapshots : Assoc (Snapshot V)

abbrev pub is_closed : CircuitState → Bool
is_closed closed = true
is_closed _ = false

abbrev pub is_opened : CircuitState → Bool
is_opened opened = true
is_opened _ = false

abbrev pub is_half_open : CircuitState → Bool
is_half_open half_open = true
is_half_open _ = false

module _ {V : Type 0} where
  -- `shouldShortCircuit` from its second test on.
  try_half_open : Breaker V → Bool × Breaker V
  try_half_open b =
      if is_half_open b.state
      then (if b.half_open_in_flight
          then (true, b)
          else (false, record b { half_open_in_flight = true }))
      else (false, b)

  unfoldable pub should_short_circuit : Config → ℕ → Breaker V → Bool × Breaker V
  unfolding try_half_open
  should_short_circuit cfg now b =
      if is_opened b.state
      then (if ltb now (b.opened_at + cfg.cooldown_ms)
          then (true, b)
          else try_half_open (record b { state = half_open; half_open_in_flight = false }))
      else try_half_open b

  unfoldable pub record_success : ℕ → Breaker V → Breaker V
  record_success now b = record b {
    state = closed;
    consecutive_failures = 0;
    half_open_in_flight = false;
    last_success_at = some now;
    last_error = none;
  }

  -- The clock is read twice: for `lastFailureAt`, and for `openedAt`.
  unfoldable pub record_failure : Config → String → ℕ → ℕ → Breaker V → Breaker V
  record_failure cfg message now later b =
      let c = record b {
        last_error = some message;
        last_failure_at = some now;
        half_open_in_flight = false;
        consecutive_failures = b.consecutive_failures + 1;
      } in
      let should_open =
        is_half_open b.state || leb cfg.failure_threshold (b.consecutive_failures + 1) in
      if should_open && not (is_opened b.state)
      then record c { state = opened; opened_at = later }
      else c

  unfoldable pub record_stale_served : ℕ → Breaker V → Breaker V
  record_stale_served now b = record b { last_stale_served_at = some now }

  unfoldable pub save_snapshot : String → V → ℕ → Breaker V → Breaker V
  save_snapshot key value now b = record b {
    snapshots = insert key (record { value = value; stored_at = now }) b.snapshots;
  }

  unfoldable pub read_snapshot : Config → String → ℕ → Breaker V → Option (Snapshot V) × Breaker V
  read_snapshot cfg key now b = elim (lookup key b.snapshots) [
    | none ↦ (none, b)
    | some entry ↦
        if ltb (entry.stored_at + cfg.stale_read_ttl_ms) now
        then (none, record b { snapshots = erase key b.snapshots })
        else (some entry, b)
  ]
