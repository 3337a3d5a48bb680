-- ===== src/Circuit/Probe.antt =====
-- sorobanCircuitBreaker.ts: `checkAvailability` up to its `await`, `runProbe` from its `await` on,
-- `getStatus` and `reset`. What the RPC answers is an argument.
use Prim.Native.String.{String}
use remitlend.Base.{
  ℕ, ◌+◌, Bool, true, false, not, ◌&&◌, ◌||◌, Option, none, some, [], ltb, if◌then◌else◌,
}
use remitlend.Circuit.{
  Config, Availability, Breaker, DegradationStatus, closed, is_closed, should_short_circuit,
  record_success, record_failure, soroban_degradation_warning,
}

-- How a check ends: with an answer, by joining the probe that is in flight, or by starting one.
pub data CheckOutcome : Type 0 where
  answered : Availability → CheckOutcome
  joined started : CheckOutcome

-- What the awaited RPC call gave: the latest ledger if it is defined, or the error thrown, which may be
-- a `SorobanCircuitOpenError`.
pub data ProbeOutcome : Type 0 where
  reached : Option ℕ → ProbeOutcome
  failed circuit_open_error : String → ProbeOutcome

abbrev pub default {ℓ} : {A : Type ℓ} → Option A → A → A
default none a = a
default (some x) _ = x

unfoldable pub is_fresh : Config → ℕ → Option Availability → Bool
is_fresh cfg now none = false
is_fresh cfg now (some a) = ltb now (a.checked_at + cfg.health_cache_ms)

served_recently : Config → ℕ → Option ℕ → Bool
served_recently cfg now none = false
served_recently cfg now (some t) = ltb now (t + cfg.stale_warning_ttl_ms)

module _ {V : Type 0} where
  -- The end of `checkAvailability`.
  join_or_start : Breaker V → CheckOutcome × Breaker V
  join_or_start b =
      if b.probe_in_flight then (joined, b) else (started, record b { probe_in_flight = true })

  -- `this.cachedAvailability ?? …` where the circuit is short.
  short_answer : ℕ → Breaker V → Availability
  short_answer now b = default b.cached_availability (record {
    available = false;
    latest_ledger = none;
    error = some (default b.last_error "Soroban RPC circuit is open");
    checked_at = now;
  })

  -- A cached answer that is fresh, unless the check is forced.
  cached_answer : Config → Bool → ℕ → Breaker V → Option Availability
  unfolding is_fresh
  cached_answer cfg force now b =
      if not force && is_fresh cfg now b.cached_availability then b.cached_availability else none

  -- `later` is the clock as `shouldShortCircuit` reads it.
  unfoldable pub check_availability : Config → Bool → ℕ → ℕ → Breaker V → CheckOutcome × Breaker V
  unfolding join_or_start short_answer cached_answer
  check_availability cfg force now later b = elim (cached_answer cfg force now b) [
    | some a ↦ (answered a, b)
    | none ↦
        if not force && not b.probe_in_flight
        then (let (short, c) = should_short_circuit cfg later b in
            if short then (answered (short_answer now c), c) else join_or_start c)
        else join_or_start b
  ]

  -- `runProbe` after the `await`, and the `finally` that drops the promise.
  unfoldable pub finish_probe : Config → ProbeOutcome → ℕ → ℕ → ℕ → Breaker V → Breaker V
  finish_probe cfg (reached ledger) now later last b =
      let c = record_success now b in
      record c {
        cached_availability =
            some (record {
              available = true;
              latest_ledger = ledger;
              error = none;
              checked_at = last;
            });
        probe_in_flight = false;
      }
  finish_probe cfg (failed message) now later last b =
      let c = record_failure cfg message now later b in
      record c {
        cached_availability = some (record {
          available = false;
          latest_ledger = none;
          error = some message;
          checked_at = last;
        });
        probe_in_flight = false;
      }
  finish_probe cfg (circuit_open_error message) now later last b = record b {
    cached_availability = some (record {
      available = false;
      latest_ledger = none;
      error = some message;
      checked_at = last;
    });
    probe_in_flight = false;
  }

  unfoldable pub get_status : Config → ℕ → Breaker V → DegradationStatus
  unfolding served_recently
  get_status cfg now b =
      let degraded = not (is_closed b.state) || served_recently cfg now b.last_stale_served_at in
      record {
        state = b.state;
        available = elim b.cached_availability [ none ↦ is_closed b.state | some a ↦ a.available ];
        degraded = degraded;
        consecutive_failures = b.consecutive_failures;
        last_checked_at = elim b.cached_availability [ none ↦ none | some a ↦ some a.checked_at ];
        last_success_at = b.last_success_at;
        last_failure_at = b.last_failure_at;
        last_error = b.last_error;
        last_stale_served_at = b.last_stale_served_at;
        warning = if degraded then some soroban_degradation_warning else none;
      }

-- `reset`, which sets the fields to what a new breaker has.
unfoldable pub reset : {V : Type 0} → Breaker V
reset = record {
  state = closed;
  consecutive_failures = 0;
  opened_at = 0;
  half_open_in_flight = false;
  last_success_at = none;
  last_failure_at = none;
  last_error = none;
  last_stale_served_at = none;
  cached_availability = none;
  probe_in_flight = false;
  snapshots = [];
}
