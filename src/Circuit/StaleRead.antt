-- ===== src/Circuit/StaleRead.antt =====
-- backend/src/services/sorobanService.ts: `withStaleRead`, a read through the breaker. What the loader
-- gives is an argument, and `transient` is `isTransientRpcError` of the message it throws.
use Prim.Native.String.{String}
use remitlend.Base.{ℕ, Bool, Option, none, some, if◌then◌else◌}
use remitlend.Base.Result.{Result, ok, err}
use remitlend.Circuit.{
  Config, Breaker, Snapshot, should_short_circuit, record_success, record_failure,
  record_stale_served, save_snapshot, read_snapshot,
}

pub data ReadError : Type 0 where
  no_cached_data : ReadError
  thrown : String → ReadError

pub data Loaded (V : Type 0) : Type 0 where
  loaded : V → Loaded V
  rejected : String → Loaded V

module _ {V : Type 0} where
  unfoldable pub serve :
      ReadError → ℕ → Option (Snapshot V) × Breaker V → Result ReadError V × Breaker V
  serve e now (none, b) = (err e, b)
  serve e now (some s, b) = (ok s.value, record_stale_served now b)

  unfoldable pub after_load :
      Config → (String → Bool) → String → ℕ → Loaded V → Breaker V → Result ReadError V × Breaker V
  unfolding serve
  after_load cfg transient key now (loaded value) b =
      (ok value, save_snapshot key value now (record_success now b))
  after_load cfg transient key now (rejected message) b =
      if transient message
      then serve (thrown message) now
          (read_snapshot cfg key now (record_failure cfg message now now b))
      else (err (thrown message), b)

  -- `now` is the clock before the loader runs, and `later` after it.
  unfoldable pub with_stale_read :
      Config
      → (String → Bool)
      → String
      → ℕ
      → ℕ
      → Loaded V
      → Breaker V
      → Result ReadError V × Breaker V
  unfolding serve after_load
  with_stale_read cfg transient key now later answer b =
      let (short, c) = should_short_circuit cfg now b in
      if short
      then serve no_cached_data now (read_snapshot cfg key now c)
      else after_load cfg transient key later answer c
