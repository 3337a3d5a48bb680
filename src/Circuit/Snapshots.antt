-- ===== src/Circuit/Snapshots.antt =====
-- The breaker's snapshot store, and what a read through the breaker returns.
use Prim.Native.String.{String}
use text.Mathlib.TextEquality.{eq_iff}
use remitlend.Base.{
  leb, if◌then◌else◌, ℕ, ◌+◌, ◌≤◌, ◌<◌, ◌≡◌, ◌≢◌, Bool, true, false, none, some, arith,
}
use remitlend.Base.Result.{ok, err}
use remitlend.Base.Assoc.{lookup, insert, lookup-insert, lookup-erase}
use remitlend.Circuit.{
  Config, Breaker, Snapshot, closed, should_short_circuit, record_success, save_snapshot,
  read_snapshot,
}
use remitlend.Circuit.StaleRead.{no_cached_data, Loaded, loaded, with_stale_read, serve, after_load}

module _ {V : Type 0} (cfg : Config) where
  -- A saved value is read back under its key for as long as its age is at most the time to live, and is
  -- gone after that; every other key reads as it did before the save.
  pub read-save_snapshot :
      (key other : String) (value : V) (now soon later : ℕ) (b : Breaker V)
      → other ≢ key
      → soon ≤ now + cfg.stale_read_ttl_ms
      → now + cfg.stale_read_ttl_ms < later
      → let c = save_snapshot key value now b in
        ((read_snapshot cfg key soon c).0 ≡ some (record { value = value; stored_at = now }))
        × ((read_snapshot cfg key later c).0 ≡ none)
        × (lookup key (read_snapshot cfg key later c).1.snapshots ≡ none)
        × ((read_snapshot cfg other later c).0 ≡ (read_snapshot cfg other later b).0)
  unfolding save_snapshot read_snapshot
  read-save_snapshot key other value now soon later b ne fresh old =
      let entry : Snapshot V = record { value = value; stored_at = now } in
      ground (
        arith,
        lookup-insert key key entry b.snapshots,
        lookup-insert key other entry b.snapshots,
        lookup-erase key key (insert key entry b.snapshots),
        eq_iff key key,
        eq_iff key other,
      )

  -- A read that the breaker admits returns what its loader gives, closes the circuit and keeps the value.
  pub admitted_read :
      (transient : String → Bool) (key : String) (value : V) (now later : ℕ) (b : Breaker V)
      → (should_short_circuit cfg now b).0 ≡ false
      → let (r, d) = with_stale_read cfg transient key now later (loaded value) b in
        (r ≡ ok value)
        × (d.state ≡ closed)
        × (lookup key d.snapshots ≡ some (record { value = value; stored_at = later }))
  unfolding with_stale_read serve after_load record_success save_snapshot read_snapshot
  admitted_read transient key value now later b e =
      let c = (should_short_circuit cfg now b).1 in
      rw e (
        ground (
          arith,
          lookup-insert key key (record { value = value; stored_at = later }) c.snapshots,
          eq_iff key key,
        ))

  -- A read that the breaker rejects does not ask the loader, whatever that would do: it returns the value
  -- kept for its key exactly if that is not too old, and otherwise throws.
  pub rejected_read :
      (transient : String → Bool) (key : String) (load : Loaded V) (now later : ℕ) (b : Breaker V)
      (s : Snapshot V)
      → (should_short_circuit cfg now b).0 ≡ true
      → lookup key (should_short_circuit cfg now b).1.snapshots ≡ some s
      → (with_stale_read cfg transient key now later load b).0
        ≡ (if leb now (s.stored_at + cfg.stale_read_ttl_ms) then ok s.value else err no_cached_data)
  unfolding with_stale_read serve after_load record_success save_snapshot read_snapshot
  rejected_read transient key load now later b s e l = rw e (ground arith)
