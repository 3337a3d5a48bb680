-- ===== src/WriteQueue/Retry.antt =====
-- The delay before a failed write is tried again.
use native.Mathlib.Nat.{pow-suc, pow-le-pow_right, mul-le-mul_left}
use remitlend.Base.{ℕ, suc, ◌+◌, ◌-◌, ◌*◌, ◌^◌, ◌≤◌, ◌≡◌, min, arith}
use remitlend.WriteQueue.{QueueConfig, backoff_ms}

scaled : (b m k : ℕ) → min (b * 2 ^ suc k) m ≡ min (2 * min (b * 2 ^ k) m) m
scaled b m k = rw pow-suc (omega arith)

-- The first delay is the base, cut to the maximum; each failure doubles it, up to the maximum; and it is
-- never less than the smaller of the base and the maximum.
pub backoff_ms_lem :
    (cfg : QueueConfig) (n : ℕ)
    → (backoff_ms cfg 1 ≡ min cfg.backoff_base_ms cfg.backoff_max_ms)
      × (backoff_ms cfg (n + 2) ≡ min (2 * backoff_ms cfg (n + 1)) cfg.backoff_max_ms)
      × (min cfg.backoff_base_ms cfg.backoff_max_ms ≤ backoff_ms cfg (n + 1))
unfolding backoff_ms
backoff_ms_lem cfg n =
    let down : n + 1 - 1 ≡ n = omega arith in
    let up : n + 2 - 1 ≡ suc n = omega arith in
    let one : 2 ^ 0 ≤ 2 ^ n = pow-le-pow_right (omega arith) {i = 0} (omega arith) in
    (
      omega arith,
      rw (up, down) (scaled cfg.backoff_base_ms cfg.backoff_max_ms n),
      rw down (omega (arith, mul-le-mul_left cfg.backoff_base_ms one)),
    )
