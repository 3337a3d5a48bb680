-- ===== src/Scheduler/Polling.antt =====
-- adaptiveScheduler.ts: how lag and failures set the pace.
use native.Mathlib.Nat.{pow-le-pow_right, mul-le-mul_left}
use remitlend.Base.{
  ℕ, ◌-◌, ◌*◌, ◌^◌, min, ◌≤◌, ◌≡◌, inl, inr, refl, Bool, true, Bool-cases, Option, arith,
}
use remitlend.Base.Int.{ℤ, ◌≤ℤ◌}
use remitlend.Scheduler.{
  SchedulerMode, Settings, Scheduler, SchedulerState, get_mode_for_lag,
  get_interval_and_batch_for_mode, calculate_backoff, same_mode, calculate_next_poll,
}

same_mode_eq : (m n : SchedulerMode) → same_mode m n ≡ true → m ≡ n
same_mode_eq m n h = ground arith

-- More failures in a row never shorten the backoff, which never exceeds its maximum.
pub calculate_backoff_lem :
    (c : Settings) (m n : ℕ)
    → 1 ≤ c.backoff_multiplier
    → m ≤ n
    → (calculate_backoff c m ≤ calculate_backoff c n) × (calculate_backoff c n ≤ c.backoff_max_ms)
unfolding calculate_backoff
calculate_backoff_lem c m n b h =
    let low = c.backoff_multiplier ^ (min m 10 - 1) in
    let high = c.backoff_multiplier ^ (min n 10 - 1) in
    let powers : low ≤ high = pow-le-pow_right b (omega (arith, h)) in
    let delays : c.backoff_base_ms * low ≤ c.backoff_base_ms * high =
      mul-le-mul_left c.backoff_base_ms powers in
    (ground arith, ground arith)

-- The pace quickens with the mode.
pub record Quickens (c : Settings) : Type 0 where
  pub thresholds : c.caught_up_threshold ≤ c.aggressive_threshold
  pub intervals_behind : c.interval_behind_ms ≤ c.interval_caught_up_ms
  pub intervals_catch_up : c.interval_catch_up_ms ≤ c.interval_behind_ms
  pub batches_behind : c.batch_size_caught_up ≤ c.batch_size_behind
  pub batches_catch_up : c.batch_size_behind ≤ c.batch_size_catch_up

next_poll_mode :
    (c : Settings) (up : Bool) (lag : ℤ) (s : Scheduler) (row : Option SchedulerState)
    → (calculate_next_poll c up lag s row).0.interval_ms
        ≡ (get_interval_and_batch_for_mode c (get_mode_for_lag c lag)).0
      × (calculate_next_poll c up lag s row).0.batch_size
        ≡ (get_interval_and_batch_for_mode c (get_mode_for_lag c lag)).1
unfolding calculate_next_poll
next_poll_mode c up lag s row =
    elim (Bool-cases (same_mode (get_mode_for_lag c lag) s.current_mode)) [
      | inl e ↦ rw (e, same_mode_eq (get_mode_for_lag c lag) s.current_mode e) (refl, refl)
      | inr e ↦ rw e (refl, refl)
    ]

paces :
    (c : Settings) (less more : ℤ)
    → Quickens c
    → less ≤ℤ more
    → ((get_interval_and_batch_for_mode c (get_mode_for_lag c more)).0
        ≤ (get_interval_and_batch_for_mode c (get_mode_for_lag c less)).0)
      × ((get_interval_and_batch_for_mode c (get_mode_for_lag c less)).1
          ≤ (get_interval_and_batch_for_mode c (get_mode_for_lag c more)).1)
unfolding get_mode_for_lag get_interval_and_batch_for_mode
paces c less more q h = ground arith

-- Whatever mode the scheduler was in before, more lag never brings a longer interval or a smaller batch, if
-- the settings quicken from mode to mode, as the defaults do.
pub more_lag_polls_sooner :
    (c : Settings) (up up' : Bool) (less more : ℤ) (s s' : Scheduler)
    (row row' : Option SchedulerState)
    → Quickens c
    → less ≤ℤ more
    → ((calculate_next_poll c up' more s' row').0.interval_ms
        ≤ (calculate_next_poll c up less s row).0.interval_ms)
      × ((calculate_next_poll c up less s row).0.batch_size
          ≤ (calculate_next_poll c up' more s' row').0.batch_size)
more_lag_polls_sooner c up up' less more s s' row row' q h =
    let (i, b) = next_poll_mode c up less s row in
    let (i', b') = next_poll_mode c up' more s' row' in rw (i, b, i', b') (paces c less more q h)
