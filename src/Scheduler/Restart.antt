-- ===== src/Scheduler/Restart.antt =====
-- adaptiveScheduler.ts: what a restart of the process finds in the database.
use Prim.Native.String.{String}
use remitlend.Base.{
  ℕ, ◌≡◌, refl, ◌+◌, true, Bool-cases, inl, inr, Option, some, List, [], ◌∷◌, if◌then◌else◌, arith,
}
use remitlend.Base.Int.{ℤ}
use remitlend.Scheduler.{
  Settings, SchedulerMode, Scheduler, SchedulerState, initialize, get_mode_for_lag, same_mode,
  calculate_next_poll, record_success, record_failure, reset_backoff,
}

-- What `initialize` reads back.
abbrev pub restarted : Option SchedulerState → Scheduler → Scheduler
restarted row fresh = (initialize true fresh row).0

-- After a recorded success, failure or reset whose write the database took, on a row with the scheduler's
-- mode, a restart finds the scheduler as it was.
pub restart_restores :
    (c : Settings) (lag : ℤ) (reason : String) (now : ℕ) (s fresh : Scheduler) (r : SchedulerState)
    → r.mode ≡ s.current_mode
    → (restarted (record_success true lag now s (some r)).1 fresh
        ≡ (record_success true lag now s (some r)).0)
      × (restarted (record_failure c true reason now s (some r)).2 fresh
          ≡ (record_failure c true reason now s (some r)).1)
      × (restarted (reset_backoff true s (some r)).1 fresh ≡ (reset_backoff true s (some r)).0)
unfolding initialize record_success record_failure reset_backoff
restart_restores c lag reason now s fresh r h = rw h (refl, refl, refl)

-- A call of the scheduler whose write the database takes.
pub data SchedulerCall : Type 0 where
  polls : ℤ → SchedulerCall
  succeeds : ℤ → ℕ → SchedulerCall
  fails : String → ℕ → SchedulerCall
  resets : SchedulerCall

module _ (c : Settings) where
  unfoldable pub apply_call :
      SchedulerCall → Scheduler × Option SchedulerState → Scheduler × Option SchedulerState
  apply_call (polls lag) (s, row) =
      let (poll, s', row') = calculate_next_poll c true lag s row in (s', row')
  apply_call (succeeds lag now) (s, row) = record_success true lag now s row
  apply_call (fails reason now) (s, row) =
      let (delay, s', row') = record_failure c true reason now s row in (s', row')
  apply_call resets (s, row) = reset_backoff true s row

  unfoldable pub apply_calls :
      List SchedulerCall → Scheduler × Option SchedulerState → Scheduler × Option SchedulerState
  apply_calls [] x = x
  apply_calls (e ∷ es) x = apply_calls es (apply_call e x)

  -- The mode of the last lag that was polled, or the first mode.
  unfoldable pub mode_after : SchedulerMode → List SchedulerCall → SchedulerMode
  mode_after m [] = m
  mode_after m (polls lag ∷ es) = mode_after (get_mode_for_lag c lag) es
  mode_after m (succeeds _ _ ∷ es) = mode_after m es
  mode_after m (fails _ _ ∷ es) = mode_after m es
  mode_after m (resets ∷ es) = mode_after m es

  -- The failures since the last success, reset or change of the mode.
  unfoldable pub failures_after : SchedulerMode → ℕ → List SchedulerCall → ℕ
  failures_after m n [] = n
  failures_after m n (polls lag ∷ es) =
      let mode = get_mode_for_lag c lag in
      failures_after mode (if same_mode mode m then n else 0) es
  failures_after m n (succeeds _ _ ∷ es) = failures_after m 0 es
  failures_after m n (fails _ _ ∷ es) = failures_after m (n + 1) es
  failures_after m n (resets ∷ es) = failures_after m 0 es

  -- The number of these when a success, a failure or a reset was last recorded.
  unfoldable pub recorded_after : SchedulerMode → ℕ → ℕ → List SchedulerCall → ℕ
  recorded_after m n recorded [] = recorded
  recorded_after m n recorded (polls lag ∷ es) =
      let mode = get_mode_for_lag c lag in
      recorded_after mode (if same_mode mode m then n else 0) recorded es
  recorded_after m n recorded (succeeds _ _ ∷ es) = recorded_after m 0 0 es
  recorded_after m n recorded (fails _ _ ∷ es) = recorded_after m (n + 1) (n + 1) es
  recorded_after m n recorded (resets ∷ es) = recorded_after m 0 0 es

  same_mode-eq : (m n : SchedulerMode) → same_mode m n ≡ true → m ≡ n
  same_mode-eq m n h = ground arith

  -- A poll sets the object's mode and the row's, and forgets the object's failures if that moves it.
  poll_step :
      (lag : ℤ) (m : SchedulerMode) (n : ℕ) (r : SchedulerState)
      → r.mode ≡ m
      → apply_call (polls lag) (record { current_mode = m; consecutive_failures = n }, some r) ≡ (
        record {
          current_mode = get_mode_for_lag c lag;
          consecutive_failures = if same_mode (get_mode_for_lag c lag) m then n else 0;
        },
        some (record r { mode = get_mode_for_lag c lag }),
      )
  unfolding apply_call calculate_next_poll
  poll_step lag m n r e = elim (Bool-cases (same_mode (get_mode_for_lag c lag) m)) [
    | inr h ↦ rw (h, apply_call, calculate_next_poll) refl
    | inl h ↦
        let same = same_mode-eq (get_mode_for_lag c lag) m h in
        rw (h, apply_call, calculate_next_poll) (cc)
  ]

  -- After any sequence of polls, successes, failures and resets whose writes the database takes, the
  -- scheduler is in the mode of the last lag, with the failures since the last success, reset or change of
  -- the mode; a restart finds the same mode, but with the failures that were last recorded, which a change
  -- of the mode does not clear.
  pub restart_after_calls :
      (es : List SchedulerCall) (m : SchedulerMode) (n : ℕ) (fresh : Scheduler) (r : SchedulerState)
      → r.mode ≡ m
      → let (s', row') =
          apply_calls es (record { current_mode = m; consecutive_failures = n }, some r) in
        (s'
          ≡ record { current_mode = mode_after m es; consecutive_failures = failures_after m n es })
        × (restarted row' fresh ≡ record {
          current_mode = mode_after m es;
          consecutive_failures = recorded_after m n r.failures es;
        })
  unfolding apply_calls mode_after failures_after recorded_after initialize apply_call
      record_success record_failure reset_backoff
  restart_after_calls [] m n fresh r e = (refl, rw e refl)
  restart_after_calls (polls lag ∷ es) m n fresh r e =
      rw (apply_calls, poll_step lag m n r e)
        (restart_after_calls es (get_mode_for_lag c lag)
          (if same_mode (get_mode_for_lag c lag) m then n else 0) fresh
          (record r { mode = get_mode_for_lag c lag }) refl)
  restart_after_calls (succeeds lag now ∷ es) m n fresh r e = restart_after_calls es m 0 fresh _ e
  restart_after_calls (fails reason now ∷ es) m n fresh r e =
      restart_after_calls es m (n + 1) fresh _ e
  restart_after_calls (resets ∷ es) m n fresh r e = restart_after_calls es m 0 fresh _ e
