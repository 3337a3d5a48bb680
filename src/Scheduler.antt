-- ===== src/Scheduler.antt =====
-- backend/src/services/adaptiveScheduler.ts: poll intervals, batch sizes and backoff of the event indexer.
-- A scheduler's row in `indexer_scheduler_state` is an optional record; each write is told whether
-- the database takes it, and a failed one changes nothing, as the code swallows the error. The
-- settings are whole numbers; times are arguments.
pub mod Polling
pub mod Restart
mod Tests
use Prim.Native.String.{String}
use remitlend.Base.{
  ℕ, zero, suc, ◌+◌, ◌-◌, ◌*◌, ◌^◌, min, Bool, true, false, Option, none, some, ◌==◌, if◌then◌else◌,
}
use remitlend.Base.Int.{ℤ, pos, ltb_ℤ}

pub data SchedulerMode : Type 0 where
  caught_up behind catch_up : SchedulerMode

pub record Settings : Type 0 where
  pub caught_up_threshold : ℕ
  pub aggressive_threshold : ℕ
  pub interval_caught_up_ms : ℕ
  pub interval_behind_ms : ℕ
  pub interval_catch_up_ms : ℕ
  pub batch_size_caught_up : ℕ
  pub batch_size_behind : ℕ
  pub batch_size_catch_up : ℕ
  pub backoff_base_ms : ℕ
  pub backoff_max_ms : ℕ
  pub backoff_multiplier : ℕ

abbrev pub default_settings : Settings
default_settings = record {
  caught_up_threshold = 50;
  aggressive_threshold = 100;
  interval_caught_up_ms = 30000;
  interval_behind_ms = 10000;
  interval_catch_up_ms = 3000;
  batch_size_caught_up = 100;
  batch_size_behind = 200;
  batch_size_catch_up = 500;
  backoff_base_ms = 5000;
  backoff_max_ms = 135000;
  backoff_multiplier = 3;
}

-- What the object keeps.
pub record Scheduler : Type 0 where
  pub current_mode : SchedulerMode
  pub consecutive_failures : ℕ

-- What the row keeps; `getState` returns the same.
pub record SchedulerState : Type 0 where
  pub mode : SchedulerMode
  pub failures : ℕ
  pub last_poll_time : Option ℕ
  pub last_successful_poll_time : Option ℕ
  pub last_lag_ledgers : Option ℤ
  pub last_error_message : Option String

abbrev pub new_scheduler : Scheduler
new_scheduler = record { current_mode = caught_up; consecutive_failures = 0 }

abbrev pub new_row : SchedulerState
new_row = record {
  mode = caught_up;
  failures = 0;
  last_poll_time = none;
  last_successful_poll_time = none;
  last_lag_ledgers = none;
  last_error_message = none;
}

-- `UPDATE ... WHERE contract = $1`: nothing happens if there is no row, or if the database fails.
abbrev pub update_row :
    Bool → (SchedulerState → SchedulerState) → Option SchedulerState → Option SchedulerState
update_row up f none = none
update_row true f (some r) = some (f r)
update_row false f (some r) = some r

-- `initialize`.
unfoldable pub initialize :
    Bool → Scheduler → Option SchedulerState → Scheduler × Option SchedulerState
initialize true s (some r) =
    (record { current_mode = r.mode; consecutive_failures = r.failures }, some r)
initialize true s none = (s, some new_row)
initialize false s row = (s, row)

unfoldable pub get_mode_for_lag : Settings → ℤ → SchedulerMode
get_mode_for_lag c lag =
    if ltb_ℤ (pos c.aggressive_threshold) lag
    then catch_up
    else if ltb_ℤ (pos c.caught_up_threshold) lag
    then behind
    else caught_up

-- The interval and the batch size.
unfoldable pub get_interval_and_batch_for_mode : Settings → SchedulerMode → ℕ × ℕ
get_interval_and_batch_for_mode c caught_up = (c.interval_caught_up_ms, c.batch_size_caught_up)
get_interval_and_batch_for_mode c behind = (c.interval_behind_ms, c.batch_size_behind)
get_interval_and_batch_for_mode c catch_up = (c.interval_catch_up_ms, c.batch_size_catch_up)

unfoldable pub calculate_backoff : Settings → ℕ → ℕ
calculate_backoff c failures =
    if failures == 0
    then 0
    else min (c.backoff_base_ms * c.backoff_multiplier ^ (min failures 10 - 1)) c.backoff_max_ms

abbrev pub same_mode : SchedulerMode → SchedulerMode → Bool
same_mode caught_up caught_up = true
same_mode behind behind = true
same_mode catch_up catch_up = true
same_mode _ _ = false

pub record NextPoll : Type 0 where
  pub interval_ms : ℕ
  pub batch_size : ℕ
  pub poll_mode : SchedulerMode
  pub backoff_ms : ℕ

abbrev poll_of : Settings → Scheduler → NextPoll
poll_of c s =
    let (interval, batch) = get_interval_and_batch_for_mode c s.current_mode in
    record {
      interval_ms = interval;
      batch_size = batch;
      poll_mode = s.current_mode;
      backoff_ms = calculate_backoff c s.consecutive_failures;
    }

-- `calculateNextPoll`, with `recordModeTransition`'s write of the mode.
unfoldable pub calculate_next_poll :
    Settings
    → Bool
    → ℤ
    → Scheduler
    → Option SchedulerState
    → NextPoll × Scheduler × Option SchedulerState
calculate_next_poll c up lag s row =
    let new_mode = get_mode_for_lag c lag in
    if same_mode new_mode s.current_mode
    then (poll_of c s, s, row)
    else let s' : Scheduler = record { current_mode = new_mode; consecutive_failures = 0 } in
      (poll_of c s', s', update_row up (λ r. record r { mode = new_mode }) row)

unfoldable pub record_success :
    Bool → ℤ → ℕ → Scheduler → Option SchedulerState → Scheduler × Option SchedulerState
record_success up lag now s row = (
  record s { consecutive_failures = 0 },
  update_row up
      (λ r. record r {
        failures = 0;
        last_poll_time = some now;
        last_successful_poll_time = some now;
        last_lag_ledgers = some lag;
        last_error_message = none;
      })
      row,
)

unfoldable pub record_failure :
    Settings
    → Bool
    → String
    → ℕ
    → Scheduler
    → Option SchedulerState
    → ℕ × Scheduler × Option SchedulerState
record_failure c up reason now s row =
    let failures' = s.consecutive_failures + 1 in
    (
      calculate_backoff c failures',
      record s { consecutive_failures = failures' },
      update_row up
          (λ r. record r {
            failures = failures';
            last_poll_time = some now;
            last_error_message = some reason;
          })
          row,
    )

unfoldable pub reset_backoff :
    Bool → Scheduler → Option SchedulerState → Scheduler × Option SchedulerState
reset_backoff up s row = (
  record s { consecutive_failures = 0 },
  update_row up (λ r. record r { failures = 0; last_error_message = none }) row,
)

-- `getState`: the row, or what the object keeps if there is none or the read fails.
unfoldable pub get_state : Bool → Scheduler → Option SchedulerState → SchedulerState
get_state true s (some r) = r
get_state _ s _ = record {
  mode = s.current_mode;
  failures = s.consecutive_failures;
  last_poll_time = none;
  last_successful_poll_time = none;
  last_lag_ledgers = none;
  last_error_message = none;
}
