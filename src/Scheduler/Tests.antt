-- ===== src/Scheduler/Tests.antt =====
-- adaptiveScheduler.ts: the default settings.
use remitlend.Base.{List, [], ◌∷◌, ◌≡◌, refl, some, arith}
use remitlend.Base.Int.{pos}
use remitlend.Scheduler.{default_settings, new_scheduler, new_row, get_mode_for_lag}
use remitlend.Scheduler.Polling.{Quickens}
use remitlend.Scheduler.Restart.{
  restarted, SchedulerCall, fails, polls, apply_calls, mode_after, failures_after, recorded_after,
  restart_after_calls,
}

defaults_quicken : Quickens default_settings
defaults_quicken = record {
  thresholds = omega arith;
  intervals_behind = omega arith;
  intervals_catch_up = omega arith;
  batches_behind = omega arith;
  batches_catch_up = omega arith;
}

-- Four failures, and a poll that moves the scheduler.
abbrev failures_and_move : List SchedulerCall
failures_and_move = fails "a" 1 ∷ fails "b" 2 ∷ fails "c" 3 ∷ fails "d" 4 ∷ polls (pos 500) ∷ []

-- The object has forgotten the failures, and a restart finds them again.
restart_after_calls_example :
    let (s, row) = apply_calls default_settings failures_and_move (new_scheduler, some new_row) in
    (s ≡ record {
      current_mode = get_mode_for_lag default_settings (pos 500);
      consecutive_failures = 0;
    })
    × (restarted row new_scheduler ≡ record {
      current_mode = get_mode_for_lag default_settings (pos 500);
      consecutive_failures = 4;
    })
unfolding mode_after failures_after recorded_after get_mode_for_lag
restart_after_calls_example =
    restart_after_calls default_settings failures_and_move new_scheduler.current_mode 0
      new_scheduler new_row refl
