-- ===== src/Tests/Dispatcher.antt =====
-- The theorems on the dispatcher at the second attempt of one dispatch.
use kokoro_scheduler.Dispatcher.Draws.{decide-draws}
use kokoro_scheduler.Base.{
  shl_one, quot64, ◌*ℤ◌, wrap64, ◌+◌, ◌*◌, ◌≡◌, refl, ◌≢◌, inr, true, false, none, some, arith,
  if◌then◌else◌, ltb, pos, codes, ◌<ℤ◌,
}
use kokoro_scheduler.Dispatcher.Decision.{
  full_jitter, decide_delay, decide_ceiling, decide_window, decide_retry, retry, fail, panic,
  RandomSource, decide,
}
use kokoro_scheduler.Dispatcher.Backoff.{seconds_duration, retry_backoff, retry_backoff_lem}
use kokoro_scheduler.Domain.Time.{add_duration, sub_time, second, Time}
use kokoro_scheduler.Store.Outbox.History.{Survives}
use kokoro_scheduler.Store.Table.{All₂}
use kokoro_scheduler.Dispatcher.Soundness.{IsTicking, run-IsSound}
use kokoro_scheduler.Dispatcher.Retries.{
  IsRetryAt, deadline_from, decide-ne-panic, window_start, decide-retry,
}
use kokoro_scheduler.Store.Outbox.Steps.{IsSound}
use kokoro_scheduler.Domain.Occurrence.{DispatchWork, has_succeeded, is_retryable}
use kokoro_scheduler.Tests.{
  timed_out, second_attempt, dispatching_db, patient-IsValid, patient, dispatch_row-IsSound,
}
use kokoro_scheduler.Dispatcher.Process.{run, Surroundings}

abbrev draw_two_seconds : RandomSource
draw_two_seconds bound = inr (pos (2 * second))

abbrev present : Time
present = 15 * second

decide_report :
    decide draw_two_seconds second_attempt timed_out present
    ≡ retry timed_out (present + 2 * second)
unfolding decide has_succeeded is_retryable decide_retry decide_window sub_time add_duration
    seconds_duration wrap64 ◌*ℤ◌ decide_ceiling retry_backoff quot64 shl_one decide_delay
    full_jitter
decide_report = refl

decide-retry_example :
    (timed_out ≡ timed_out)
    × (has_succeeded timed_out ≡ false)
    × (is_retryable timed_out ≡ true)
    × (pos 2 <ℤ pos 5)
    × IsRetryAt second_attempt present (window_start second_attempt present) (17 * second)
decide-retry_example =
    decide-retry draw_two_seconds second_attempt timed_out present patient-IsValid decide_report

decide-draws_example : decide draw_two_seconds second_attempt timed_out present ≡ (
    if ltb
      (present + 2 * second)
      (deadline_from second_attempt (window_start second_attempt present))
    then retry timed_out (present + 2 * second)
    else fail timed_out)
unfolding has_succeeded is_retryable
decide-draws_example =
    decide-draws draw_two_seconds second_attempt timed_out present (2 * second) patient-IsValid refl
      refl (omega arith) (omega arith) refl (omega arith)

decide-ne-panic_example : decide draw_two_seconds second_attempt timed_out present ≢ panic
decide-ne-panic_example =
    decide-ne-panic draw_two_seconds second_attempt timed_out present patient-IsValid

retry_backoff_lem_example : retry_backoff patient 3 ≡ some (pos (40 * second))
retry_backoff_lem_example = retry_backoff_lem patient 3 patient-IsValid (omega arith)

abbrev quiet_surroundings : Surroundings
quiet_surroundings = record {
  deferred_at = present;
  begun_at = present;
  persisted_at = 16 * second;
  elapsed = pos second;
  lease_store = none;
  target = λ work. timed_out;
  attempt_error = none;
  random = draw_two_seconds;
}

ticking : (work : DispatchWork) → IsTicking quiet_surroundings
ticking work = omega arith

run-IsSound_example :
    let db' =
      (run
        (λ text. text)
        (λ work. quiet_surroundings)
        (λ id. false)
        (70 * second)
        (codes "other")
        (pos (30 * second))
        5
        dispatching_db).1 in
    IsSound db'.outbox × All₂ Survives dispatching_db.outbox db'.outbox
run-IsSound_example =
    run-IsSound (λ text. text) (λ work. quiet_surroundings) (λ id. false) (70 * second)
      (codes "other") (pos (30 * second)) 5 dispatching_db dispatch_row-IsSound ticking
      (omega arith)
