-- ===== src/Tests/Runtime.antt =====
-- The theorems on the runtime at a stopping one with two cycles in flight.
use kokoro_scheduler.Base.{ok, pos, ◌+◌, ◌≡◌, refl, true, false, some, [], ◌∷◌, ◌==◌, is_some}
use kokoro_scheduler.Domain.Time.{second}
use kokoro_scheduler.Runtime.Wakeup.{Wakeup, start, job_added}
use kokoro_scheduler.Runtime.Drain.{IsClosed, run_events-IsClosed, stop-drains, stop-waits}
use kokoro_scheduler.Runtime.{
  at_stop, Runtime, no_start, unhooked, returned, wakeup_fires, cycle_ends, drained, run_events,
  step, trigger,
}

abbrev stopping : Runtime
stopping = record {
  ready = false;
  accepting = false;
  is_cancelled = true;
  in_flight = 2;
  start_point = no_start;
  stop_point = unhooked;
}

abbrev one_left : Runtime
one_left = record {
  ready = false;
  accepting = false;
  is_cancelled = true;
  in_flight = 1;
  start_point = no_start;
  stop_point = unhooked;
}

stopping-IsClosed : IsClosed stopping
stopping-IsClosed = record { refusing = refl; settled = refl }

fired_and_ended : run_events (wakeup_fires ∷ cycle_ends ∷ []) stopping ≡ some one_left
unfolding run_events step trigger
fired_and_ended = refl

run_events-IsClosed_example : IsClosed one_left × (1 + 1 ≡ 2)
run_events-IsClosed_example =
    run_events-IsClosed (wakeup_fires ∷ cycle_ends ∷ []) stopping stopping-IsClosed refl
      fired_and_ended

-- One cycle ends, which leaves one more.
stop-drains_example : is_some (step drained one_left) ≡ (1 == 2)
stop-drains_example =
    stop-drains (wakeup_fires ∷ cycle_ends ∷ []) stopping stopping-IsClosed refl fired_and_ended
      refl

abbrev at_rest : Runtime
at_rest = record {
  ready = false;
  accepting = false;
  is_cancelled = true;
  in_flight = 0;
  start_point = no_start;
  stop_point = returned;
}

ended_and_returned :
    run_events (cycle_ends ∷ wakeup_fires ∷ cycle_ends ∷ drained ∷ []) stopping ≡ some at_rest
unfolding run_events step trigger at_stop
ended_and_returned = refl

stop-waits_example : (at_rest.in_flight ≡ 0) × (2 ≡ stopping.in_flight)
stop-waits_example =
    stop-waits (cycle_ends ∷ wakeup_fires ∷ cycle_ends ∷ drained ∷ []) stopping stopping-IsClosed
      (λ same. cc) refl refl ended_and_returned refl

abbrev idle : Wakeup
idle = record { interval = pos second; started = false; jobs = 0 }

abbrev awake : Wakeup
awake = record { interval = pos second; started = true; jobs = 1 }

first_start : start true (ok tt) idle ≡ (ok tt, awake)
unfolding start job_added
first_start = refl
