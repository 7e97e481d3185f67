-- ===== src/Runtime.antt =====
-- internal/application/runtime.go: cycles run in goroutines of their own, while `Start` and `Stop` may
-- be called by others. An event is one section of a method between two points where another
-- goroutine may run; the program counters of `Start` and `Stop` are part of the state.
pub mod Drain
pub mod Wakeup
use kokoro_scheduler.Base.{
  ℕ, zero, suc, ◌+◌, ◌-◌, ◌*◌, ◌/◌, ◌%◌, ◌^◌, ◌≤◌, ◌<◌, min, max, ◌≡◌, refl, sym, ap, subst, ◌∙◌,
  ◌≢◌, ◌↔◌, ◌⊎◌, inl, inr, Bool, true, false, not, ◌&&◌, ◌||◌, Option, none, some, List, [], ◌∷◌,
  ◌++◌, map, arith, if◌then◌else◌, ◌==◌, ltb, leb, Text, Result, ok, err, ◌>>=◌, ◌>>◌, fail_if, ℤ,
  pos, negsuc,
}

-- Where a call of `Start` stands: none, behind `accepting = true`, behind `wakeup.Start`, behind
-- `ready.Store(true)`.
pub data StartPoint : Type 0 where
  no_start marked woken readied : StartPoint

-- Where a call of `Stop` stands: none, behind `ready.Store(false)`, behind `accepting = false`, behind
-- `cancel`, behind `wakeup.Stop`, and returned.
pub data StopPoint : Type 0 where
  no_stop unready closed cancelled unhooked returned : StopPoint

pub record Runtime : Type 0 where
  pub ready : Bool
  pub accepting : Bool
  pub is_cancelled : Bool
  pub in_flight : ℕ
  pub start_point : StartPoint
  pub stop_point : StopPoint

-- `NewRuntime`; its nil checks are dependencies that the model always has.
abbrev pub new_runtime : Runtime
new_runtime = record {
  ready = false;
  accepting = false;
  is_cancelled = false;
  in_flight = 0;
  start_point = no_start;
  stop_point = no_stop;
}

-- `trigger`: a cycle is started only while the runtime accepts.
unfoldable pub trigger : Runtime → Runtime
trigger r = if r.accepting then record r { in_flight = r.in_flight + 1 } else r

pub data Event : Type 0 where
  -- `Start`: the first section, `wakeup.Start` with and without an error, the flag, the first cycle.
  start wakeup_started wakeup_refused set_ready first_cycle : Event
  -- The wakeup calls `trigger`; a cycle ends, with or without an error that is observed.
  wakeup_fires cycle_ends : Event
  -- `Stop`: its four sections, and the return when no cycle is in flight or the context is done.
  stop close cancel unhook drained timed_out : Event

unfoldable pub start_section : Runtime → Option Runtime
start_section r =
    if r.accepting then some r else some (record r { accepting = true; start_point = marked })

unfoldable pub at_start : StartPoint → StartPoint → Bool
at_start no_start no_start = true
at_start marked marked = true
at_start woken woken = true
at_start readied readied = true
at_start _ _ = false

unfoldable pub at_stop : StopPoint → StopPoint → Bool
at_stop no_stop no_stop = true
at_stop unready unready = true
at_stop closed closed = true
at_stop cancelled cancelled = true
at_stop unhooked unhooked = true
at_stop returned returned = true
at_stop _ _ = false

abbrev pub only_if : Bool → Runtime → Option Runtime
only_if test r = if test then some r else none

-- What an event does; `none` where no goroutine stands at its section. One call of `Start` and one of
-- `Stop` run at a time.
unfoldable pub step : Event → Runtime → Option Runtime
unfolding trigger start_section
step start r = if at_start r.start_point no_start then start_section r else none
step wakeup_started r = only_if (at_start r.start_point marked) (record r { start_point = woken })
step wakeup_refused r =
    only_if (at_start r.start_point marked) (record r { accepting = false; start_point = no_start })
step set_ready r =
    only_if (at_start r.start_point woken) (record r { ready = true; start_point = readied })
step first_cycle r =
    only_if (at_start r.start_point readied) (record (trigger r) { start_point = no_start })
step wakeup_fires r = some (trigger r)
step cycle_ends r = only_if (not (r.in_flight == 0)) (record r { in_flight = r.in_flight - 1 })
step stop r =
    only_if (at_stop r.stop_point no_stop || at_stop r.stop_point returned)
      (record r { ready = false; stop_point = unready })
step close r =
    only_if (at_stop r.stop_point unready) (record r { accepting = false; stop_point = closed })
step cancel r =
    only_if (at_stop r.stop_point closed) (record r { is_cancelled = true; stop_point = cancelled })
step unhook r = only_if (at_stop r.stop_point cancelled) (record r { stop_point = unhooked })
step drained r =
    only_if (at_stop r.stop_point unhooked && r.in_flight == 0) (record r { stop_point = returned })
step timed_out r = only_if (at_stop r.stop_point unhooked) (record r { stop_point = returned })

unfoldable pub run_events : List Event → Runtime → Option Runtime
run_events [] r = some r
run_events (e ∷ es) r = elim (step e r) [ none ↦ none | some r' ↦ run_events es r' ]
