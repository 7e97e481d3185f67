-- ===== src/Runtime/Drain.antt =====
-- How the runtime comes to rest.
use kokoro_scheduler.Base.{
  ℕ, ◌+◌, ◌≡◌, ◌∙◌, inl, inr, Bool, true, false, ◌||◌, none, some, List, [], ◌∷◌, arith, is_some,
  ◌≢◌, ◌==◌, Option-cases,
}
use kokoro_scheduler.Runtime.{
  timed_out, returned, unhooked, drained, trigger, run_events, at_stop, step, start, no_start,
  Event, at_start, Runtime, cycle_ends,
}

-- No call of `Start` is under way, and the runtime takes no cycle.
pub record IsClosed (r : Runtime) : Type 0 where
  pub refusing : r.accepting ≡ false
  pub settled : r.start_point ≡ no_start

abbrev pub is_start : Event → Bool
is_start start = true
is_start _ = false

abbrev pub ends : Event → ℕ
ends cycle_ends = 1
ends _ = 0

-- The cycles that end in a run, and whether it has a call of `Start`.
abbrev pub count_ends : List Event → ℕ
count_ends [] = 0
count_ends (e ∷ es) = ends e + count_ends es

abbrev pub has_start : List Event → Bool
has_start [] = false
has_start (e ∷ es) = is_start e || has_start es

step-IsClosed :
    (e : Event) (r : Runtime) {r' : Runtime}
    → IsClosed r
    → is_start e ≡ false
    → step e r ≡ some r'
    → IsClosed r' × (r'.in_flight + ends e ≡ r.in_flight)
unfolding step trigger at_start
step-IsClosed start r v n h = cc
step-IsClosed e r v n h = ground arith

run_cons :
    (e : Event) (es : List Event) (r : Runtime) {r' : Runtime}
    → run_events (e ∷ es) r ≡ some r'
    → (middle : Runtime) × (step e r ≡ some middle) × (run_events es middle ≡ some r')
unfolding run_events
run_cons e es r {r'} h = elim (Option-cases (step e r)) [
  | inl stuck ↦ absurd_stuck (rw (stuck, run_events) at h)
  | inr (middle, moved) ↦ (middle, moved, rw (moved, run_events) at h)
]
  where
    absurd_stuck :
        none ≡ some r'
        → (middle : Runtime) × (step e r ≡ some middle) × (run_events es middle ≡ some r')
    absurd_stuck p = cc

-- A closed runtime stays closed until `Start` is called again: it takes no new cycle, so that after
-- any events exactly those cycles are left in flight that have not ended.
pub run_events-IsClosed :
    (es : List Event) (r : Runtime) {r' : Runtime}
    → IsClosed r
    → has_start es ≡ false
    → run_events es r ≡ some r'
    → IsClosed r' × (r'.in_flight + count_ends es ≡ r.in_flight)
unfolding run_events
run_events-IsClosed [] r v n h = ground arith
run_events-IsClosed (e ∷ es) r v n h =
    let (middle, moved, rest) = run_cons e es r h in
    let (v', one) = step-IsClosed e r v (ground arith) moved in
    let (v'', more) = run_events-IsClosed es middle v' (ground arith) rest in
    (v'', omega (arith, one, more))

abbrev pub is_timeout : Event → Bool
is_timeout timed_out = true
is_timeout _ = false

abbrev pub has_timeout : List Event → Bool
has_timeout [] = false
has_timeout (e ∷ es) = is_timeout e || has_timeout es

-- A returned call of `Stop` left nothing in flight.
abbrev IsDrained : Runtime → Type 0
IsDrained r = r.stop_point ≡ returned → r.in_flight ≡ 0

step-IsDrained :
    (e : Event) (r : Runtime) {r' : Runtime}
    → IsClosed r
    → is_start e ≡ false
    → is_timeout e ≡ false
    → IsDrained r
    → step e r ≡ some r'
    → IsDrained r'
unfolding step trigger at_start at_stop
step-IsDrained start r v n m d h back = cc
step-IsDrained timed_out r v n m d h back = cc
step-IsDrained e r v n m d h back = ground (arith, d)

run_events-IsDrained :
    (es : List Event) (r : Runtime) {r' : Runtime}
    → IsClosed r
    → has_start es ≡ false
    → has_timeout es ≡ false
    → IsDrained r
    → run_events es r ≡ some r'
    → IsDrained r'
unfolding run_events
run_events-IsDrained [] r v n m d h back = ground (arith, d)
run_events-IsDrained (e ∷ es) r v n m d h back =
    let (middle, moved, rest) = run_cons e es r h in
    let (v', one) = step-IsClosed e r v (ground arith) moved in
    let d' = step-IsDrained e r v (ground arith) (ground arith) d moved in
    run_events-IsDrained es middle v' (ground arith) (ground arith) d' rest back

-- `Stop` waits: if a closed runtime, whose `Stop` has not returned, comes to a return of `Stop` by any
-- events, without a new `Start` and without the context of `Stop` running out, then nothing is in
-- flight, and as many cycles have ended as were in flight.
pub stop-waits :
    (es : List Event) (r : Runtime) {r' : Runtime}
    → IsClosed r
    → r.stop_point ≢ returned
    → has_start es ≡ false
    → has_timeout es ≡ false
    → run_events es r ≡ some r'
    → r'.stop_point ≡ returned
    → (r'.in_flight ≡ 0) × (count_ends es ≡ r.in_flight)
stop-waits es r v waiting n m h back =
    let (closed', counted) = run_events-IsClosed es r v n h in
    let idle = run_events-IsDrained es r v n m (λ same. absurd (waiting same)) h back in
    (idle, omega (arith, counted, idle))

drained_iff :
    (r : Runtime) → r.stop_point ≡ unhooked → is_some (step drained r) ≡ (r.in_flight == 0)
unfolding step at_stop
drained_iff r at = ground (arith, at)

-- `Stop` comes to its return: whatever has happened to a closed runtime without a new `Start`, a call
-- of `Stop` that stands behind `wakeup.Stop` can return without waiting for its context exactly if
-- as many cycles have ended as were in flight.
pub stop-drains :
    (es : List Event) (r : Runtime) {r' : Runtime}
    → IsClosed r
    → has_start es ≡ false
    → run_events es r ≡ some r'
    → r'.stop_point ≡ unhooked
    → is_some (step drained r') ≡ (count_ends es == r.in_flight)
stop-drains es r {r'} v n h at =
    let (closed', counted) = run_events-IsClosed es r v n h in
    drained_iff r' at ∙ ground (arith, counted)
