-- ===== src/Planner/Plan.antt =====
-- internal/application/planner.go: `planSchedule`, `boundedCatchUp` and `dispatchPlan`.
use kokoro_scheduler.Base.{
  ℕ, zero, suc, true, false, ◌||◌, not, List, [], ◌∷◌, ◌++◌, if◌then◌else◌, ◌==◌, pos_part, Text,
  Result, ok, err, ◌>>=◌, invalid, bad_misfire_policy,
}
use kokoro_scheduler.Domain.Time.{Time, is_zero, after, before, normalize_instant}
use kokoro_scheduler.Domain.Schedule.{Schedule, MisfirePolicy, skip, fire_once, catch_up_bounded}
use kokoro_scheduler.Domain.Occurrence.{
  OccurrencePlan, pending, skipped, Code, no_code, misfire_skipped, misfire_bound_exceeded,
}
use kokoro_scheduler.Recurrence.{Recurrence}

-- The plans of a run and the next due instant, zero where there is none.
abbrev pub Planned : Type 0
Planned = List OccurrencePlan × Time

unfoldable pub dispatch_plan : Time → Time → OccurrencePlan
dispatch_plan scheduled_at observed_at = record {
  scheduled_at = normalize_instant scheduled_at;
  observed_at = normalize_instant observed_at;
  status = pending;
  outcome_code = no_code;
  missed_count = 1;
  dispatch = true;
}

-- A plan for an occurrence that is recorded and not dispatched.
unfoldable pub skip_plan : Time → Time → Code → OccurrencePlan
skip_plan scheduled_at observed_at code = record {
  scheduled_at = scheduled_at;
  observed_at = observed_at;
  status = skipped;
  outcome_code = code;
  missed_count = 1;
  dispatch = false;
}

-- A schedule with `RunAt`: one occurrence, and no next due instant.
unfoldable pub plan_once : MisfirePolicy → Time → Time → OccurrencePlan
plan_once skip due now =
    let plan = dispatch_plan due now in
    if before due now
    then record plan { dispatch = false; status = skipped; outcome_code = misfire_skipped }
    else plan
plan_once _ due now = dispatch_plan due now

module _ (r : Recurrence) where
  -- The loop of `boundedCatchUp`: `n` is `CatchUpLimit - len(plans)`.
  unfoldable pub catch_up_loop :
      (rule timezone : Text) (now : Time) → ℕ → List OccurrencePlan → Time → Result Planned
  catch_up_loop rule timezone now zero plans candidate = ok (plans, candidate)
  catch_up_loop rule timezone now (suc n) plans candidate =
      if after candidate now
      then ok (plans, candidate)
      else (r.next rule timezone candidate >>= λ next.
          catch_up_loop rule timezone now n (plans ++ dispatch_plan candidate now ∷ []) next)

  -- What follows the loop: the first instant that the limit leaves out is recorded as skipped.
  unfoldable pub close_catch_up :
      (rule timezone : Text) (now : Time) → List OccurrencePlan → Time → Result Planned
  close_catch_up rule timezone now plans candidate =
      if after candidate now
      then ok (plans, candidate)
      else (r.next_after rule timezone candidate now >>= λ next.
          ok (plans ++ skip_plan candidate now misfire_bound_exceeded ∷ [], next))

  -- The schema keeps the limit between 1 and 100; a negative one, on which `make` would panic, counts
  -- as 0 here.
  unfoldable pub bounded_catch_up : Schedule → Time → Time → Result Planned
  bounded_catch_up s due now =
      catch_up_loop s.rule s.timezone now (pos_part s.catch_up_limit) [] due >>= λ out.
      close_catch_up s.rule s.timezone now out.0 out.1

  -- The `switch` on the misfire policy, for a recurring schedule that is late.
  unfoldable pub plan_misfire : MisfirePolicy → Schedule → Time → Time → Result Planned
  plan_misfire skip s due now = r.next_after s.rule s.timezone due now >>= λ next.
      ok (skip_plan due now misfire_skipped ∷ [], next)
  plan_misfire fire_once s due now =
      r.next_after s.rule s.timezone due now >>= λ next. ok (dispatch_plan due now ∷ [], next)
  plan_misfire catch_up_bounded s due now = bounded_catch_up s due now
  plan_misfire (MisfirePolicy.other t) s due now = err (invalid bad_misfire_policy)

  -- `planSchedule` once `now` and the due instant are normalised.
  unfoldable pub plan_due : Schedule → Time → Time → Result Planned
  plan_due s now due =
      if is_zero due || after due now
      then ok ([], due)
      else if not (is_zero s.run_at)
      then ok (plan_once s.misfire_policy due now ∷ [], 0)
      else if due == now
      then (r.next s.rule s.timezone due >>= λ next. ok (dispatch_plan due now ∷ [], next))
      else plan_misfire s.misfire_policy s due now

  unfoldable pub plan_schedule : Schedule → Time → Result Planned
  plan_schedule s now = plan_due s (normalize_instant now) (normalize_instant s.next_due_at)
