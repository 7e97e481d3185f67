-- ===== src/Planner/Materialize.antt =====
-- internal/application/planner.go: `Planner.materialize` and `Planner.Run`, which turn the plans of a
-- claimed schedule into occurrences and outbox rows, in one transaction.
use kokoro_scheduler.Planner.Plan.{plan_schedule, Planned}
use kokoro_scheduler.Domain.Time.{Time}
use kokoro_scheduler.Recurrence.{Recurrence}
use kokoro_scheduler.Store.Due.{
  insert_dispatch_outbox, insert_occurrence, has_open_occurrence, advance_schedule,
  release_schedule_claim,
}
use kokoro_scheduler.Store.Rows.{Tx, Db, within_tx}
use kokoro_scheduler.Base.{
  ℕ, Bool, true, false, not, ◌&&◌, Option, none, some, List, [], ◌∷◌, if◌then◌else◌, Text, Result,
  ok, err, ◌>>=◌, Error, join,
}
use kokoro_scheduler.Domain.Schedule.{Schedule, is_forbid}
use kokoro_scheduler.Domain.Occurrence.{skipped, OccurrencePlan, overlap_blocked}

-- `plan.Dispatch && openOccurrence`: the plan is recorded as blocked.
unfoldable pub block_overlap : Bool → OccurrencePlan → OccurrencePlan
block_overlap open_ plan =
    if plan.dispatch && open_
    then record plan { dispatch = false; status = skipped; outcome_code = overlap_blocked }
    else plan

-- `openOccurrence` before the loop over the plans.
unfoldable pub overlap_before : Schedule → Db → Bool
overlap_before schedule db =
    is_forbid schedule.overlap_policy && has_open_occurrence schedule.tenant_id schedule.id db

module _ (uuid : ℕ → Text) (schedule : Schedule) where
  -- What follows the insertion of an occurrence. The result is `openOccurrence` for the next plan.
  unfoldable pub dispatch_inserted : OccurrencePlan → Bool → Option Text → Tx Bool
  dispatch_inserted plan open_ none db = ok (open_, db)
  dispatch_inserted plan open_ (some id) db =
      if not plan.dispatch
      then ok (open_, db)
      else (insert_dispatch_outbox uuid schedule id plan db >>= λ out.
          ok ((if is_forbid schedule.overlap_policy then true else open_), out.1))

  -- One round of the loop over the plans.
  unfoldable pub insert_plan : OccurrencePlan → Bool → Tx Bool
  insert_plan source_plan open_ db =
      let plan = block_overlap open_ source_plan in
      insert_occurrence uuid schedule plan db >>= λ out. dispatch_inserted plan open_ out.0 out.1

  unfoldable pub insert_plans : List OccurrencePlan → Bool → Tx (Unit {0})
  insert_plans [] open_ db = ok (tt, db)
  insert_plans (plan ∷ plans) open_ db =
      insert_plan plan open_ db >>= λ out. insert_plans plans out.0 out.1

  unfoldable pub materialize_plans : Text → Time → Planned → Tx (Unit {0})
  materialize_plans worker now planned db =
      insert_plans planned.0 (overlap_before schedule db) db >>= λ out.
      advance_schedule schedule worker planned.1 now out.1

-- `errors.Join(err, releaseErr)`, where a nil error is dropped.
abbrev pub join_result : Error → Result (Unit {0}) → Error
join_result e (ok u) = e
join_result e (err f) = join e f

-- The claim is released if the schedule cannot be planned.
unfoldable pub release_failed : Error → Result (Unit {0}) × Db → Result (Unit {0}) × Db
release_failed e (r, db) = (err (join_result e r), db)

unfoldable pub materialize_planned :
    (ℕ → Text) → Text → Schedule → Time → Result Planned → Db → Result (Unit {0}) × Db
materialize_planned uuid worker schedule now (ok planned) db =
    within_tx (materialize_plans uuid schedule worker now planned) db
materialize_planned uuid worker schedule now (err e) db =
    release_failed e (within_tx (release_schedule_claim schedule worker now) db)

unfoldable pub materialize :
    Recurrence → (ℕ → Text) → Text → Schedule → Time → Db → Result (Unit {0}) × Db
materialize r uuid worker schedule now =
    materialize_planned uuid worker schedule now (plan_schedule r schedule now)
