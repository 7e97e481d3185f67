-- ===== src/Tests/Planner.antt =====
-- The theorems on the planner at a report that is due at 10 s and planned at 15 s, and at the
-- materialisation of what is planned.
use kokoro_scheduler.Base.{
  text_eq, true, ◌*◌, ◌<◌, ◌≡◌, refl, [], ◌∷◌, arith, ok, List, Result, err, false, ◌↔◌, codes,
  claim_lost, ◌≤◌, length,
}
use kokoro_scheduler.Store.Table.{select_where, first_row, update_where, exists_where}
use kokoro_scheduler.Store.Commands.{update_schedule, update_returning}
use kokoro_scheduler.Planner.Stale.{materialize_plans-stale}
use kokoro_scheduler.Planner.Keys.{insert_plans-HasUniqueKeys}
use kokoro_scheduler.Store.Scan.{nullable_instant, nullable_code}
use kokoro_scheduler.Store.Due.{
  new_dispatch, advance_row, update_schedule_row, advance_schedule, new_occurrence,
  insert_dispatch_outbox, insert_occurrence, has_open_occurrence, is_claimed_version,
  claim_due_schedules,
}
use kokoro_scheduler.Planner.Materialize.{
  overlap_before, block_overlap, dispatch_inserted, insert_plan, insert_plans, materialize_plans,
}
use kokoro_scheduler.Planner.Chain.{Follows, Closed, bounded_catch_up-Follows}
use kokoro_scheduler.Planner.Overlap.{open_count, materialize_plans-overlap}
use kokoro_scheduler.Planner.Replay.{HasUniqueKeys, insert_plans-twice}
use kokoro_scheduler.Domain.Schedule.{MisfirePolicy, Schedule}
use kokoro_scheduler.Store.Rows.{Db, within_tx}
use kokoro_scheduler.Planner.Plan.{
  close_catch_up, catch_up_loop, bounded_catch_up, plan_misfire, plan_due, plan_schedule, Planned,
  dispatch_plan, skip_plan,
}
use kokoro_scheduler.Domain.Occurrence.{misfire_bound_exceeded, OccurrencePlan}
use kokoro_scheduler.Planner.Order.{IsOrdered, plan_schedule-IsOrdered}
use kokoro_scheduler.Tests.{
  fire_each_second, report, fire_each_second-IsLawful, single_report, claimed_db, numbered,
}
use kokoro_scheduler.Recurrence.{InReach}
use kokoro_scheduler.Domain.Time.{normalize_instant, Time, second}
use kokoro_scheduler.Planner.Bounds.{IsBounded, plan_schedule-IsBounded, plan_schedule-once}

abbrev late : Time
late = 15 * second

abbrev planned : Planned
planned = (
  dispatch_plan (10 * second) late
      ∷ dispatch_plan (11 * second) late
      ∷ skip_plan (12 * second) late misfire_bound_exceeded
      ∷ [],
  16 * second,
)

plan_report : plan_schedule fire_each_second report late ≡ ok planned
unfolding plan_schedule plan_due normalize_instant plan_misfire bounded_catch_up catch_up_loop
    close_catch_up
plan_report = refl

report-InReach : InReach (normalize_instant report.next_due_at) (normalize_instant late)
unfolding normalize_instant
report-InReach = omega arith

plan_schedule-IsOrdered_example :
    IsOrdered (normalize_instant late) (normalize_instant report.next_due_at) planned.0 planned.1
    × (normalize_instant late < planned.1)
unfolding normalize_instant
plan_schedule-IsOrdered_example =
    plan_schedule-IsOrdered fire_each_second report late fire_each_second-IsLawful refl
      (ground arith) (omega arith) report-InReach plan_report

plan_schedule-IsBounded_example : IsBounded 2 planned.0
plan_schedule-IsBounded_example =
    plan_schedule-IsBounded fire_each_second report late (omega arith) plan_report

plan_schedule-once_example :
    (p : OccurrencePlan) × (plan_schedule fire_each_second single_report late ≡ ok (p ∷ [], 0))
    × (p.scheduled_at ≡ normalize_instant (10 * second))
    × (p.observed_at ≡ normalize_instant late)
    × ((p.dispatch ≡ false) ↔ (
        (MisfirePolicy.skip ≡ MisfirePolicy.skip)
        × (normalize_instant (10 * second) < normalize_instant late)))
unfolding normalize_instant
plan_schedule-once_example =
    plan_schedule-once fire_each_second single_report late (omega arith) (omega arith) (omega arith)

catch_up : bounded_catch_up fire_each_second report (10 * second) late ≡ ok planned
unfolding bounded_catch_up catch_up_loop close_catch_up
catch_up = refl

bounded_catch_up-Follows_example :
    (ps : List OccurrencePlan) × (c : Time) × Follows fire_each_second report.rule report.timezone
      late
      (10 * second)
      ps
      c
    × (length ps ≤ 2)
    × Closed fire_each_second report.rule report.timezone late 2 ps c planned
bounded_catch_up-Follows_example =
    bounded_catch_up-Follows fire_each_second report (10 * second) late catch_up

-- The database that an operation of the tests leaves.
abbrev left : Result (Unit {0} × Db) → Db
left (ok r) = r.1
left (err e) = claimed_db

abbrev second_of : {A : Type 0} → Result (A × Db) → Db
second_of (ok r) = r.1
second_of (err e) = claimed_db

abbrev first_of : Result (Schedule × Db) → Schedule
first_of (ok r) = r.0
first_of (err e) = report

abbrev listed : Result (List Schedule × Db) → List Schedule
listed (ok r) = r.0
listed (err e) = []

-- The second plan is blocked by the first: one occurrence is open, one dispatch is queued.
abbrev materialized : Db
materialized = left (materialize_plans numbered report (codes "worker") late planned claimed_db)

materialize_report :
    materialize_plans numbered report (codes "worker") late planned claimed_db
    ≡ ok (tt, materialized)
unfolding materialize_plans insert_plans insert_plan insert_occurrence exists_where
    dispatch_inserted block_overlap dispatch_plan overlap_before has_open_occurrence
    insert_dispatch_outbox text_eq new_occurrence normalize_instant skip_plan advance_schedule
    update_schedule_row is_claimed_version advance_row new_dispatch nullable_code nullable_instant
    update_where
materialize_report = refl

materialize_plans-overlap_example :
    (open_count report materialized ≤ 1) × (length materialized.outbox ≤ 1)
unfolding has_open_occurrence exists_where
materialize_plans-overlap_example =
    materialize_plans-overlap numbered report (codes "worker") late planned claimed_db refl
      (plan_schedule-IsBounded fire_each_second report late (omega arith) plan_report).formed
      materialize_report

-- A command updates the report that the planner has read, and a later pass claims it again for the
-- same worker.
abbrev updated : Result (Schedule × Db)
updated = update_schedule report report claimed_db

abbrev changed : Db
changed = second_of updated

update_report : update_schedule report report claimed_db ≡ ok (first_of updated, changed)
unfolding update_schedule update_returning update_where text_eq first_row select_where
update_report = refl

abbrev claimed_again : Result (List Schedule × Db)
claimed_again =
    claim_due_schedules (λ id. false) (90 * second) (codes "worker") (150 * second) 5 changed

abbrev reclaimed : Db
reclaimed = second_of claimed_again

reclaim_report :
    claim_due_schedules (λ id. false) (90 * second) (codes "worker") (150 * second) 5 changed
    ≡ ok (listed claimed_again, reclaimed)
unfolding update_schedule claim_due_schedules
reclaim_report = refl

materialize_plans-stale_example :
    within_tx (materialize_plans numbered report (codes "worker") late planned) reclaimed
    ≡ (err claim_lost, reclaimed)
unfolding text_eq
materialize_plans-stale_example =
    materialize_plans-stale numbered report report (first_of updated) (λ id. false) (90 * second)
      (codes "worker") (150 * second) 5 (listed claimed_again) (codes "worker") late planned
      claimed_db ((λ same. refl), tt) update_report reclaim_report

abbrev recorded : Db
recorded = left (insert_plans numbered report planned.0 false claimed_db)

insert_report : insert_plans numbered report planned.0 false claimed_db ≡ ok (tt, recorded)
unfolding insert_plans insert_plan insert_occurrence exists_where dispatch_inserted block_overlap
    dispatch_plan insert_dispatch_outbox text_eq new_occurrence normalize_instant skip_plan
insert_report = refl

insert_plans-twice_example :
    insert_plans numbered report planned.0 true recorded ≡ ok (tt, recorded)
insert_plans-twice_example =
    insert_plans-twice numbered report planned.0 false true claimed_db insert_report

insert_plans-HasUniqueKeys_example : HasUniqueKeys recorded
insert_plans-HasUniqueKeys_example =
    insert_plans-HasUniqueKeys numbered report planned.0 false claimed_db (λ s t. omega arith)
      insert_report
