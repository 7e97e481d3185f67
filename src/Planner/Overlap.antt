-- ===== src/Planner/Overlap.antt =====
-- What materialising the plans of one schedule adds to the store.
use kokoro_scheduler.Base.{
  ℕ, ◌+◌, ◌≤◌, max, ◌≡◌, inl, inr, Bool, true, false, ◌&&◌, Option, none, some, List, ◌∷◌, arith,
  Text, Result, ok, refl, sym, subst, not, [], count_if, length, >>=-eq-ok, All, if◌then◌else◌,
}
use kokoro_scheduler.Store.Table.{exists_where-count}
use kokoro_scheduler.Planner.Plan.{Planned}
use kokoro_scheduler.Planner.Bounds.{IsWellFormed}
use kokoro_scheduler.Domain.Time.{Time}
use kokoro_scheduler.Planner.Materialize.{
  dispatch_inserted, materialize_plans, insert_plans, insert_plan, overlap_before, block_overlap,
}
use kokoro_scheduler.Store.Rows.{Db, ScheduleRow, OccurrenceRow, OutboxRow}
use kokoro_scheduler.Store.Due.{
  insert_occurrence, new_occurrence, insert_dispatch_outbox, is_open, is_open_for,
  update_schedule_row, has_open_occurrence, advance_schedule,
}
use kokoro_scheduler.Domain.Schedule.{Schedule, is_forbid}
use kokoro_scheduler.Domain.Occurrence.{OccurrencePlan}

-- How many occurrences of the schedule are open.
abbrev pub open_count : Schedule → Db → ℕ
open_count schedule db = count_if (is_open_for schedule.tenant_id schedule.id) db.occurrences

-- How many dispatches may still be added while none is open.
abbrev slack : Bool → ℕ
slack true = 0
slack false = 1

module _ (uuid : ℕ → Text) (schedule : Schedule) where
  -- An open occurrence and an outbox row both use up the slack.
  record Spends (open_ : Bool) (db : Db) (open' : Bool) (db' : Db) : Type 0 where
    opened : open_count schedule db' + slack open' ≤ open_count schedule db + slack open_
    queued : length db'.outbox + slack open' ≤ length db.outbox + slack open_

  insert_occurrence-blocked :
      (plan : OccurrencePlan) (db : Db) {id : Option Text} {db' : Db}
      → is_open plan.status ≡ false
      → insert_occurrence uuid schedule plan db ≡ ok (id, db')
      → (open_count schedule db' ≡ open_count schedule db) × (db'.outbox ≡ db.outbox)
  unfolding insert_occurrence new_occurrence
  insert_occurrence-blocked plan db shut h = (ground arith, ground arith)

  insert_occurrence-counts :
      (plan : OccurrencePlan) (db : Db) {id : Option Text} {db' : Db}
      → insert_occurrence uuid schedule plan db ≡ ok (id, db')
      → (open_count schedule db' ≤ open_count schedule db + 1)
        × (id ≡ none → open_count schedule db' ≡ open_count schedule db)
        × (db'.outbox ≡ db.outbox)
  unfolding insert_occurrence new_occurrence
  insert_occurrence-counts plan db h = (ground arith, λ e. ground arith, ground arith)

  pub insert_dispatch_outbox-length :
      (id : Text) (plan : OccurrencePlan) (db : Db) {u : Unit {0}} {db' : Db}
      → insert_dispatch_outbox uuid schedule id plan db ≡ ok (u, db')
      → (length db'.outbox ≤ length db.outbox + 1) × (db'.occurrences ≡ db.occurrences)
  unfolding insert_dispatch_outbox
  insert_dispatch_outbox-length id plan db h = (ground arith, ground arith)

  -- A plan that is not dispatched only records an occurrence that is not open.
  record_plan-Spends :
      (plan : OccurrencePlan) (open_ : Bool) (found : Option Text) (db db₁ : Db) {open' : Bool}
      {db' : Db}
      → plan.dispatch ≡ false
      → is_open plan.status ≡ false
      → insert_occurrence uuid schedule plan db ≡ ok (found, db₁)
      → dispatch_inserted uuid schedule plan open_ found db₁ ≡ ok (open', db')
      → Spends open_ db open' db'
  unfolding dispatch_inserted
  record_plan-Spends plan open_ none db db₁ off shut e h =
      let (same, queue) = insert_occurrence-blocked plan db shut e in
      record { opened = ground (arith, same); queued = ground (arith, queue) }
  record_plan-Spends plan open_ (some id) db db₁ {open'} {db'} off shut e h =
      let (same, queue) = insert_occurrence-blocked plan db shut e in
      let h' : ◌≡◌ {A = Result (Bool × Db)} (ok (open_, db₁)) (ok (open', db')) = rw off at h in
      record { opened = ground (arith, same); queued = ground (arith, queue) }

  -- A plan that is dispatched while nothing is open uses the slack.
  dispatch_plan-Spends :
      (plan : OccurrencePlan) (found : Option Text) (db db₁ : Db) {open' : Bool} {db' : Db}
      → is_forbid schedule.overlap_policy ≡ true
      → plan.dispatch ≡ true
      → insert_occurrence uuid schedule plan db ≡ ok (found, db₁)
      → dispatch_inserted uuid schedule plan false found db₁ ≡ ok (open', db')
      → Spends false db open' db'
  unfolding dispatch_inserted
  dispatch_plan-Spends plan none db db₁ forbids on e h =
      let (_, same, queue) = insert_occurrence-counts plan db e in
      record { opened = ground (arith, same refl); queued = ground (arith, queue) }
  dispatch_plan-Spends plan (some id) db db₁ forbids on e h =
      let dispatches : not plan.dispatch ≡ false = ground arith in
      let (more, _, queue) = insert_occurrence-counts plan db e in
      let (out, added, rest) =
        >>=-eq-ok (insert_dispatch_outbox uuid schedule id plan db₁) _
          (rw (dispatches, forbids) at h) in
      let (longer, same) = insert_dispatch_outbox-length id plan db₁ added in
      record {
        opened = ground (arith, more, same, rest);
        queued = ground (arith, longer, queue, rest);
      }

  insert_plan-Spends :
      (plan : OccurrencePlan) (open_ : Bool) (db : Db) {open' : Bool} {db' : Db}
      → is_forbid schedule.overlap_policy ≡ true
      → IsWellFormed plan
      → insert_plan uuid schedule plan open_ db ≡ ok (open', db')
      → Spends open_ db open' db'
  unfolding insert_plan block_overlap
  insert_plan-Spends plan true db forbids (inl (on, p, c, m)) h =
      let (out, e, rest) = >>=-eq-ok (insert_occurrence uuid schedule _ db) _ h in
      record_plan-Spends _ true out.0 db out.1 (ground arith) (ground arith) e rest
  insert_plan-Spends plan false db forbids (inl (on, p, c, m)) h =
      let same : block_overlap false plan ≡ plan = ground arith in
      let (out, e, rest) = >>=-eq-ok (insert_occurrence uuid schedule plan db) _ (rw same at h) in
      dispatch_plan-Spends plan out.0 db out.1 forbids on e rest
  insert_plan-Spends plan open_ db forbids (inr (off, k, c, m)) h =
      let same : block_overlap open_ plan ≡ plan = ground arith in
      let (out, e, rest) = >>=-eq-ok (insert_occurrence uuid schedule plan db) _ (rw same at h) in
      record_plan-Spends plan open_ out.0 db out.1 off (ground arith) e rest

  insert_plans-Spends :
      (plans : List OccurrencePlan) (open_ : Bool) (db : Db) {u : Unit {0}} {db' : Db}
      → is_forbid schedule.overlap_policy ≡ true
      → All IsWellFormed plans
      → insert_plans uuid schedule plans open_ db ≡ ok (u, db')
      → (open_count schedule db' ≤ open_count schedule db + slack open_)
        × (length db'.outbox ≤ length db.outbox + slack open_)
  unfolding insert_plans
  insert_plans-Spends [] open_ db forbids v h = (ground arith, ground arith)
  insert_plans-Spends (plan ∷ plans) open_ db {u} {db'} forbids v h =
      let (out, e, rest) = >>=-eq-ok (insert_plan uuid schedule plan open_ db) _ h in
      let spent = insert_plan-Spends plan open_ db forbids v.0 e in
      let (opened, queued) = insert_plans-Spends plans out.0 out.1 forbids v.1 rest in
      (omega (arith, spent.opened, opened), omega (arith, spent.queued, queued))

update_schedule_row-keeps :
    (p : ScheduleRow → Bool) (f : ScheduleRow → ScheduleRow) (db : Db) {u : Unit {0}} {db' : Db}
    → update_schedule_row p f db ≡ ok (u, db')
    → (db'.occurrences ≡ db.occurrences) × (db'.outbox ≡ db.outbox)
unfolding update_schedule_row
update_schedule_row-keeps p f db h = (ground arith, ground arith)

slack_bound : (b : Bool) (n m : ℕ) → (b ≡ false → m ≡ 0) → n ≤ m + slack b → n ≤ max 1 m
slack_bound true n m z h = omega arith
slack_bound false n m z h = omega (arith, z refl)

-- A schedule that forbids overlap: materialising well-formed plans leaves at most one occurrence of
-- it open, unless more were open before. It queues at most one dispatch, and none at all while an
-- occurrence is open.
pub materialize_plans-overlap :
    (uuid : ℕ → Text) (schedule : Schedule) (worker : Text) (now : Time) (planned : Planned)
    (db : Db) {db' : Db}
    → is_forbid schedule.overlap_policy ≡ true
    → All IsWellFormed planned.0
    → materialize_plans uuid schedule worker now planned db ≡ ok (tt, db')
    → (open_count schedule db' ≤ max 1 (open_count schedule db))
      × (length db'.outbox
          ≤ length db.outbox
            + (if has_open_occurrence schedule.tenant_id schedule.id db then 0 else 1))
unfolding materialize_plans overlap_before has_open_occurrence advance_schedule
materialize_plans-overlap uuid schedule worker now planned db {db'} forbids v h =
    let busy = has_open_occurrence schedule.tenant_id schedule.id db in
    let open_ = is_forbid schedule.overlap_policy && busy in
    let (out, e, rest) = >>=-eq-ok (insert_plans uuid schedule planned.0 open_ db) _ h in
    let (opened, queued) = insert_plans-Spends uuid schedule planned.0 open_ db forbids v e in
    let (same_occurrences, same_outbox) = update_schedule_row-keeps _ _ out.1 rest in
    let none_open : open_ ≡ false → open_count schedule db ≡ 0 =
      λ shut. exists_where-count _ db.occurrences (ground (arith, shut)) in
    let few =
      slack_bound open_ (open_count schedule out.1) (open_count schedule db) none_open
        (omega (arith, opened)) in
    (
      subst
          (λ (os : List OccurrenceRow).
            count_if (is_open_for schedule.tenant_id schedule.id) os
            ≤ max 1 (open_count schedule db))
          (sym same_occurrences) few,
      subst (λ (os : List OutboxRow). length os ≤ length db.outbox + (if busy then 0 else 1))
          (sym same_outbox) (ground (arith, forbids, queued)),
    )
