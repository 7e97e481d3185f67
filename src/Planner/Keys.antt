-- ===== src/Planner/Keys.antt =====
-- The unique key of scheduler_occurrence under the planner's insertions.
use kokoro_scheduler.Store.Table.{exists_where, exists_where-count}
use kokoro_scheduler.Planner.Materialize.{insert_plans, insert_plan, block_overlap}
use kokoro_scheduler.Domain.Time.{Time}
use kokoro_scheduler.Store.Due.{new_occurrence, is_occurrence_at}
use kokoro_scheduler.Planner.Replay.{HasUniqueKeys, insert_plan-occurrences}
use kokoro_scheduler.Store.Rows.{Db, OccurrenceRow}
use kokoro_scheduler.Domain.Occurrence.{OccurrencePlan}
use kokoro_scheduler.Domain.Schedule.{Schedule}
use kokoro_scheduler.Base.{
  ℕ, ◌≤◌, ◌≡◌, sym, subst, inl, inr, Bool, true, false, ◌&&◌, List, [], ◌∷◌, arith, ◌==◌, Text, ok,
  ok-injective, >>=-eq-ok, count_if, Bool-cases, text_eq→eq, text_eq,
}

key_free :
    (schedule other : Schedule) (at : Time) (id : Text) (plan : OccurrencePlan)
    (rows : List OccurrenceRow)
    → is_occurrence_at other at (new_occurrence id schedule plan) ≡ true
    → exists_where (is_occurrence_at schedule plan.scheduled_at) rows ≡ false
    → count_if (is_occurrence_at other at) rows ≡ 0
unfolding new_occurrence
key_free schedule other at id plan rows same free =
    subst (λ (q : OccurrenceRow → Bool). count_if q rows ≡ 0)
      (λ i row.
        text_eq row.tenant_id (tenant i)
        && text_eq row.schedule_id (schedule_id i)
        && row.scheduled_at == instant i)
      (exists_where-count (is_occurrence_at schedule plan.scheduled_at) rows free)
  where
    tenant : schedule.tenant_id ≡ other.tenant_id
    tenant = text_eq→eq schedule.tenant_id other.tenant_id (ground arith)

    schedule_id : schedule.id ≡ other.id
    schedule_id = text_eq→eq schedule.id other.id (ground arith)

    instant : plan.scheduled_at ≡ at
    instant = ground arith

insert_plan-HasUniqueKeys :
    (uuid : ℕ → Text) (schedule : Schedule) (plan : OccurrencePlan) (open_ : Bool) (db : Db)
    {open' : Bool} {db' : Db}
    → HasUniqueKeys db
    → insert_plan uuid schedule plan open_ db ≡ ok (open', db')
    → HasUniqueKeys db'
insert_plan-HasUniqueKeys uuid schedule plan open_ db {open'} {db'} v h other at =
    elim (insert_plan-occurrences uuid schedule plan open_ db h) [
      | inl (taken, kept) ↦ rw kept (v other at)
      | inr (free, added) ↦
          let row = new_occurrence (uuid db.issued) schedule (block_overlap open_ plan) in
          subst (λ (rows : List OccurrenceRow). count_if (is_occurrence_at other at) rows ≤ 1)
            (sym added)
            (elim (Bool-cases (is_occurrence_at other at row)) [
              | inl hit ↦
                  let zero_before =
                    key_free schedule other at (uuid db.issued) (block_overlap open_ plan)
                      db.occurrences hit free in
                  rw hit (omega (arith, zero_before))
              | inr miss ↦ rw miss (v other at)
            ])
    ]

-- The planner never records an instant of a schedule twice: whatever plans it inserts, no two
-- occurrences have the same tenant, schedule and instant, if none had before.
pub insert_plans-HasUniqueKeys :
    (uuid : ℕ → Text) (schedule : Schedule) (plans : List OccurrencePlan) (open_ : Bool) (db : Db)
    {db' : Db}
    → HasUniqueKeys db
    → insert_plans uuid schedule plans open_ db ≡ ok (tt, db')
    → HasUniqueKeys db'
unfolding insert_plans
insert_plans-HasUniqueKeys uuid schedule [] open_ db v h =
    subst (λ (o : Unit {0} × Db). HasUniqueKeys o.1) (ok-injective h) v
insert_plans-HasUniqueKeys uuid schedule (plan ∷ plans) open_ db v h =
    let (out, e, rest) = >>=-eq-ok (insert_plan uuid schedule plan open_ db) _ h in
    insert_plans-HasUniqueKeys uuid schedule plans out.0 out.1
      (insert_plan-HasUniqueKeys uuid schedule plan open_ db v e) rest
