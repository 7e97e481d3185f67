-- ===== src/Planner/Stale.antt =====
-- A planner whose schedule was changed under it leaves no trace.
use kokoro_scheduler.Base.{
  sym, ap, subst, arith, ◌==◌, All, All-mono, ok-injective, ℕ, suc, ◌≡◌, refl, ◌∙◌, inl, inr, Bool,
  true, false, not, ◌&&◌, Option, none, some, List, [], ◌∷◌, if◌then◌else◌, Text, ok, err, text_eq,
  claim_lost, count_if, Bool-cases,
}
use kokoro_scheduler.Store.Table.{
  update_where-All, update_where-All_cases, exists_where-none, exists_where, exists_where-count,
}
use kokoro_scheduler.Store.Due.{
  claim_schedule, claim_due_schedules, insert_occurrence, is_occurrence_at, new_occurrence,
  insert_dispatch_outbox, advance_schedule, update_schedule_row, is_claimed_version, new_dispatch,
}
use kokoro_scheduler.Store.Commands.{
  is_version, is_named, replace_row, update_schedule, update_returning-schedules,
}
use kokoro_scheduler.Store.Rows.{ScheduleRow, Db, within_tx, Tx}
use kokoro_scheduler.Planner.Plan.{Planned}
use kokoro_scheduler.Domain.Time.{Time}
use kokoro_scheduler.Domain.Occurrence.{OccurrencePlan}
use kokoro_scheduler.Planner.Materialize.{
  insert_plan, block_overlap, insert_plans, dispatch_inserted, materialize_plans, overlap_before,
}
use kokoro_scheduler.Domain.Schedule.{Schedule, is_forbid}

-- A statement that cannot fail, and leaves the schedules alone.
abbrev IsQuiet : {A : Type 0} → Tx A → Db → Type 0
IsQuiet {A} run db = (a : A) × (db' : Db) × (run db ≡ ok (a, db')) × (db'.schedules ≡ db.schedules)

module _ (uuid : ℕ → Text) (schedule : Schedule) where
  insert_occurrence-IsQuiet :
      (plan : OccurrencePlan) (db : Db) → IsQuiet (insert_occurrence uuid schedule plan) db
  unfolding insert_occurrence
  insert_occurrence-IsQuiet plan db =
      elim (Bool-cases
        (exists_where (is_occurrence_at schedule plan.scheduled_at) db.occurrences)) [
          | inl taken ↦ (none, db, rw taken, refl)
          | inr free ↦ (
            some (uuid db.issued),
            record db {
              occurrences = new_occurrence (uuid db.issued) schedule plan ∷ db.occurrences;
              issued = suc db.issued;
            },
            rw free,
            refl,
          )
        ]

  insert_dispatch_outbox-IsQuiet :
      (id : Text) (plan : OccurrencePlan) (db : Db)
      → IsQuiet (insert_dispatch_outbox uuid schedule id plan) db
  unfolding insert_dispatch_outbox
  insert_dispatch_outbox-IsQuiet id plan db =
      elim (Bool-cases (
        exists_where
          (λ row. text_eq row.tenant_id schedule.tenant_id && text_eq row.occurrence_id id)
          db.outbox)) [
            | inl taken ↦ (tt, db, rw taken, refl)
            | inr free ↦ (
              tt,
              record db {
                outbox = new_dispatch (uuid db.issued) schedule id plan ∷ db.outbox;
                issued = suc db.issued;
              },
              rw free,
              refl,
            )
          ]

  dispatch_inserted-IsQuiet :
      (plan : OccurrencePlan) (open_ : Bool) (found : Option Text) (db : Db)
      → IsQuiet (dispatch_inserted uuid schedule plan open_ found) db
  unfolding dispatch_inserted
  dispatch_inserted-IsQuiet plan open_ none db = (open_, db, refl, refl)
  dispatch_inserted-IsQuiet plan open_ (some id) db = elim (Bool-cases (not plan.dispatch)) [
    | inl off ↦ (open_, db, rw off, refl)
    | inr on ↦
        let (u, db', e, same) = insert_dispatch_outbox-IsQuiet id plan db in
        ((if is_forbid schedule.overlap_policy then true else open_), db', rw (on, e), same)
  ]

  insert_plan-IsQuiet :
      (plan : OccurrencePlan) (open_ : Bool) (db : Db)
      → IsQuiet (insert_plan uuid schedule plan open_) db
  unfolding insert_plan
  insert_plan-IsQuiet plan open_ db =
      let plan' = block_overlap open_ plan in
      let (found, db₁, e, same) = insert_occurrence-IsQuiet plan' db in
      let (open', db₂, e', same') = dispatch_inserted-IsQuiet plan' open_ found db₁ in
      (open', db₂, rw (e, e'), same' ∙ same)

  insert_plans-IsQuiet :
      (plans : List OccurrencePlan) (open_ : Bool) (db : Db)
      → IsQuiet (insert_plans uuid schedule plans open_) db
  unfolding insert_plans
  insert_plans-IsQuiet [] open_ db = (tt, db, refl, refl)
  insert_plans-IsQuiet (plan ∷ plans) open_ db =
      let (open', db₁, e, same) = insert_plan-IsQuiet plan open_ db in
      let (u, db₂, e', same') = insert_plans-IsQuiet plans open' db₁ in
      (u, db₂, rw (e, e'), same' ∙ same)

-- What was inserted is rolled back where no row has the claim and the version.
materialize_plans_lost :
    (uuid : ℕ → Text) (schedule : Schedule) (worker : Text) (now : Time) (planned : Planned)
    (db : Db)
    → exists_where (is_claimed_version schedule worker) db.schedules ≡ false
    → within_tx (materialize_plans uuid schedule worker now planned) db ≡ (err claim_lost, db)
unfolding within_tx materialize_plans advance_schedule update_schedule_row
materialize_plans_lost uuid schedule worker now planned db lost =
    let (u, db', e, same) =
      insert_plans-IsQuiet uuid schedule planned.0 (overlap_before schedule db) db in
    let none_left : count_if (is_claimed_version schedule worker) db'.schedules ≡ 0 =
      rw same (exists_where-count (is_claimed_version schedule worker) db.schedules lost) in
    rw (e, none_left, within_tx)

-- The schedule at the version that was read.
abbrev is_snapshot : Schedule → ScheduleRow → Bool
is_snapshot schedule row = text_eq row.id schedule.id && row.version == schedule.version

-- The identifier of a schedule is the primary key: a row that has it is the row of this name.
abbrev pub IsKeyed : Schedule → Text → Text → ScheduleRow → Type 0
IsKeyed schedule tenant_id name row =
    text_eq row.id schedule.id ≡ true → is_named tenant_id name row ≡ true

replace_row-is_snapshot :
    (current replacement : Schedule) (row : ScheduleRow)
    → is_version replacement.tenant_id replacement.name current row ≡ true
    → is_snapshot current (replace_row replacement row) ≡ false
unfolding replace_row
replace_row-is_snapshot current replacement row hit = ground (arith, hit)

missed-is_snapshot :
    (current replacement : Schedule) (row : ScheduleRow)
    → IsKeyed current replacement.tenant_id replacement.name row
    → is_version replacement.tenant_id replacement.name current row ≡ false
    → is_snapshot current row ≡ false
missed-is_snapshot current replacement row keyed miss =
    elim (Bool-cases (text_eq row.id current.id)) [
      | inl same ↦ ground (arith, same, keyed same, miss)
      | inr apart ↦ rw apart
    ]

-- After an update of the schedule no row has the version that was read.
update_schedule-is_snapshot :
    (current replacement updated : Schedule) (db : Db) {db' : Db}
    → All (IsKeyed current replacement.tenant_id replacement.name) db.schedules
    → update_schedule current replacement db ≡ ok (updated, db')
    → All (λ row. is_snapshot current row ≡ false) db'.schedules
unfolding update_schedule
update_schedule-is_snapshot current replacement updated db keyed h =
    let p = is_version replacement.tenant_id replacement.name current in
    subst (λ (rows : List ScheduleRow). All (λ row. is_snapshot current row ≡ false) rows)
      (sym (update_returning-schedules p (replace_row replacement) _ _ db h))
      (update_where-All_cases (λ row. is_snapshot current row ≡ false) p (replace_row replacement)
        (λ row hit. replace_row-is_snapshot current replacement row hit) db.schedules
        (All-mono (IsKeyed current replacement.tenant_id replacement.name) _
          (λ row key miss. missed-is_snapshot current replacement row key miss) db.schedules keyed))

claim_schedule-is_snapshot :
    (current : Schedule) (now : Time) (worker : Text) (expires : Time) (row : ScheduleRow)
    → is_snapshot current row ≡ false
    → is_snapshot current (claim_schedule now worker expires row) ≡ false
unfolding claim_schedule
claim_schedule-is_snapshot current now worker expires row h = h

claim_due_schedules-is_snapshot :
    (current : Schedule) (locked : Text → Bool) (now : Time) (worker : Text) (expires : Time)
    (limit : ℕ) (claimed : List Schedule) (db : Db) {db' : Db}
    → All (λ row. is_snapshot current row ≡ false) db.schedules
    → claim_due_schedules locked now worker expires limit db ≡ ok (claimed, db')
    → All (λ row. is_snapshot current row ≡ false) db'.schedules
unfolding claim_due_schedules
claim_due_schedules-is_snapshot current locked now worker expires limit claimed db v h =
    subst (λ (rows : List ScheduleRow). All (λ row. is_snapshot current row ≡ false) rows)
      (ap (λ (r : List Schedule × Db). r.1.schedules) (ok-injective h))
      (update_where-All (λ row. is_snapshot current row ≡ false) _
        (claim_schedule now worker expires)
        (λ row hit old. claim_schedule-is_snapshot current now worker expires row old) db.schedules
        v)

is_claimed_version-outdated :
    (schedule : Schedule) (worker : Text) (row : ScheduleRow)
    → is_snapshot schedule row ≡ false
    → is_claimed_version schedule worker row ≡ false
unfolding is_claimed_version
is_claimed_version-outdated schedule worker row h = ground (arith, h)

-- A planner works on a schedule as it was read. If a command has updated the schedule since, the
-- planner records nothing, also where a later pass has claimed the schedule again, and even for the
-- same worker: its transaction is refused as a lost claim and the database stays as it was. The
-- identifier of the schedule is the key of its row.
pub materialize_plans-stale :
    (uuid : ℕ → Text) (current replacement updated : Schedule) (locked : Text → Bool)
    (claimed_at : Time) (claimer : Text) (expires : Time) (limit : ℕ) (claimed : List Schedule)
    (worker : Text) (now : Time) (planned : Planned) (db : Db) {db₁ db₂ : Db}
    → All (IsKeyed current replacement.tenant_id replacement.name) db.schedules
    → update_schedule current replacement db ≡ ok (updated, db₁)
    → claim_due_schedules locked claimed_at claimer expires limit db₁ ≡ ok (claimed, db₂)
    → within_tx (materialize_plans uuid current worker now planned) db₂ ≡ (err claim_lost, db₂)
materialize_plans-stale uuid current replacement updated locked claimed_at claimer expires limit
      claimed worker now planned db {db₁} {db₂} keyed changed taken =
    let old = update_schedule-is_snapshot current replacement updated db keyed changed in
    let old' =
      claim_due_schedules-is_snapshot current locked claimed_at claimer expires limit claimed db₁
        old taken in
    materialize_plans_lost uuid current worker now planned db₂ (
      exists_where-none (is_claimed_version current worker) db₂.schedules (
        All-mono (λ row. is_snapshot current row ≡ false) _
          (λ row apart. is_claimed_version-outdated current worker row apart) db₂.schedules old'))
