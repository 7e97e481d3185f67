-- ===== src/Service/Found.antt =====
-- The rows that a command finds by tenant and name, and what it answers with.
use kokoro_scheduler.Base.{
  ◌≡◌, sym, ap, subst, ◌∙◌, ◌⊎◌, inl, inr, Bool, true, false, not, ◌&&◌, Option, some, List, arith,
  Text, Result, ok, err, text_eq→eq, All-mono, Error, All, ok-injective, Option-cases,
}
use kokoro_scheduler.Store.Scan.{scan_schedule}
use kokoro_scheduler.Domain.Schedule.{Schedule}
use kokoro_scheduler.Store.Table.{first_row, select_where, first_row-All}
use kokoro_scheduler.Store.Rows.{ResultCode, Db, ScheduleRow, CommandResult}
use kokoro_scheduler.Service.Command.{answered}
use kokoro_scheduler.Store.Commands.{get_schedule, is_named}

-- A row is the one that its tenant and its name select: the key is unique.
abbrev pub HasUniqueNames : List ScheduleRow → Type 0
HasUniqueNames rows =
    All (λ row. first_row (select_where (is_named row.tenant_id row.name) rows) ≡ some row) rows

-- What is found by its name is a row of the table.
pub get_schedule-row :
    (P : ScheduleRow → Type 0) (tenant_id name : Text) (db : Db) {current : Schedule}
    → All P db.schedules
    → get_schedule tenant_id name db ≡ ok current
    → (row : ScheduleRow) × P row
      × (first_row (select_where (is_named tenant_id name) db.schedules) ≡ some row)
      × (is_named tenant_id name row ≡ true)
      × (scan_schedule row ≡ current)
unfolding get_schedule
get_schedule-row P tenant_id name db v h =
    let found = first_row (select_where (is_named tenant_id name) db.schedules) in
    elim (Option-cases found) [
      | inl e ↦ cc (rw e at h)
      | inr (row, e) ↦
          let (own, hit) = first_row-All P (is_named tenant_id name) db.schedules v e in
          (row, own, e, hit, ok-injective (rw e at h))
    ]

-- An answered statement left its own database, or nothing new.
pub answered-cases :
    (codes_of : Error → Option ResultCode) (code : ResultCode) (name : Text) (db : Db)
    (run : Result (Schedule × Db)) {out : CommandResult} {db' : Db}
    → answered codes_of code name db run ≡ ok (out, db')
    → ((s : Schedule) × (run ≡ ok (s, db'))) ⊎ (db' ≡ db)
unfolding answered
answered-cases codes_of code name db (ok (s, db₁)) h =
    inl (s, ap (λ (d : Db). ok (s, d)) (ap (λ (o : CommandResult × Db). o.1) (ok-injective h)))
answered-cases codes_of code name db (err e) h = elim (Option-cases (codes_of e)) [
  | inl none_ ↦ cc (rw (none_, answered) at h)
  | inr (c, known) ↦
      inr (sym (ap (λ (o : CommandResult × Db). o.1) (ok-injective (rw (known, answered) at h))))
]

pub and_false : (a : Bool) {b : Bool} → (a && not b) ≡ true → b ≡ false
and_false a h = ground arith

-- What has the same name is the same row.
pub same_named :
    (tenant_id name : Text) (row : ScheduleRow) (rows : List ScheduleRow)
    → HasUniqueNames rows
    → first_row (select_where (is_named tenant_id name) rows) ≡ some row
    → is_named tenant_id name row ≡ true
    → All (λ x. is_named row.tenant_id row.name x ≡ true → x ≡ row) rows
same_named tenant_id name row rows unique first named =
    let e = text_eq→eq row.tenant_id tenant_id (ground arith) in
    let e' = text_eq→eq row.name name (ground arith) in
    All-mono
      (λ (x : ScheduleRow). first_row (select_where (is_named x.tenant_id x.name) rows) ≡ some x) _
      (λ x found hit.
        let d = text_eq→eq x.tenant_id row.tenant_id (ground arith) in
        let d' = text_eq→eq x.name row.name (ground arith) in
        let found' =
          subst (λ (t : Text). first_row (select_where (is_named t x.name) rows) ≡ some x) (d ∙ e)
            found in
        let found'' =
          subst (λ (t : Text). first_row (select_where (is_named tenant_id t) rows) ≡ some x)
            (d' ∙ e') found' in
        cc (found'', first))
      rows unique
