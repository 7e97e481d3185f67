-- ===== src/Service/Kept.antt =====
-- Every schedule in the database keeps the CHECK constraints, whatever commands are executed.
use kokoro_scheduler.Base.{
  ℕ, ◌≤◌, ◌≡◌, refl, sym, subst, inl, inr, true, Option, none, some, arith, if◌then◌else◌, Text,
  Result, ok, err, All-mono, schedule_not_found, Error, All, length, >>=-eq-ok, ok-injective,
  Bool-cases,
}
use kokoro_scheduler.Service.Found.{answered-cases, get_schedule-row, and_false}
use kokoro_scheduler.Service.Timed.{replacement-IsDue, trigger_schedule-IsDue}
use kokoro_scheduler.Store.Scan.{scan_schedule, nullable_instant, scan_instant, scan_string}
use kokoro_scheduler.Domain.Schedule.{Schedule, is_exhausted, paused, active}
use kokoro_scheduler.Store.Table.{
  exists_where, update_where-All, delete_where-All, update_where-All_rows,
}
use kokoro_scheduler.Service.Ready.{IsReady}
use kokoro_scheduler.Store.Rows.{
  ResultCode, Db, ScheduleRow, CommandResult, registered, updated, not_found, exhausted_result,
  paused_result, resumed,
}
use kokoro_scheduler.Service.Command.{
  Command, answered, apply_create, apply_update, trigger_schedule, replacement, stamped,
  create_codes, update_codes, apply_delete, bare_result, apply_pause, delete_result, status_codes,
  apply_resume, resume_instant,
}
use kokoro_scheduler.Domain.Time.{Time, is_zero}
use kokoro_scheduler.Domain.Normalized.{Environment}
use kokoro_scheduler.Store.Commands.{
  get_schedule, update_schedule, create_schedule, is_named, update_returning-schedules, replace_row,
  delete_schedule, set_schedule_status, status_row, is_version, coalesce,
}
use kokoro_scheduler.Recurrence.{IsLawful, Recurrence}
use kokoro_scheduler.Service.Stored.{
  IsStored, new_schedule-IsStored, replace_row-IsStored, status_row-IsStored, IsOnTime, IsInstant,
}

module _ (env : Environment) (r : Recurrence) (lawful : IsLawful r) (uuid : ℕ → Text) (now : Time)
    (c : Command) (db : Db) (kept : All (IsStored env) db.schedules) where
  answered-IsStored :
      (codes_of : Error → Option ResultCode) (code : ResultCode) (run : Result (Schedule × Db))
      {out : CommandResult} {db' : Db}
      → ((s : Schedule) (db₁ : Db) → run ≡ ok (s, db₁) → All (IsStored env) db₁.schedules)
      → answered codes_of code c.name db run ≡ ok (out, db')
      → All (IsStored env) db'.schedules
  answered-IsStored codes_of code run ran h = elim (answered-cases codes_of code c.name db run h) [
    | inl (s, e) ↦ ran s _ e
    | inr same ↦ subst (λ (d : Db). All (IsStored env) d.schedules) (sym same) kept
  ]

  pub unchanged-IsStored :
      (result : CommandResult) {out : CommandResult} {db' : Db}
      → ◌≡◌ {A = Result (CommandResult × Db)} (ok (result, db)) (ok (out, db'))
      → All (IsStored env) db'.schedules
  unchanged-IsStored result h =
      subst (λ (o : CommandResult × Db). All (IsStored env) o.1.schedules) (ok-injective h) kept

  pub apply_create-IsStored :
      {out : CommandResult} {db' : Db}
      → IsReady env r c
      → length c.schedule.timezone ≤ 128
      → apply_create r uuid now c db ≡ ok (out, db')
      → All (IsStored env) db'.schedules
  unfolding apply_create create_schedule
  apply_create-IsStored v short h =
      let (s, triggered, rest) = >>=-eq-ok (trigger_schedule r uuid now c.schedule) _ h in
      let (due, live) =
        trigger_schedule-IsDue env r lawful now uuid c.schedule v.storable v.live short triggered in
      let final = stamped r uuid now s in
      answered-IsStored create_codes registered (create_schedule uuid final db)
        (λ s' db₁ ran.
          elim (Bool-cases (exists_where (is_named final.tenant_id final.name) db.schedules)) [
            | inl taken ↦ cc (rw taken at ran)
            | inr free ↦
                subst (λ (o : Schedule × Db). All (IsStored env) o.1.schedules)
                  (ok-injective (rw free at ran))
                  (new_schedule-IsStored env (uuid db.issued) final due live, kept)
          ])
        rest

  pub apply_update-IsStored :
      (found : Result Schedule) {out : CommandResult} {db' : Db}
      → get_schedule c.tenant_id c.name db ≡ found
      → IsReady env r c
      → length c.schedule.timezone ≤ 128
      → apply_update r uuid now c found db ≡ ok (out, db')
      → All (IsStored env) db'.schedules
  unfolding apply_update update_schedule
  apply_update-IsStored (ok current) e v short h =
      let (row, own, first, named, same) =
        get_schedule-row (IsStored env) c.tenant_id c.name db kept e in
      let (s, replaced, rest) = >>=-eq-ok (replacement r uuid now current c.schedule) _ h in
      let replaced' : replacement r uuid now (scan_schedule row) c.schedule ≡ ok s =
        rw same replaced in
      let due =
        replacement-IsDue env r lawful now uuid c.schedule row v.storable v.live short own
          replaced' in
      let final = stamped r uuid now s in
      answered-IsStored update_codes updated (update_schedule current final db)
        (λ s' db₁ ran.
          subst (All (IsStored env)) (sym (update_returning-schedules _ _ _ _ db ran)) (
            update_where-All (IsStored env) _ (replace_row final)
              (λ x hit old. replace_row-IsStored env final x due old) db.schedules kept))
        rest
  apply_update-IsStored (err schedule_not_found) e v short h =
      unchanged-IsStored (bare_result not_found c.name) h
  apply_update-IsStored (err e) found v short h = cc

  pub apply_delete-IsStored :
      {out : CommandResult} {db' : Db}
      → apply_delete r uuid now c db ≡ ok (out, db')
      → All (IsStored env) db'.schedules
  unfolding apply_delete delete_schedule delete_result
  apply_delete-IsStored h =
      elim (Bool-cases (exists_where (is_named c.tenant_id c.name) db.schedules)) [
        | inl there ↦
            subst (λ (o : CommandResult × Db). All (IsStored env) o.1.schedules)
              (ok-injective (rw (there, delete_result) at h))
              (delete_where-All (IsStored env) (is_named c.tenant_id c.name) db.schedules kept)
        | inr gone ↦
            unchanged-IsStored (bare_result not_found c.name) (rw (gone, delete_result) at h)
      ]

  pub apply_pause-IsStored :
      (found : Result Schedule) {out : CommandResult} {db' : Db}
      → apply_pause r uuid now c found db ≡ ok (out, db')
      → All (IsStored env) db'.schedules
  unfolding apply_pause set_schedule_status nullable_instant
  apply_pause-IsStored (ok current) h = elim (Bool-cases (is_exhausted current.status)) [
    | inl over ↦ unchanged-IsStored (bare_result exhausted_result c.name) (rw over at h)
    | inr open_ ↦
        answered-IsStored status_codes paused_result (set_schedule_status current paused 0 now db)
          (λ s' db₁ ran.
            subst (All (IsStored env)) (sym (update_returning-schedules _ _ _ _ db ran)) (
              update_where-All (IsStored env) _ (status_row paused 0 now)
                (λ x hit old.
                  status_row-IsStored env paused 0 now x refl refl
                    (and_false (is_version current.tenant_id current.name current x) hit)
                    old.triggered.on_time old)
                db.schedules kept))
          (rw open_ at h)
  ]
  apply_pause-IsStored (err schedule_not_found) h =
      unchanged-IsStored (bare_result not_found c.name) h
  apply_pause-IsStored (err e) h = cc

  -- A resumed one-time schedule is due at its instant again.
  resume-IsOnTime :
      (row : ScheduleRow) {t : Time}
      → IsStored env row
      → resume_instant r uuid now (scan_schedule row) ≡ ok t
      → IsOnTime row.run_at (coalesce (nullable_instant t) row.next_due_at)
  unfolding resume_instant scan_schedule scan_instant nullable_instant
  resume-IsOnTime row {t} v h = on_time row.run_at v.triggered.instant h
    where
      on_time :
          (run_at : Option Time)
          → IsInstant run_at
          → (if is_zero (scan_instant run_at)
              then r.next (scan_string row.schedule_rule) row.timezone now
              else ok (scan_instant run_at))
            ≡ ok t
          → IsOnTime run_at (coalesce (nullable_instant t) row.next_due_at)
      on_time none w k = tt
      on_time (some u) (later, whole) k =
          let e : u ≡ t = ok-injective (rw (whole, later) at k) in
          subst (λ (x : Time). IsOnTime (some u) (coalesce (nullable_instant x) row.next_due_at)) e
            (rw later whole)

  pub apply_resume-IsStored :
      (row : ScheduleRow) {out : CommandResult} {db' : Db}
      → IsStored env row
      → All (λ x. is_named row.tenant_id row.name x ≡ true → x ≡ row) db.schedules
      → apply_resume r uuid now c (ok (scan_schedule row)) db ≡ ok (out, db')
      → All (IsStored env) db'.schedules
  unfolding apply_resume set_schedule_status scan_schedule
  apply_resume-IsStored row own alone h = elim (Bool-cases (is_exhausted row.status)) [
    | inl over ↦ unchanged-IsStored (bare_result exhausted_result c.name) (rw over at h)
    | inr open_ ↦
        let current = scan_schedule row in
        let (t, found, rest) = >>=-eq-ok (resume_instant r uuid now current) _ (rw open_ at h) in
        let on_time = resume-IsOnTime row own found in
        answered-IsStored status_codes resumed (set_schedule_status current active t now db)
          (λ s' db₁ ran.
            subst (All (IsStored env)) (sym (update_returning-schedules _ _ _ _ db ran)) (
              update_where-All_rows (IsStored env) _ (status_row active t now) db.schedules
                (All-mono (λ (x : ScheduleRow). is_named row.tenant_id row.name x ≡ true → x ≡ row)
                  _
                  (λ x same hit old.
                    status_row-IsStored env active t now x refl refl
                      (and_false (is_version current.tenant_id current.name current x) hit)
                      (subst
                        (λ (y : ScheduleRow).
                          IsOnTime y.run_at (coalesce (nullable_instant t) y.next_due_at))
                        (sym (same (ground (arith, hit)))) on_time)
                      old)
                  db.schedules alone)
                kept))
          rest
  ]
