-- ===== src/Service/Sound.antt =====
-- What `Execute` leaves in the database, on every outcome.
use kokoro_scheduler.Base.{
  ℕ, ◌≤◌, ◌≡◌, refl, sym, ap, subst, inl, inr, not, Option, none, some, Text, Result, ok, err,
  fail_if, ok-injective, All, map_error, join, invalid_command, length, Bool-cases, text_eq,
  schedule_not_found, >>=-eq-ok,
}
use kokoro_scheduler.Store.Scan.{scan_schedule}
use kokoro_scheduler.Domain.Schedule.{Schedule, is_exhausted}
use kokoro_scheduler.Store.Table.{exists_where}
use kokoro_scheduler.Store.Commands.{
  insert_command_receipt, get_schedule, find_command_receipt, is_receipt,
}
use kokoro_scheduler.Service.Ready.{HasInstants, IsPrepared, prepare-IsPrepared}
use kokoro_scheduler.Store.Rows.{Db, CommandResult, CommandReceipt, not_found, within_tx-keeps}
use kokoro_scheduler.Domain.Time.{Time, normalize_instant}
use kokoro_scheduler.Service.Command.{
  Command, CommandOperation, execute_found, apply_operation, apply_resume, create, apply, execute,
  update, delete, execute_tx, pause, resume, new_receipt, bare_result,
}
use kokoro_scheduler.Service.Prepare.{
  execute_command, prepare, trimmed, prepare_operation, check_command, prepare_schedule,
  run_prepared, check_recurring,
}
use kokoro_scheduler.Domain.Normalized.{Environment, normalized}
use kokoro_scheduler.Recurrence.{Recurrence, IsLawful}
use kokoro_scheduler.Service.Found.{HasUniqueNames, get_schedule-row, same_named}
use kokoro_scheduler.Service.Kept.{
  apply_create-IsStored, apply_update-IsStored, apply_delete-IsStored, apply_pause-IsStored,
  apply_resume-IsStored, unchanged-IsStored,
}
use kokoro_scheduler.Service.Stored.{IsStored}
use kokoro_scheduler.Json

module _ (env : Environment) (r : Recurrence) (lawful : IsLawful r) (uuid : ℕ → Text) (db : Db)
    (kept : All (IsStored env) db.schedules) (unique : HasUniqueNames db.schedules) where
  resume_found-IsStored :
      (now : Time) (c : Command) (found : Result Schedule) {out : CommandResult} {db' : Db}
      → get_schedule c.tenant_id c.name db ≡ found
      → apply_resume r uuid now c found db ≡ ok (out, db')
      → All (IsStored env) db'.schedules
  unfolding apply_resume
  resume_found-IsStored now c (ok current) {out} {db'} e h =
      let (row, own, first, named, same) =
        get_schedule-row (IsStored env) c.tenant_id c.name db kept e in
      let h' : apply_resume r uuid now c (ok (scan_schedule row)) db ≡ ok (out, db') =
        subst (λ (s : Schedule). apply_resume r uuid now c (ok s) db ≡ ok (out, db')) (sym same)
          h in
      apply_resume-IsStored env r lawful uuid now c db kept row own
        (same_named c.tenant_id c.name row db.schedules unique first named) h'
  resume_found-IsStored now c (err schedule_not_found) e h =
      unchanged-IsStored env r lawful uuid now c db kept (bare_result not_found c.name) h
  resume_found-IsStored now c (err x) e h = cc

  apply_operation-IsStored :
      (now : Time) (operation : CommandOperation) (c : Command) {out : CommandResult} {db' : Db}
      → IsPrepared env r operation c
      → length c.schedule.timezone ≤ 128
      → apply_operation r uuid now operation c db ≡ ok (out, db')
      → All (IsStored env) db'.schedules
  unfolding apply_operation
  apply_operation-IsStored now create c v short h =
      apply_create-IsStored env r lawful uuid now c db kept v short h
  apply_operation-IsStored now update c v short h =
      apply_update-IsStored env r lawful uuid now c db kept (get_schedule c.tenant_id c.name db)
        refl v short h
  apply_operation-IsStored now delete c v short h =
      apply_delete-IsStored env r lawful uuid now c db kept h
  apply_operation-IsStored now pause c v short h =
      apply_pause-IsStored env r lawful uuid now c db kept (get_schedule c.tenant_id c.name db) h
  apply_operation-IsStored now resume c v short h =
      resume_found-IsStored now c (get_schedule c.tenant_id c.name db) refl h
  apply_operation-IsStored now (CommandOperation.other t) c v short h = cc

  execute_found-IsStored :
      (applied_at received_at : Time) (c : Command) (found : Option CommandReceipt)
      {receipt : CommandReceipt} {db' : Db}
      → IsPrepared env r c.operation c
      → length c.schedule.timezone ≤ 128
      → execute_found r uuid applied_at received_at c found db ≡ ok (receipt, db')
      → All (IsStored env) db'.schedules
  unfolding execute_found apply insert_command_receipt
  execute_found-IsStored applied_at received_at c (some prior) v short h =
      elim (Bool-cases (not (text_eq prior.request_digest c.request_digest))) [
        | inl differs ↦ cc (rw differs at h)
        | inr same ↦
            subst (λ (o : CommandReceipt × Db). All (IsStored env) o.1.schedules)
              (ok-injective (rw same at h)) kept
      ]
  execute_found-IsStored applied_at received_at c none v short h =
      let (out, applied, rest) = >>=-eq-ok (apply r uuid applied_at received_at c db) _ h in
      let stored =
        apply_operation-IsStored (normalize_instant applied_at) c.operation c v short applied in
      let receipt = new_receipt c (normalize_instant received_at) out.0 in
      let (done, inserted, final) = >>=-eq-ok (insert_command_receipt receipt out.1) _ rest in
      elim (Bool-cases (
        exists_where (is_receipt receipt.tenant_id receipt.command_scope receipt.idempotency_key)
          out.1.receipts)) [
            | inl taken ↦ cc (rw taken at inserted)
            | inr free ↦
                subst (λ (o : CommandReceipt × Db). All (IsStored env) o.1.schedules)
                  (ok-injective final)
                  (subst (λ (o : Unit {0} × Db). All (IsStored env) o.1.schedules)
                    (ok-injective (rw free at inserted)) stored)
          ]

  run_prepared-IsStored :
      (applied_at received_at : Time) (prepared : Result Command)
      → ((c : Command)
          → prepared ≡ ok c
          → IsPrepared env r c.operation c × (length c.schedule.timezone ≤ 128))
      → All (IsStored env) (run_prepared r uuid applied_at received_at prepared db).1.schedules
  unfolding run_prepared execute execute_tx
  run_prepared-IsStored applied_at received_at (err e) v = kept
  run_prepared-IsStored applied_at received_at (ok c) v =
      within_tx-keeps (λ (d : Db). All (IsStored env) d.schedules)
        (execute_tx r uuid applied_at received_at c) db kept
        (λ receipt db' done.
          execute_found-IsStored applied_at received_at c
            (find_command_receipt c.tenant_id c.command_scope c.idempotency_key db) (v c refl).0
            (v c refl).1 done)

prepare_schedule-operation :
    (env : Environment) (r : Recurrence) (d : Command) {c : Command}
    → prepare_schedule env r d ≡ ok c
    → d.operation ≡ c.operation
unfolding prepare_schedule
prepare_schedule-operation env r d h =
    let owned = record d.schedule { tenant_id = d.tenant_id; name = d.name } in
    let (s, made, rest) = >>=-eq-ok (map_error (join invalid_command) (normalized env owned)) _ h in
    let (u, live, rest') = >>=-eq-ok (fail_if (is_exhausted s.status) invalid_command) _ rest in
    let (u', accepted, last) = >>=-eq-ok (check_recurring env r s) _ rest' in
    ap (λ (x : Command). x.operation) (ok-injective last)

prepare_operation-operation :
    (env : Environment) (r : Recurrence) (operation : CommandOperation) (d : Command) {c : Command}
    → prepare_operation env r operation d ≡ ok c
    → d.operation ≡ c.operation
unfolding prepare_operation
prepare_operation-operation env r create d h = prepare_schedule-operation env r d h
prepare_operation-operation env r update d h = prepare_schedule-operation env r d h
prepare_operation-operation env r delete d h = ap (λ (x : Command). x.operation) (ok-injective h)
prepare_operation-operation env r pause d h = ap (λ (x : Command). x.operation) (ok-injective h)
prepare_operation-operation env r resume d h = ap (λ (x : Command). x.operation) (ok-injective h)
prepare_operation-operation env r (CommandOperation.other t) d h = cc

prepare-operation :
    (env : Environment) (r : Recurrence) (command : Command) {c : Command}
    → prepare env r command ≡ ok c
    → command.operation ≡ c.operation
unfolding prepare trimmed
prepare-operation env r command {c} h =
    let (u, checked, rest) = >>=-eq-ok (check_command env r (trimmed command)) _ h in
    prepare_operation-operation env r command.operation (trimmed command) rest

-- Executing a command, whatever it answers, keeps every row within the CHECK constraints of
-- scheduler_schedule, its one-time instant in whole milliseconds and not the zero time. A prepared schedule's time zone has at most 128 characters, tenant and name are a unique key,
-- the JSON codec and the recurrence keep their laws, and the instants of the command are zero or at
-- least a millisecond.
pub execute_command-IsStored :
    (env : Environment) (r : Recurrence) (uuid : ℕ → Text) (applied_at received_at : Time)
    (command : Command) (db : Db)
    → Json.IsLawful env.codec
    → IsLawful r
    → HasInstants command.schedule
    → ((c : Command) → prepare env r command ≡ ok c → length c.schedule.timezone ≤ 128)
    → HasUniqueNames db.schedules
    → All (IsStored env) db.schedules
    → All (IsStored env) (execute_command r uuid applied_at received_at env command db).1.schedules
unfolding execute_command
execute_command-IsStored env r uuid applied_at received_at command db codec lawful instants short
      unique kept =
    run_prepared-IsStored env r lawful uuid db kept unique applied_at received_at
      (prepare env r command)
      (λ c prepared. (
        subst (λ (o : CommandOperation). IsPrepared env r o c)
            (prepare-operation env r command prepared)
            (prepare-IsPrepared env r command codec instants prepared),
        short c prepared,
      ))
