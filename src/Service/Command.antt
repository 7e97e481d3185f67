-- ===== src/Service/Command.antt =====
-- internal/application/commands.go: `Command`, `Service.apply` and `Service.Execute`. `prepare` is the
-- argument `prepared`: a command that it returned.
use kokoro_scheduler.Base.{
  schedule_already_exists, schedule_not_found, schedule_changed, schedule_exhausted, ℕ, not, ◌&&◌,
  Option, none, some, if◌then◌else◌, ◌==◌, Text, Result, ok, err, ◌>>=◌, Error, text_eq,
  idempotency_conflict, invalid_command, map_error, join,
}
use kokoro_scheduler.Domain.Schedule.{exhausted, paused, active, Schedule, is_exhausted}
use kokoro_scheduler.Store.Rows.{
  already_exists, not_found, changed, exhausted_result, ResultCode, CommandResult, Tx, Db, updated,
  CommandReceipt, registered, paused_result, resumed, within_tx, deleted,
}
use kokoro_scheduler.Store.Commands.{
  delete_schedule, update_schedule, insert_command_receipt, set_schedule_status, get_schedule,
  create_schedule, find_command_receipt,
}
use kokoro_scheduler.Domain.Time.{Time, is_zero, after, normalize_instant}
use kokoro_scheduler.Recurrence.{Recurrence}

pub data CommandOperation : Type 0 where
  create update delete pause resume : CommandOperation
  other : Text → CommandOperation

pub record Command : Type 0 where
  pub operation : CommandOperation
  pub tenant_id : Text
  pub name : Text
  pub command_scope : Text
  pub idempotency_key : Text
  pub request_digest : Text
  pub request_id : Text
  pub schedule : Schedule

abbrev pub bare_result : ResultCode → Text → CommandResult
bare_result code name = record { code = code; name = name; schedule = none }

-- `scheduleResult` on success.
abbrev pub schedule_result : ResultCode → Schedule → CommandResult
schedule_result code s = record { code = code; name = s.name; schedule = some s }

-- The store's domain errors are answers, with the database as it was; others fail the transaction.
unfoldable pub answered :
    (Error → Option ResultCode)
    → ResultCode
    → Text
    → Db
    → Result (Schedule × Db)
    → Result (CommandResult × Db)
answered codes_of code name db (ok (s, db')) = ok (schedule_result code s, db')
answered codes_of code name db (err e) = elim (codes_of e) [
  | none ↦ err e
  | some c ↦ ok (bare_result c name, db)
]

abbrev pub create_codes : Error → Option ResultCode
create_codes schedule_already_exists = some already_exists
create_codes _ = none

abbrev pub update_codes : Error → Option ResultCode
update_codes schedule_not_found = some not_found
update_codes schedule_changed = some changed
update_codes _ = none

abbrev pub status_codes : Error → Option ResultCode
status_codes schedule_not_found = some not_found
status_codes schedule_exhausted = some exhausted_result
status_codes schedule_changed = some changed
status_codes _ = none

unfoldable pub delete_result : Text → Db → Result (Unit {0} × Db) → Result (CommandResult × Db)
delete_result name db (ok (u, db')) = ok (bare_result deleted name, db')
delete_result name db (err schedule_not_found) = ok (bare_result not_found name, db)
delete_result name db (err e) = err e

module _ (r : Recurrence) (uuid : ℕ → Text) (now : Time) where
  -- The next due instant of a created or replaced schedule.
  unfoldable pub trigger_schedule : Schedule → Result Schedule
  trigger_schedule s =
      if not (is_zero s.run_at)
      then (if not (after s.run_at now)
          then err invalid_command
          else ok (record s { next_due_at = s.run_at }))
      else (map_error (join invalid_command) (r.next s.rule s.timezone now) >>= λ t.
          ok (record s { next_due_at = t }))

  abbrev pub stamped : Schedule → Schedule
  stamped s = record s { created_at = now; updated_at = now }

  -- A replacement for the same instant keeps what became of it.
  unfoldable pub replacement : Schedule → Schedule → Result Schedule
  replacement current s =
      if not (is_zero s.run_at) && (s.run_at == current.run_at)
      then ok (record s {
        next_due_at = current.next_due_at;
        status = if is_exhausted current.status then exhausted else s.status;
      })
      else trigger_schedule s

  unfoldable pub apply_create : Command → Tx CommandResult
  apply_create c db = trigger_schedule c.schedule >>= λ s.
      answered create_codes registered c.name db (create_schedule uuid (stamped s) db)

  unfoldable pub apply_update : Command → Result Schedule → Tx CommandResult
  apply_update c (err schedule_not_found) db = ok (bare_result not_found c.name, db)
  apply_update c (err e) db = err e
  apply_update c (ok current) db = replacement current c.schedule >>= λ s.
      answered update_codes updated c.name db (update_schedule current (stamped s) db)

  unfoldable pub apply_delete : Command → Tx CommandResult
  apply_delete c db = delete_result c.name db (delete_schedule c.tenant_id c.name db)

  -- Pausing keeps the due instant: the zero instant is NULL, which `COALESCE` passes over.
  unfoldable pub resume_instant : Schedule → Result Time
  resume_instant current =
      if is_zero current.run_at then r.next current.rule current.timezone now else ok current.run_at

  unfoldable pub apply_pause : Command → Result Schedule → Tx CommandResult
  apply_pause c (err schedule_not_found) db = ok (bare_result not_found c.name, db)
  apply_pause c (err e) db = err e
  apply_pause c (ok current) db =
      if is_exhausted current.status
      then ok (bare_result exhausted_result c.name, db)
      else answered status_codes paused_result c.name db
          (set_schedule_status current paused 0 now db)

  unfoldable pub apply_resume : Command → Result Schedule → Tx CommandResult
  apply_resume c (err schedule_not_found) db = ok (bare_result not_found c.name, db)
  apply_resume c (err e) db = err e
  apply_resume c (ok current) db =
      if is_exhausted current.status
      then ok (bare_result exhausted_result c.name, db)
      else (resume_instant current >>= λ t.
          answered status_codes resumed c.name db (set_schedule_status current active t now db))

  -- `Service.apply`.
  unfoldable pub apply_operation : CommandOperation → Command → Tx CommandResult
  apply_operation create c db = apply_create c db
  apply_operation update c db = apply_update c (get_schedule c.tenant_id c.name db) db
  apply_operation delete c db = apply_delete c db
  apply_operation pause c db = apply_pause c (get_schedule c.tenant_id c.name db) db
  apply_operation resume c db = apply_resume c (get_schedule c.tenant_id c.name db) db
  apply_operation (CommandOperation.other t) c db = err invalid_command

abbrev pub new_receipt : Command → Time → CommandResult → CommandReceipt
new_receipt c at result = record {
  tenant_id = c.tenant_id;
  command_scope = c.command_scope;
  idempotency_key = c.idempotency_key;
  request_digest = c.request_digest;
  request_id = c.request_id;
  result = result;
  created_at = at;
}

-- The clock is read once when the command is applied and once for its receipt.
module _ (r : Recurrence) (uuid : ℕ → Text) (applied_at received_at : Time) where
  unfoldable pub apply : Command → Tx CommandResult
  apply c = apply_operation r uuid (normalize_instant applied_at) c.operation c

  -- The transaction of `Execute`, once the identity was looked up.
  unfoldable pub execute_found : Command → Option CommandReceipt → Tx CommandReceipt
  execute_found c (some prior) db =
      if not (text_eq prior.request_digest c.request_digest)
      then err idempotency_conflict
      else ok (prior, db)
  execute_found c none db = apply c db >>= λ out.
      insert_command_receipt (new_receipt c (normalize_instant received_at) out.0) out.1 >>= λ done.
      ok (new_receipt c (normalize_instant received_at) out.0, done.1)

  unfoldable pub execute_tx : Command → Tx CommandReceipt
  execute_tx c db =
      execute_found c (find_command_receipt c.tenant_id c.command_scope c.idempotency_key db) db

  -- `Service.Execute` on a prepared command.
  unfoldable pub execute : Command → Db → Result CommandReceipt × Db
  execute c = within_tx (execute_tx c)
