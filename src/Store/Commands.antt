-- ===== src/Store/Commands.antt =====
-- internal/adapters/postgres/commands.go: the statements behind the commands. The advisory lock of
-- `LockCommandIdentity` makes the transactions of one identity take turns, which a transaction here,
-- a function on the whole database, does anyway; a stored result is read back as it was written.
use kokoro_scheduler.Base.{
  ◌≡◌, sym, ap, ok-injective, ℕ, suc, ◌+◌, Bool, not, ◌&&◌, Option, none, some, ◌∷◌, if◌then◌else◌,
  ◌==◌, Text, Result, ok, err, text_eq, Error, external, codes, schedule_not_found,
  schedule_changed, schedule_already_exists, schedule_exhausted,
}
use kokoro_scheduler.Store.Scan.{nullable_instant, nullable_string, scan_schedule}
use kokoro_scheduler.Domain.Schedule.{ScheduleStatus, Schedule, is_exhausted}
use kokoro_scheduler.Store.Table.{first_row, select_where, exists_where, delete_where, update_where}
use kokoro_scheduler.Store.Rows.{Tx, ScheduleRow, CommandReceipt, Db}
use kokoro_scheduler.Domain.Time.{Time, normalize_instant}

abbrev pub is_receipt : Text → Text → Text → CommandReceipt → Bool
is_receipt tenant_id scope key receipt =
    text_eq receipt.tenant_id tenant_id
    && text_eq receipt.command_scope scope
    && text_eq receipt.idempotency_key key

unfoldable pub scan_receipt : CommandReceipt → CommandReceipt
scan_receipt receipt = record receipt { created_at = normalize_instant receipt.created_at }

abbrev pub scan_found : Option CommandReceipt → Option CommandReceipt
scan_found none = none
scan_found (some receipt) = some (scan_receipt receipt)

unfoldable pub find_command_receipt : Text → Text → Text → Db → Option CommandReceipt
find_command_receipt tenant_id scope key db =
    scan_found (first_row (select_where (is_receipt tenant_id scope key) db.receipts))

-- The unique constraint on the identity refuses a second receipt.
unfoldable pub insert_command_receipt : CommandReceipt → Tx (Unit {0})
insert_command_receipt receipt db =
    if exists_where (is_receipt receipt.tenant_id receipt.command_scope receipt.idempotency_key)
      db.receipts
    then err (external (codes "unique violation"))
    else ok (tt, record db { receipts = receipt ∷ db.receipts })

abbrev pub is_named : Text → Text → ScheduleRow → Bool
is_named tenant_id name row = text_eq row.tenant_id tenant_id && text_eq row.name name

abbrev pub found_schedule : Option ScheduleRow → Result Schedule
found_schedule none = err schedule_not_found
found_schedule (some row) = ok (scan_schedule row)

-- `GetSchedule`.
unfoldable pub get_schedule : Text → Text → Db → Result Schedule
get_schedule tenant_id name db =
    found_schedule (first_row (select_where (is_named tenant_id name) db.schedules))

unfoldable pub new_schedule : Text → Schedule → ScheduleRow
new_schedule id s = record {
  id = id;
  tenant_id = s.tenant_id;
  name = s.name;
  schedule_rule = nullable_string s.rule;
  run_at = nullable_instant s.run_at;
  timezone = s.timezone;
  target_url = s.target_url;
  target_method = s.method;
  payload = s.payload;
  status = s.status;
  misfire_policy = s.misfire_policy;
  catch_up_limit = s.catch_up_limit;
  overlap_policy = s.overlap_policy;
  retry = s.retry;
  next_due_at = some s.next_due_at;
  claim_owner = none;
  claim_expires_at = none;
  version = 1;
  created_at = s.created_at;
  updated_at = s.created_at;
}

-- `CreateSchedule`: `ON CONFLICT … DO NOTHING` on the tenant and the name.
unfoldable pub create_schedule : (ℕ → Text) → Schedule → Tx Schedule
create_schedule uuid s db =
    if exists_where (is_named s.tenant_id s.name) db.schedules
    then err schedule_already_exists
    else (let row = new_schedule (uuid db.issued) s in
        ok
          (scan_schedule row, record db { schedules = row ∷ db.schedules; issued = suc db.issued }))

-- The optimistic lock: the row that was read, at the version that was read.
abbrev pub is_version : Text → Text → Schedule → ScheduleRow → Bool
is_version tenant_id name current row =
    is_named tenant_id name row && text_eq row.id current.id && row.version == current.version

unfoldable pub replace_row : Schedule → ScheduleRow → ScheduleRow
replace_row s row = record row {
  schedule_rule = nullable_string s.rule;
  timezone = s.timezone;
  target_url = s.target_url;
  target_method = s.method;
  payload = s.payload;
  status = s.status;
  misfire_policy = s.misfire_policy;
  catch_up_limit = s.catch_up_limit;
  overlap_policy = s.overlap_policy;
  retry = s.retry;
  next_due_at = nullable_instant s.next_due_at;
  claim_owner = none;
  claim_expires_at = none;
  version = row.version + 1;
  updated_at = s.updated_at;
  run_at = nullable_instant s.run_at;
}

-- What a statement that matched no row reports: the row is gone, or `changed` tells why it differs.
abbrev pub missed_row : Result Schedule → (Schedule → Error) → Error
missed_row (err e) changed_error = e
missed_row (ok latest) changed_error = changed_error latest

-- `UPDATE … RETURNING` of the one row that is meant, or the error of a miss.
unfoldable pub update_returning :
    (ScheduleRow → Bool) → (ScheduleRow → ScheduleRow) → Error → Option ScheduleRow → Tx Schedule
update_returning p f missed none db = err missed
update_returning p f missed (some row) db =
    ok (scan_schedule (f row), record db { schedules = update_where p f db.schedules })

-- `UpdateSchedule`.
unfoldable pub update_schedule : Schedule → Schedule → Tx Schedule
update_schedule current replacement db =
    let p = is_version replacement.tenant_id replacement.name current in
    update_returning p (replace_row replacement)
      (missed_row (get_schedule current.tenant_id current.name db) (λ latest. schedule_changed))
      (first_row (select_where p db.schedules)) db

-- `DeleteSchedule`.
unfoldable pub delete_schedule : Text → Text → Tx (Unit {0})
delete_schedule tenant_id name db =
    if exists_where (is_named tenant_id name) db.schedules
    then ok (tt, record db { schedules = delete_where (is_named tenant_id name) db.schedules })
    else err schedule_not_found

-- `COALESCE($4, next_due_at)`.
abbrev pub coalesce : Option Time → Option Time → Option Time
coalesce none old = old
coalesce (some t) old = some t

unfoldable pub status_row : ScheduleStatus → Time → Time → ScheduleRow → ScheduleRow
status_row status_ next_due_at now row = record row {
  status = status_;
  next_due_at = coalesce (nullable_instant next_due_at) row.next_due_at;
  claim_owner = none;
  claim_expires_at = none;
  version = row.version + 1;
  updated_at = now;
}

abbrev pub exhausted_or_changed : Schedule → Error
exhausted_or_changed latest =
    if is_exhausted latest.status then schedule_exhausted else schedule_changed

-- `SetScheduleStatus`.
unfoldable pub set_schedule_status : Schedule → ScheduleStatus → Time → Time → Tx Schedule
set_schedule_status current status_ next_due_at now db =
    let p = λ (row : ScheduleRow).
      is_version current.tenant_id current.name current row && not (is_exhausted row.status) in
    update_returning p (status_row status_ next_due_at now)
      (missed_row (get_schedule current.tenant_id current.name db) exhausted_or_changed)
      (first_row (select_where p db.schedules)) db

-- An update of one row is an update of the table.
pub update_returning-schedules :
    (p : ScheduleRow → Bool) (f : ScheduleRow → ScheduleRow) (missed : Error)
    (found : Option ScheduleRow) (db : Db) {s : Schedule} {db' : Db}
    → update_returning p f missed found db ≡ ok (s, db')
    → db'.schedules ≡ update_where p f db.schedules
unfolding update_returning
update_returning-schedules p f missed none db h = cc
update_returning-schedules p f missed (some row) db h =
    sym (ap (λ (r : Schedule × Db). r.1.schedules) (ok-injective h))
