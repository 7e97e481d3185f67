-- ===== src/Store/Scan.antt =====
-- internal/adapters/postgres/scan.go: NULL columns are read as Go's zero values, and back.
use kokoro_scheduler.Domain.Schedule.{Schedule}
use kokoro_scheduler.Domain.Occurrence.{DispatchWork, Code, no_code}
use kokoro_scheduler.Domain.Time.{Time, is_zero, normalize_instant}
use kokoro_scheduler.Store.Rows.{ScheduleRow, OutboxRow}
use kokoro_scheduler.Base.{
  ℕ, ◌≡◌, refl, Option, none, some, [], ◌∷◌, arith, if◌then◌else◌, ◌==◌, Text,
}

unfoldable pub nullable_string : Text → Option Text
nullable_string [] = none
nullable_string (c ∷ s) = some (c ∷ s)

unfoldable pub nullable_code : Code → Option Code
nullable_code no_code = none
nullable_code c = some c

unfoldable pub nullable_status : ℕ → Option ℕ
nullable_status status = if status == 0 then none else some status

unfoldable pub nullable_instant : Time → Option Time
nullable_instant value = if is_zero value then none else some (normalize_instant value)

-- A NULL instant is the zero time.
unfoldable pub scan_instant : Option Time → Time
scan_instant none = 0
scan_instant (some t) = normalize_instant t

unfoldable pub scan_string : Option Text → Text
scan_string none = []
scan_string (some s) = s

unfoldable pub scan_schedule : ScheduleRow → Schedule
unfolding scan_instant scan_string
scan_schedule row = record {
  id = row.id;
  tenant_id = row.tenant_id;
  name = row.name;
  rule = scan_string row.schedule_rule;
  run_at = scan_instant row.run_at;
  timezone = row.timezone;
  target_url = row.target_url;
  method = row.target_method;
  payload = row.payload;
  retry = row.retry;
  misfire_policy = row.misfire_policy;
  catch_up_limit = row.catch_up_limit;
  overlap_policy = row.overlap_policy;
  status = row.status;
  next_due_at = normalize_instant (scan_instant row.next_due_at);
  version = row.version;
  created_at = normalize_instant row.created_at;
  updated_at = normalize_instant row.updated_at;
  claim_owner = scan_string row.claim_owner;
  claim_expires_at = scan_instant row.claim_expires_at;
}

unfoldable pub scan_dispatch : OutboxRow → DispatchWork
unfolding scan_instant
scan_dispatch row = record {
  id = row.id;
  tenant_id = row.tenant_id;
  occurrence_id = row.occurrence_id;
  schedule_id = row.schedule_id;
  schedule_name = row.schedule_name;
  scheduled_at = normalize_instant row.scheduled_at;
  target_url = row.target_url;
  method = row.target_method;
  payload = row.payload;
  status = row.status;
  attempt_count = row.attempt_count;
  retry = row.retry;
  next_attempt_at = normalize_instant row.next_attempt_at;
  first_attempt_at = scan_instant row.first_attempt_at;
  created_at = normalize_instant row.created_at;
}

-- An instant that is stored and read back is normalised.
pub scan-nullable_instant : (t : Time) → scan_instant (nullable_instant t) ≡ normalize_instant t
unfolding scan_instant nullable_instant normalize_instant
scan-nullable_instant t = ground arith

pub scan-nullable_string : (s : Text) → scan_string (nullable_string s) ≡ s
unfolding scan_string nullable_string
scan-nullable_string [] = refl
scan-nullable_string (c ∷ s) = refl
