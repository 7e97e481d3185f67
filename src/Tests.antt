-- ===== src/Tests.antt =====
-- Data of the tests and the witnesses: a schedule, its rows, and a recurrence that fires a second
-- after the instant it is asked about.
use kokoro_scheduler.Base.{
  refl, ℕ, ◌+◌, ◌-◌, ◌*◌, ◌%◌, none, some, [], ◌∷◌, ◌++◌, arith, Text, ok, pos, codes, ok-injective,
}
use kokoro_scheduler.Store.Outbox.Steps.{IsSound}
use kokoro_scheduler.Domain.Occurrence.{dispatching, DispatchWork, DispatchResult, target_timeout}
use kokoro_scheduler.Recurrence.{IsLawful, Recurrence}
use kokoro_scheduler.Domain.Time.{second, normalize_instant, millisecond}
use kokoro_scheduler.Domain.Retry.{RetryPolicy, IsValidPolicy}
use kokoro_scheduler.Store.Rows.{ScheduleRow, OccurrenceRow, Db, OutboxRow}
use kokoro_scheduler.Domain.Schedule.{
  MisfirePolicy, post, catch_up_bounded, forbid, active, Schedule,
}
mod Planner
mod Domain
mod Cron
mod Dispatcher
mod Service
mod Outbox
mod Config
mod Client
mod Http
mod Net
mod Json
mod Lease
mod Runtime
mod Prepare

abbrev pub tenant : Text
tenant = codes "tenant"

abbrev pub fire_each_second : Recurrence
fire_each_second = record {
  validate = λ rule timezone. ok tt;
  next = λ rule timezone start. ok (start - start % millisecond + second);
  next_after = λ rule timezone anchor threshold. ok (threshold - threshold % millisecond + second);
}

pub fire_each_second-IsLawful : IsLawful fire_each_second
unfolding normalize_instant
fire_each_second-IsLawful = record {
  next_later = λ rule timezone start t h. omega (arith, ok-injective h);
  next_aligned = λ rule timezone start t h. ground (arith, ok-injective h);
  next_after_later = λ rule timezone anchor threshold t a b reach h. omega (arith, ok-injective h);
  next_after_aligned = λ rule timezone anchor threshold t h. ground (arith, ok-injective h);
}

abbrev pub patient : RetryPolicy
patient = record {
  max_attempts = pos 5;
  backoff_seconds = pos 10;
  max_backoff_seconds = pos 100;
  max_retry_window_seconds = pos 3600;
}

abbrev pub report : Schedule
report = record {
  id = codes "schedule";
  tenant_id = tenant;
  name = codes "report";
  rule = codes "* * * * *";
  run_at = 0;
  timezone = codes "UTC";
  target_url = codes "https://example.org/report";
  method = post;
  payload = codes "{}";
  retry = patient;
  misfire_policy = catch_up_bounded;
  catch_up_limit = pos 2;
  overlap_policy = forbid;
  status = active;
  next_due_at = 10 * second;
  version = 1;
  created_at = second;
  updated_at = second;
  claim_owner = codes "worker";
  claim_expires_at = 60 * second;
}

-- The same report, once, at a fixed instant.
abbrev pub single_report : Schedule
single_report = record {
  id = codes "schedule";
  tenant_id = tenant;
  name = codes "report";
  rule = [];
  run_at = 10 * second;
  timezone = codes "UTC";
  target_url = codes "https://example.org/report";
  method = post;
  payload = codes "{}";
  retry = patient;
  misfire_policy = MisfirePolicy.skip;
  catch_up_limit = pos 1;
  overlap_policy = forbid;
  status = active;
  next_due_at = 10 * second;
  version = 1;
  created_at = second;
  updated_at = second;
  claim_owner = codes "worker";
  claim_expires_at = 60 * second;
}

abbrev pub claimed_row : ScheduleRow
claimed_row = record {
  id = codes "schedule";
  tenant_id = tenant;
  name = codes "report";
  schedule_rule = some (codes "* * * * *");
  run_at = none;
  timezone = codes "UTC";
  target_url = codes "https://example.org/report";
  target_method = post;
  payload = codes "{}";
  status = active;
  misfire_policy = catch_up_bounded;
  catch_up_limit = pos 2;
  overlap_policy = forbid;
  retry = patient;
  next_due_at = some (10 * second);
  claim_owner = some (codes "worker");
  claim_expires_at = some (60 * second);
  version = 1;
  created_at = second;
  updated_at = second;
}

abbrev pub empty_db : Db
empty_db = record { schedules = []; occurrences = []; outbox = []; receipts = []; issued = 0 }

abbrev pub claimed_db : Db
claimed_db = record {
  schedules = claimed_row ∷ [];
  occurrences = [];
  outbox = [];
  receipts = [];
  issued = 0;
}

abbrev pub numbered : ℕ → Text
numbered n = codes "id" ++ (b'0' + n) ∷ []

-- A dispatch in its second attempt, claimed by `worker`.
abbrev pub dispatch_row : OutboxRow
dispatch_row = record {
  id = codes "dispatch";
  tenant_id = tenant;
  occurrence_id = codes "occurrence";
  schedule_id = codes "schedule";
  schedule_name = codes "report";
  scheduled_at = 10 * second;
  target_url = codes "https://example.org/report";
  target_method = post;
  payload = codes "{}";
  status = dispatching;
  attempt_count = 2;
  retry = patient;
  next_attempt_at = 11 * second;
  first_attempt_at = some (10 * second);
  claim_owner = some (codes "worker");
  claim_expires_at = some (60 * second);
  last_http_status = none;
  last_error_code = none;
  last_error_message = none;
  created_at = 10 * second;
  updated_at = 11 * second;
  completed_at = none;
}

abbrev pub occurrence_row : OccurrenceRow
occurrence_row = record {
  id = codes "occurrence";
  tenant_id = tenant;
  schedule_id = codes "schedule";
  schedule_name = codes "report";
  scheduled_at = 10 * second;
  observed_at = 10 * second;
  status = dispatching;
  outcome_code = none;
  missed_count = 1;
  attempt_count = 2;
  last_http_status = none;
  last_error_code = none;
  last_error_message = none;
  created_at = 10 * second;
  updated_at = 11 * second;
  completed_at = none;
}

abbrev pub dispatching_db : Db
dispatching_db = record {
  schedules = claimed_row ∷ [];
  occurrences = occurrence_row ∷ [];
  outbox = dispatch_row ∷ [];
  receipts = [];
  issued = 0;
}

abbrev pub second_attempt : DispatchWork
second_attempt = record {
  id = codes "dispatch";
  tenant_id = tenant;
  occurrence_id = codes "occurrence";
  schedule_id = codes "schedule";
  schedule_name = codes "report";
  scheduled_at = 10 * second;
  target_url = codes "https://example.org/report";
  method = post;
  payload = codes "{}";
  status = dispatching;
  attempt_count = 2;
  retry = patient;
  next_attempt_at = 11 * second;
  first_attempt_at = 10 * second;
  created_at = 10 * second;
}

abbrev pub timed_out : DispatchResult
timed_out = record {
  status = 0;
  error = some (codes "timeout");
  code = target_timeout;
  request_id = [];
  idempotency_key = [];
  trace_id = [];
  duration = pos second;
}

pub patient-IsValid : IsValidPolicy patient
patient-IsValid = record {
  attempts_low = omega arith;
  attempts_high = omega arith;
  backoff_low = omega arith;
  backoff_high = omega arith;
  max_backoff_high = omega arith;
  window_low = omega arith;
  window_high = omega arith;
}

pub dispatch_row-IsSound : IsSound dispatching_db.outbox
dispatch_row-IsSound = record {
  unique = (tt, tt);
  consistent = (
    record {
      valid = patient-IsValid;
      attempts = omega arith;
      owned = refl;
      limited = refl;
      completion = refl;
      shown = refl;
    },
    tt,
  );
}
