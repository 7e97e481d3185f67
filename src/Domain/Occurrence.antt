-- ===== src/Domain/Occurrence.antt =====
-- internal/domain/occurrence.go: planned occurrences, dispatch work and dispatch results.
use kokoro_scheduler.Base.{
  ℕ, Bool, ◌||◌, ◌&&◌, true, false, not, ltb, leb, ◌==◌, Option, none, some, if◌then◌else◌, Text,
}
use kokoro_scheduler.Domain.Time.{Time, Duration}
use kokoro_scheduler.Domain.Retry.{RetryPolicy}
use kokoro_scheduler.Domain.Schedule.{Method}

-- The occurrence and outbox statuses; an outbox row is never `skipped`.
pub data OccurrenceStatus : Type 0 where
  pending dispatching retrying succeeded failed skipped : OccurrenceStatus

-- The outcome codes of the source; `""` is `no_code`, and `other` any other text.
pub data Code : Type 0 where
  no_code : Code
  target_unavailable target_timeout target_rejected target_permanent cancelled : Code
  coordination_unavailable coordination_contended dispatch_recovery_exhausted : Code
  misfire_skipped misfire_bound_exceeded overlap_blocked retry_jitter_unavailable : Code
  other : Text → Code

pub record OccurrencePlan : Type 0 where
  pub scheduled_at : Time
  pub observed_at : Time
  pub status : OccurrenceStatus
  pub outcome_code : Code
  pub missed_count : ℕ
  pub dispatch : Bool

pub record DispatchWork : Type 0 where
  pub id : Text
  pub tenant_id : Text
  pub occurrence_id : Text
  pub schedule_id : Text
  pub schedule_name : Text
  pub scheduled_at : Time
  pub target_url : Text
  pub method : Method
  pub payload : Text
  pub status : OccurrenceStatus
  pub attempt_count : ℕ
  pub retry : RetryPolicy
  pub next_attempt_at : Time
  pub first_attempt_at : Time
  pub created_at : Time

-- `Err` is its message: nothing else of it is read. `Status` is 0 where there was no response.
pub record DispatchResult : Type 0 where
  pub status : ℕ
  pub error : Option Text
  pub code : Code
  pub request_id : Text
  pub idempotency_key : Text
  pub trace_id : Text
  pub duration : Duration

abbrev pub has_error : DispatchResult → Bool
has_error r = elim r.error [ none ↦ false | some e ↦ true ]

-- `DispatchResult.Succeeded`.
unfoldable pub has_succeeded : DispatchResult → Bool
has_succeeded r = not (has_error r) && leb 200 r.status && ltb r.status 300

abbrev pub is_final_code : Code → Bool
is_final_code target_rejected = true
is_final_code target_permanent = true
is_final_code cancelled = true
is_final_code _ = false

abbrev pub is_transient_code : Code → Bool
is_transient_code target_unavailable = true
is_transient_code target_timeout = true
is_transient_code _ = false

abbrev pub is_no_code : Code → Bool
is_no_code no_code = true
is_no_code _ = false

-- `RetryableDispatch`.
unfoldable pub is_retryable : DispatchResult → Bool
is_retryable r =
    if is_final_code r.code
    then false
    else if r.status == 408 || r.status == 425 || r.status == 429 || leb 500 r.status
    then true
    else if has_error r && is_transient_code r.code
    then true
    else r.status == 0 && has_error r && is_no_code r.code
