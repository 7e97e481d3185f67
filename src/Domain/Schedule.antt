-- ===== src/Domain/Schedule.antt =====
-- internal/domain/schedule.go: the `Schedule` value. A string type of the source is a data type
-- with its constants and `other` for any other text.
use kokoro_scheduler.Base.{ℕ, ℤ, Text, Bool, true, false}
use kokoro_scheduler.Domain.Time.{Time}
use kokoro_scheduler.Domain.Retry.{RetryPolicy}

pub data Method : Type 0 where
  post put : Method
  other : Text → Method

pub data MisfirePolicy : Type 0 where
  skip fire_once catch_up_bounded : MisfirePolicy
  other : Text → MisfirePolicy

pub data OverlapPolicy : Type 0 where
  allow forbid : OverlapPolicy
  other : Text → OverlapPolicy

pub data ScheduleStatus : Type 0 where
  active paused exhausted : ScheduleStatus
  other : Text → ScheduleStatus

abbrev pub is_forbid : OverlapPolicy → Bool
is_forbid forbid = true
is_forbid allow = false
is_forbid (OverlapPolicy.other t) = false

abbrev pub is_active : ScheduleStatus → Bool
is_active active = true
is_active paused = false
is_active exhausted = false
is_active (ScheduleStatus.other t) = false

abbrev pub is_exhausted : ScheduleStatus → Bool
is_exhausted exhausted = true
is_exhausted active = false
is_exhausted paused = false
is_exhausted (ScheduleStatus.other t) = false

pub record Schedule : Type 0 where
  pub id : Text
  pub tenant_id : Text
  pub name : Text
  pub rule : Text
  pub run_at : Time
  pub timezone : Text
  pub target_url : Text
  pub method : Method
  pub payload : Text
  pub retry : RetryPolicy
  pub misfire_policy : MisfirePolicy
  pub catch_up_limit : ℤ
  pub overlap_policy : OverlapPolicy
  pub status : ScheduleStatus
  pub next_due_at : Time
  pub version : ℕ
  pub created_at : Time
  pub updated_at : Time
  pub claim_owner : Text
  pub claim_expires_at : Time
