-- ===== src/Domain/Identity.antt =====
-- internal/domain: the identity of an occurrence (occurrence.go), and the checks of tenant
-- identifiers and schedule names (schedule.go). The hexadecimal digest and the format of an instant
-- are arguments.
use kokoro_scheduler.Domain.Time.{Time, normalize_instant}
use kokoro_scheduler.Base.{
  ℕ, Bool, true, false, ◌&&◌, ◌||◌, [], ◌∷◌, ◌++◌, ◌==◌, ltb, leb, Text, Result, fail_if, pos,
  length, invalid, bad_tenant_id, codes, take,
}
use kokoro_scheduler.Domain.Occurrence.{DispatchWork}
use kokoro_scheduler.Domain.Schedule.{MisfirePolicy, OverlapPolicy, ScheduleStatus, Schedule}

pub record OccurrenceIdentity : Type 0 where
  pub scheduled_at : Time
  pub request_id : Text
  pub idempotency_key : Text
  pub trace_id : Text

-- The zero byte between the parts of the seed.
abbrev separator : Text
separator = 0 ∷ []

module _ (hex_digest : Text → Text) (format : Time → Text) where
  unfoldable pub identity_seed : Schedule → Time → Text
  identity_seed schedule at =
      schedule.tenant_id
      ++ separator
      ++ schedule.id
      ++ separator
      ++ schedule.name
      ++ separator
      ++ format at

  unfoldable pub identity_of : Time → Text → OccurrenceIdentity
  identity_of at digest = record {
    scheduled_at = at;
    request_id = codes "sched_" ++ take 24 digest;
    idempotency_key = codes "schedule:" ++ digest;
    trace_id = take 32 digest;
  }

  -- `OccurrenceIdentity`.
  unfoldable pub occurrence_identity : Schedule → Time → OccurrenceIdentity
  occurrence_identity schedule scheduled_at =
      let at = normalize_instant scheduled_at in
      identity_of at (hex_digest (identity_seed schedule at))

-- `ScheduleSnapshot`: the fields that it leaves out are zero, `other []` for an empty string.
unfoldable pub schedule_snapshot : DispatchWork → Schedule
schedule_snapshot work = record {
  id = work.schedule_id;
  tenant_id = work.tenant_id;
  name = work.schedule_name;
  rule = [];
  run_at = 0;
  timezone = [];
  target_url = work.target_url;
  method = work.method;
  payload = work.payload;
  retry = work.retry;
  misfire_policy = MisfirePolicy.other [];
  catch_up_limit = pos 0;
  overlap_policy = OverlapPolicy.other [];
  status = ScheduleStatus.other [];
  next_due_at = 0;
  version = 0;
  created_at = 0;
  updated_at = 0;
  claim_owner = [];
  claim_expires_at = 0;
}

-- A control character of ASCII, as a byte; no byte of a longer UTF-8 sequence is one.
abbrev pub is_control : ℕ → Bool
is_control c = ltb c 32 || c == 127

unfoldable pub has_control : Text → Bool
has_control [] = false
has_control (c ∷ s) = is_control c || has_control s

-- `ValidateTenantID`.
unfoldable pub validate_tenant_id : Text → Result (Unit {0})
validate_tenant_id tenant_id =
    fail_if (length tenant_id == 0 || ltb 128 (length tenant_id) || has_control tenant_id)
      (invalid bad_tenant_id)

abbrev pub is_name_start : ℕ → Bool
is_name_start c = (leb b'a' c && leb c b'z') || (leb b'0' c && leb c b'9')

abbrev pub is_name_byte : ℕ → Bool
is_name_byte c = is_name_start c || c == b'.' || c == b'_' || c == b'-'

unfoldable pub are_name_bytes : Text → Bool
are_name_bytes [] = true
are_name_bytes (c ∷ s) = is_name_byte c && are_name_bytes s

-- `IsValidScheduleName`, the pattern `^[a-z0-9][a-z0-9._-]{0,63}$`.
unfoldable pub is_valid_name : Text → Bool
is_valid_name [] = false
is_valid_name (c ∷ s) = is_name_start c && leb (length s) 63 && are_name_bytes s
