-- ===== src/Domain/Normalized.antt =====
-- internal/domain/schedule.go: `Schedule.Validate`, `canonicalizeJSON` and `Schedule.Normalized`. The
-- time zone database and the parsers of URLs, addresses and JSON are arguments.
use kokoro_scheduler.Domain.Identity.{validate_tenant_id, is_valid_name}
use kokoro_scheduler.Net.Target.{Parsers, validate_target_url}
use kokoro_scheduler.Cron.Words.{trim_space, contains_byte}
use kokoro_scheduler.Domain.Time.{normalize_instant, is_zero}
use kokoro_scheduler.Base.{
  Bool, true, false, not, ◌&&◌, ◌||◌, Option, none, some, if◌then◌else◌, ◌==◌, ltb, Text, Result,
  ok, err, ◌>>=◌, ◌>>◌, fail_if, ℤ, pos, is_empty, eqb_ℤ, invalid, catch_up_not_one, json_syntax,
  bad_status, json_trailing, ltb_ℤ, catch_up_range, bad_misfire_policy, exhausted_not_once, length,
  once_next_due, bad_trigger, has_prefix, codes, bad_rule_prefix, bad_name, text_eq, bad_timezone,
  unknown_timezone, map_error, wrap, bad_url, bad_method, bad_payload, bad_retry_policy,
  bad_overlap_policy,
}
use kokoro_scheduler.Json.{Value, Decoded, end_of_input, malformed, decoded, Codec}
use kokoro_scheduler.Domain.Schedule.{
  Method, MisfirePolicy, OverlapPolicy, ScheduleStatus, Schedule, post, put, skip, fire_once,
  catch_up_bounded, allow, forbid, active, paused, exhausted, is_exhausted,
}
use kokoro_scheduler.Domain.Retry.{validate, with_defaults}

pub record Environment : Type 0 where
  pub parsers : Parsers
  pub codec : Codec
  -- Whether `time.LoadLocation` finds the location.
  pub has_location : Text → Bool

abbrev pub max_catch_up_occurrences : ℤ
max_catch_up_occurrences = pos 100

abbrev pub is_known_method : Method → Bool
is_known_method post = true
is_known_method put = true
is_known_method (Method.other t) = false

abbrev pub is_known_overlap : OverlapPolicy → Bool
is_known_overlap allow = true
is_known_overlap forbid = true
is_known_overlap (OverlapPolicy.other t) = false

abbrev pub is_known_status : ScheduleStatus → Bool
is_known_status active = true
is_known_status paused = true
is_known_status exhausted = true
is_known_status (ScheduleStatus.other t) = false

-- The `switch` on the misfire policy.
unfoldable pub check_misfire : MisfirePolicy → ℤ → Result (Unit {0})
check_misfire skip limit = fail_if (not (eqb_ℤ limit (pos 1))) (invalid catch_up_not_one)
check_misfire fire_once limit = fail_if (not (eqb_ℤ limit (pos 1))) (invalid catch_up_not_one)
check_misfire catch_up_bounded limit =
    fail_if (ltb_ℤ limit (pos 1) || ltb_ℤ max_catch_up_occurrences limit) (invalid catch_up_range)
check_misfire (MisfirePolicy.other t) limit = err (invalid bad_misfire_policy)

-- `(s.Rule == "") == s.RunAt.IsZero()`.
abbrev pub bool_eq : Bool → Bool → Bool
bool_eq true b = b
bool_eq false b = not b

-- The checks on the trigger: a rule or an instant, and no time zone in the rule.
unfoldable pub check_trigger : Schedule → Result (Unit {0})
check_trigger s = do
  fail_if (bool_eq (is_empty s.rule) (is_zero s.run_at) || ltb 256 (length s.rule))
      (invalid bad_trigger)
  fail_if (has_prefix (codes "TZ=") s.rule || has_prefix (codes "CRON_TZ=") s.rule)
      (invalid bad_rule_prefix)

-- The checks on the status: an exhausted schedule is a single one without a due instant or claim.
unfoldable pub check_status : Schedule → Result (Unit {0})
check_status s = do
  fail_if (not (is_known_status s.status)) (invalid bad_status)
  fail_if
      (is_exhausted s.status
        && (is_zero s.run_at
            || not (is_zero s.next_due_at)
            || not (is_empty s.claim_owner)
            || not (is_zero s.claim_expires_at)))
      (invalid exhausted_not_once)
  fail_if
      (not (is_zero s.run_at)
        && not (is_zero s.next_due_at)
        && not (normalize_instant s.run_at == normalize_instant s.next_due_at))
      (invalid once_next_due)

abbrev pub is_end : Decoded → Bool
is_end end_of_input = true
is_end malformed = false
is_end (decoded v rest) = false

abbrev pub is_object : Value → Bool
is_object (Value.object entries) = true
is_object (Value.array xs) = false
is_object (Value.string t) = false
is_object (Value.number t) = false
is_object (Value.bool b) = false
is_object Value.null = false

module _ (codec : Codec) where
  abbrev pub is_single_object : Decoded → Bool
  is_single_object end_of_input = false
  is_single_object malformed = false
  is_single_object (decoded v rest) = is_object v && is_end (codec.decode rest)

  -- `json.Unmarshal` into a map that is not nil afterwards: one object, and white space.
  unfoldable pub is_object_payload : Text → Bool
  is_object_payload raw = is_single_object (codec.decode raw)

  unfoldable pub encode : Option Text → Result Text
  encode none = err (invalid json_syntax)
  encode (some canonical) = ok canonical

  unfoldable pub finish_decoding : Value → Decoded → Result Text
  finish_decoding v end_of_input = encode (codec.marshal v)
  finish_decoding v malformed = err (invalid json_syntax)
  finish_decoding v (decoded w rest) = err (invalid json_trailing)

  unfoldable pub canonicalize_decoded : Decoded → Result Text
  canonicalize_decoded end_of_input = err (invalid json_syntax)
  canonicalize_decoded malformed = err (invalid json_syntax)
  canonicalize_decoded (decoded v rest) = finish_decoding v (codec.decode rest)

  -- `canonicalizeJSON`.
  unfoldable pub canonicalize_json : Text → Result Text
  canonicalize_json raw = canonicalize_decoded (codec.decode raw)

-- The texts of an empty string in the typed fields.
abbrev pub default_method : Method → Method
default_method post = post
default_method put = put
default_method (Method.other t) = if is_empty t then post else Method.other t

abbrev pub default_misfire : MisfirePolicy → MisfirePolicy
default_misfire skip = skip
default_misfire fire_once = fire_once
default_misfire catch_up_bounded = catch_up_bounded
default_misfire (MisfirePolicy.other t) = if is_empty t then fire_once else MisfirePolicy.other t

abbrev pub default_overlap : OverlapPolicy → OverlapPolicy
default_overlap allow = allow
default_overlap forbid = forbid
default_overlap (OverlapPolicy.other t) = if is_empty t then forbid else OverlapPolicy.other t

abbrev pub default_status : ScheduleStatus → ScheduleStatus
default_status active = active
default_status paused = paused
default_status exhausted = exhausted
default_status (ScheduleStatus.other t) = if is_empty t then active else ScheduleStatus.other t

abbrev pub text_or : Text → Text → Text
text_or s default = if is_empty s then default else s

-- The first part of `Normalized`: surrounding white space goes, empty fields take their defaults.
unfoldable pub fill_defaults : Schedule → Schedule
fill_defaults s = record s {
  tenant_id = trim_space s.tenant_id;
  name = trim_space s.name;
  rule = trim_space s.rule;
  timezone = text_or (trim_space s.timezone) (codes "UTC");
  target_url = trim_space s.target_url;
  method = default_method s.method;
  payload = text_or s.payload (codes "{}");
  retry = with_defaults s.retry;
  misfire_policy = default_misfire s.misfire_policy;
  catch_up_limit = if eqb_ℤ s.catch_up_limit (pos 0) then pos 1 else s.catch_up_limit;
  overlap_policy = default_overlap s.overlap_policy;
  status = default_status s.status;
}

-- The last part: the canonical payload, and instants in whole milliseconds.
unfoldable pub normalize_fields : Schedule → Text → Schedule
normalize_fields s canonical = record s {
  payload = canonical;
  run_at = normalize_instant s.run_at;
  next_due_at = normalize_instant s.next_due_at;
  created_at = normalize_instant s.created_at;
  updated_at = normalize_instant s.updated_at;
  claim_expires_at = normalize_instant s.claim_expires_at;
}

module _ (env : Environment) where
  -- `Schedule.Validate`.
  unfoldable pub validate_schedule : Schedule → Result (Unit {0})
  validate_schedule s = do
    validate_tenant_id s.tenant_id
    fail_if (not (is_valid_name s.name)) (invalid bad_name)
    check_trigger s
    fail_if (not (text_eq s.timezone (codes "UTC")) && not (contains_byte b'/' s.timezone))
        (invalid bad_timezone)
    fail_if (not (env.has_location s.timezone)) (invalid unknown_timezone)
    map_error (wrap bad_url) (validate_target_url env.parsers s.target_url)
    fail_if (not (is_known_method s.method)) (invalid bad_method)
    fail_if (not (is_object_payload env.codec s.payload)) (invalid bad_payload)
    map_error (wrap bad_retry_policy) (validate s.retry)
    check_misfire s.misfire_policy s.catch_up_limit
    fail_if (not (is_known_overlap s.overlap_policy)) (invalid bad_overlap_policy)
    check_status s

  -- `Schedule.Normalized`.
  unfoldable pub normalized : Schedule → Result Schedule
  normalized s =
      let filled = fill_defaults s in
      validate_schedule filled
      >> (canonicalize_json env.codec filled.payload >>= λ canonical.
          ok (normalize_fields filled canonical))
