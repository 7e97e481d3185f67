-- ===== src/Tests/Prepare.antt =====
-- The theorems on preparation at the creation of the tests' report. The codec knows the empty object
-- only, and the parsers one public host.
use kokoro_scheduler.Base.{
  ◌∷◌, ◌*◌, ◌≤◌, sym, ◌∙◌, All, length, ok-injective, ◌≡◌, refl, ap, subst, inl, inr, true, false,
  none, some, [], arith, if◌then◌else◌, Text, ok, has_prefix, codes, text_eq, is_empty,
}
use kokoro_scheduler.Service.Found.{HasUniqueNames}
use kokoro_scheduler.Store.Table.{first_row, select_where}
use kokoro_scheduler.Store.Rows.{ScheduleRow, Db}
use kokoro_scheduler.Service.Sound.{execute_command-IsStored}
use kokoro_scheduler.Service.Stored.{IsStored}
use kokoro_scheduler.Service.Command.{Command, create}
use kokoro_scheduler.Service.Prepare.{
  check_recurring, prepare_schedule, prepare_operation, are_hex, is_digest, trimmed, check_command,
  prepare, execute_command,
}
use kokoro_scheduler.Cron.Calculator.{drop_prefix}
use kokoro_scheduler.Net.Target.{
  trim_dot, numeric_hostname, normalized_hostname, is_local_name, check_port, check_hostname,
  are_numeric, has_suffix, equal_fold, check_url, check_parsed, check_target_url,
  validate_target_url, Url,
}
use kokoro_scheduler.Net.Address.{
  unmap, prefix_contains, is_unspecified, is_safe_unmapped, is_safe_target_address, is_private,
  is_multicast, is_loopback, is_link_local_unicast, is_global_unicast, any_contains,
}
use kokoro_scheduler.Domain.Time.{normalize_instant, second}
use kokoro_scheduler.Domain.Retry.{with_defaults, validate, validate_iff}
use kokoro_scheduler.Domain.Normalized.{
  is_object_payload, finish_decoding, encode, check_status, check_misfire, canonicalize_json,
  canonicalize_decoded, check_trigger, validate_schedule, Environment, normalized, normalize_fields,
  fill_defaults,
}
use kokoro_scheduler.Cron.Words.{trim_left, read_digits, contains_byte, atoi, lower, trim_space}
use kokoro_scheduler.Domain.Identity.{
  are_name_bytes, is_valid_name, has_control, validate_tenant_id,
}
use kokoro_scheduler.Tests.{
  tenant, report, fire_each_second, numbered, empty_db, fire_each_second-IsLawful, claimed_row,
}
use kokoro_scheduler.Service.Ready.{IsReady, prepare-IsPrepared}
use kokoro_scheduler.Domain.Schedule.{Schedule}
use kokoro_scheduler.Json.{
  Value, object, no_fields, Decoded, decoded, malformed, end_of_input, Codec, IsLawful,
}

abbrev empty_object : Value
empty_object = object no_fields

unfoldable decode_empty : Text → Decoded
decode_empty s =
    if is_empty s
    then end_of_input
    else if text_eq s (codes "{}")
    then decoded empty_object []
    else malformed

abbrev empty_codec : Codec
empty_codec = record { decode = decode_empty; marshal = λ v. some (codes "{}") }

reread :
    (raw rest canonical : Text) (v : Value)
    → decode_empty raw ≡ decoded v rest
    → some (codes "{}") ≡ some canonical
    → decode_empty canonical ≡ decoded v []
unfolding decode_empty text_eq
reread raw rest canonical v read written =
    let same : empty_object ≡ v = ground arith in
    let text : codes "{}" ≡ canonical = cc in
    subst (λ (t : Text). decode_empty t ≡ decoded v []) text (ap (λ (w : Value). decoded w []) same)

empty_codec-IsLawful : IsLawful empty_codec
unfolding decode_empty
empty_codec-IsLawful = record {
  decode-marshal = λ raw rest canonical v read written. reread raw rest canonical v read written;
  decode_end = refl;
}

abbrev example_url : Url
example_url = record {
  scheme = codes "https";
  has_user = false;
  host = codes "example.org";
  hostname = codes "example.org";
  port = [];
  path = codes "/report";
  raw_query = [];
  fragment = [];
}

abbrev small_environment : Environment
small_environment = record {
  parsers = record { parse_url = λ raw. some example_url; parse_addr = λ host. none };
  codec = empty_codec;
  has_location = λ name. true;
}

abbrev normal_report : Schedule
normal_report = normalize_fields (fill_defaults report) (codes "{}")

-- 64 hexadecimal digits behind the name of the digest.
abbrev digest : Text
digest = codes "sha256:0123456789abcdef0123456789abcdef0123456789abcdef0123456789abcdef"

abbrev create_report : Command
create_report = record {
  operation = create;
  tenant_id = tenant;
  name = codes "report";
  command_scope = codes "api";
  idempotency_key = codes "key";
  request_digest = digest;
  request_id = codes "request";
  schedule = report;
}

abbrev prepared_report : Command
prepared_report = record create_report { schedule = normal_report }

prepare_report : prepare small_environment fire_each_second create_report ≡ ok prepared_report
unfolding prepare check_command validate_tenant_id trimmed trim_space has_control is_valid_name
    are_name_bytes is_digest has_prefix are_hex drop_prefix prepare_operation prepare_schedule
    normalized validate_schedule fill_defaults check_trigger text_eq atoi contains_byte lower
    read_digits trim_left canonicalize_decoded canonicalize_json check_misfire check_status encode
    finish_decoding is_object_payload normalize_fields validate with_defaults normalize_instant
    any_contains is_global_unicast is_link_local_unicast is_loopback is_multicast is_private
    is_safe_target_address is_safe_unmapped is_unspecified prefix_contains unmap are_numeric
    check_hostname check_parsed check_port check_target_url check_url equal_fold has_suffix
    is_local_name normalized_hostname numeric_hostname trim_dot validate_target_url check_recurring
    decode_empty
prepare_report = refl

prepare-IsPrepared_example : IsReady small_environment fire_each_second prepared_report
prepare-IsPrepared_example =
    prepare-IsPrepared small_environment fire_each_second create_report empty_codec-IsLawful
      (inl refl, inr (omega arith)) prepare_report

-- A row that another command has created.
abbrev neighbour : ScheduleRow
neighbour = record claimed_row { name = codes "neighbour" }

abbrev neighbour_db : Db
neighbour_db = record empty_db { schedules = neighbour ∷ [] }

neighbour-IsStored : IsStored small_environment neighbour
unfolding is_valid_name are_name_bytes is_object_payload decode_empty text_eq normalize_instant
    finish_decoding validate
neighbour-IsStored = record {
  tenant_low = omega arith;
  tenant_high = omega arith;
  name = refl;
  triggered = record {
    one_trigger = refl;
    rule_short = (refl, omega arith);
    known = refl;
    due = refl;
    once = refl;
    on_time = tt;
    instant = tt;
  };
  timezone_given = refl;
  timezone_short = omega arith;
  method = refl;
  payload = refl;
  retry = (validate_iff neighbour.retry).0 refl;
  catch_up = (omega arith, omega arith);
  overlap = refl;
  claimed_active = refl;
  whole_claim = refl;
}

neighbour-HasUniqueNames : HasUniqueNames neighbour_db.schedules
unfolding first_row select_where text_eq
neighbour-HasUniqueNames = (refl, tt)

-- The report is created beside it.
execute_command-IsStored_example :
    All
      (IsStored small_environment)
      (execute_command fire_each_second numbered
        (15 * second)
        (16 * second)
        small_environment
        create_report
        neighbour_db).1.schedules
unfolding normalize_fields fill_defaults trim_space
execute_command-IsStored_example =
    execute_command-IsStored small_environment fire_each_second numbered (15 * second) (16 * second)
      create_report neighbour_db empty_codec-IsLawful fire_each_second-IsLawful
      (inl refl, inr (omega arith))
      (λ c prepared.
        subst (λ (o : Command). length o.schedule.timezone ≤ 128)
          (ok-injective (sym prepare_report ∙ prepared)) (omega arith))
      neighbour-HasUniqueNames (neighbour-IsStored, tt)
