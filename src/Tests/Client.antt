-- ===== src/Tests/Client.antt =====
-- The theorems on a dispatch at a target behind an allow-list, whose host has an internal address.
use kokoro_scheduler.Base.{
  has_prefix, text_eq, ℕ, ◌+◌, ◌≡◌, refl, inr, true, false, none, some, List, [], ◌∷◌, pos, codes,
  All, length,
}
use kokoro_scheduler.Config.Allowlist.{normalize_host_for_lookup, allows}
use kokoro_scheduler.Net.Target.{
  numeric_hostname, is_local_name, are_numeric, trim_dot, normalized_hostname, check_hostname,
  check_port, has_suffix, equal_fold, check_url, check_parsed, check_target_url,
  validate_target_url_syntax, Url,
}
use kokoro_scheduler.Net.Address.{
  unmap, prefix_contains, is_unspecified, is_safe_unmapped, is_safe_target_address, is_private,
  is_multicast, is_loopback, is_link_local_unicast, is_global_unicast, any_contains, v4, dotted,
}
use kokoro_scheduler.Domain.Time.{normalize_instant}
use kokoro_scheduler.Domain.Occurrence.{has_succeeded, DispatchResult}
use kokoro_scheduler.Domain.Identity.{
  schedule_snapshot, occurrence_identity, identity_seed, identity_of,
}
use kokoro_scheduler.Cron.Words.{read_digits, contains_byte, atoi, lower}
use kokoro_scheduler.Client.Resolve.{
  target_address_allowed, sanitize_transport_error, resolve_parsed, rejected, host_addresses,
  first_allowed, classify_transport_error, choose_address, resolve_valid, resolve_target,
  TransportError, is_plain, live,
}
use kokoro_scheduler.Client.Dispatch.{
  traceparent, request_port, request_headers, oversized, new_request, judge_status, judge_sent,
  judge_response, judge_body, dispatch_request, default_port, dispatch_resolved, Outside, Client,
  Request, dispatch,
}
use kokoro_scheduler.Tests.Config.{internal_policy, allowlist_parsers, parse-internal_policy}
use kokoro_scheduler.Tests.{second_attempt}
use kokoro_scheduler.Client.Outcome.{IsClassified, dispatch-IsClassified}
use kokoro_scheduler.Client.Allowed.{client_policy, IsConfined, dispatch-IsConfined}

abbrev internal_url : Url
internal_url = record {
  scheme = codes "http";
  has_user = false;
  host = codes "db.internal:8080";
  hostname = codes "db.internal";
  port = codes "8080";
  path = codes "/report";
  raw_query = [];
  fragment = [];
}

abbrev plain_error : TransportError
plain_error = record { kind = is_plain; message = codes "refused"; inner = none }

abbrev answering : Outside
answering = record {
  parsers = record { parse_url = λ raw. some internal_url; parse_addr = λ host. none };
  resolver = λ host. inr (v4 (dotted 10 1 2 3) ∷ []);
  parse_error = plain_error;
  json_valid = λ text. true;
  request_error = λ method url. none;
  send = λ request. inr record { status = 503; content_length = pos 2; body = inr 2 };
  resolving = live;
  sending = live;
  hex_digest = λ text. text;
  format = λ t. t ∷ [];
  show_number = λ n. (b'0' + n) ∷ [];
}

abbrev internal_client : Client
internal_client = record { target_service_token = []; policy = client_policy internal_policy }

dispatch-IsConfined_example :
    All (IsConfined internal_policy) (dispatch answering internal_client second_attempt).1
dispatch-IsConfined_example =
    dispatch-IsConfined answering [] (codes "[{}]") allowlist_parsers internal_policy second_attempt
      parse-internal_policy

dispatch-IsClassified_example : IsClassified (dispatch answering internal_client second_attempt).0
dispatch-IsClassified_example = dispatch-IsClassified answering internal_client second_attempt

-- The run reaches the target: one request, and a result that is worth another attempt.
abbrev requests_of : DispatchResult × List Request → ℕ
requests_of r = length r.1

answered_once : requests_of (dispatch answering internal_client second_attempt) ≡ 1
unfolding dispatch dispatch_resolved resolve_target resolve_valid validate_target_url_syntax
    check_target_url check_parsed check_url equal_fold text_eq lower has_suffix has_prefix
    check_port atoi check_hostname normalized_hostname trim_dot default_port dispatch_request
    judge_body judge_response judge_sent judge_status new_request oversized request_headers
    request_port traceparent choose_address classify_transport_error first_allowed host_addresses
    rejected resolve_parsed sanitize_transport_error target_address_allowed contains_byte
    read_digits identity_of identity_seed occurrence_identity schedule_snapshot has_succeeded
    normalize_instant any_contains is_global_unicast is_link_local_unicast is_loopback is_multicast
    is_private is_safe_target_address is_safe_unmapped is_unspecified prefix_contains unmap
    are_numeric is_local_name numeric_hostname allows normalize_host_for_lookup
answered_once = refl
