-- ===== src/Tests/Config.antt =====
-- The theorems on the configuration at a small environment. The parsers know one answer each.
use kokoro_scheduler.Base.{
  has_prefix, ◌*◌, ◌≡◌, refl, Bool, true, false, ◌||◌, Option, none, some, [], ◌∷◌, if◌then◌else◌,
  Text, ok, pos, codes, text_eq,
}
use kokoro_scheduler.Cron.Words.{
  read_digits, atoi, trim_left, split_from, split, contains_byte, lower, trim_space,
}
use kokoro_scheduler.Config.Load.{
  integer_value, duration_value, check_redis, check_integer, check_duration, Library, Config, load,
}
use kokoro_scheduler.Config.Database.{
  validate_redis_db_seven, query_del, pinned_query, database_target, is_reserved_schema,
  are_schema_bytes, is_schema_name, query_values, single_schema, check_keys, parse_database_query,
  is_only_slashes, is_postgres_url, parse_database_parsed, Query, UrlLibrary, DatabaseTarget,
  parse_database_url,
}
use kokoro_scheduler.Domain.Identity.{has_control}
use kokoro_scheduler.Json.Walk.{
  read_key, has_more, has_key, close_object_walk, close_array_walk, check_end, walk, ensured,
  ensure_no_duplicate_keys, open_array, close_array,
}
use kokoro_scheduler.Config.Allowlist.{
  prefix_eq, parse_cidrs, is_within, is_internal_target_prefix, has_cidr, check_cidr, any_within,
  are_label_bytes, check_labels, normalize_allowlist_host, parse_entry, parse_entries,
  parse_decoded, normalize_host_for_lookup, AllowlistEntry, AllowlistParsers, TargetAllowlist,
  allows, parse_internal_target_allowlist,
}
use kokoro_scheduler.Net.Address.{
  prefix_contains, any_contains, Prefix, prefix4, dotted, v4, is_private, is_loopback, unmap,
}
use kokoro_scheduler.Net.Target.{trim_dot, Url}
use kokoro_scheduler.Domain.Time.{second}
use kokoro_scheduler.Config.Sound.{IsUsable, load-IsUsable}
use kokoro_scheduler.Config.Pinned.{IsPinned, parse_database_url-IsPinned}
use kokoro_scheduler.Config.Opened.{allows-internal}

abbrev internal_host : Text
internal_host = codes "db.internal"

abbrev private_prefix : Prefix
private_prefix = prefix4 (dotted 10 0 0 0) 8

abbrev internal_entry : AllowlistEntry
internal_entry = record { host = internal_host; cidrs = codes "10.0.0.0/8" ∷ [] }

abbrev pub allowlist_parsers : AllowlistParsers
allowlist_parsers = record {
  parse_addr = λ host. none;
  parse_prefix = λ raw. some private_prefix;
  tokens = λ raw. open_array ∷ close_array ∷ [];
  decode_entries = λ raw. some (some (internal_entry ∷ []), true);
}

abbrev pub internal_policy : Option TargetAllowlist
internal_policy = some ((internal_host, private_prefix ∷ []) ∷ [])

pub parse-internal_policy :
    parse_internal_target_allowlist allowlist_parsers (codes "[{}]") ≡ ok internal_policy
unfolding parse_internal_target_allowlist trim_space ensure_no_duplicate_keys ensured walk check_end
    parse_decoded parse_entries parse_entry normalize_allowlist_host text_eq
    normalize_host_for_lookup trim_dot lower contains_byte check_labels split are_label_bytes
    any_within check_cidr has_cidr is_internal_target_prefix is_within parse_cidrs prefix_eq
    split_from trim_left close_array_walk close_object_walk has_key has_more read_key
    prefix_contains unmap
parse-internal_policy = refl

allows-inside : allows internal_policy internal_host (v4 (dotted 10 1 2 3)) ≡ true
unfolding allows any_contains text_eq normalize_host_for_lookup trim_dot lower prefix_contains unmap
allows-inside = refl

allows-internal_example :
    (is_private (unmap (v4 (dotted 10 1 2 3))) || is_loopback (unmap (v4 (dotted 10 1 2 3)))) ≡ true
allows-internal_example =
    allows-internal allowlist_parsers (codes "[{}]") internal_host (v4 (dotted 10 1 2 3))
      parse-internal_policy allows-inside

abbrev database_parsed : Url
database_parsed = record {
  scheme = codes "postgres";
  has_user = false;
  host = codes "db";
  hostname = codes "db";
  port = [];
  path = codes "/app";
  raw_query = codes "schema=kokoro";
  fragment = [];
}

abbrev is_empty_query : Query → Bool
is_empty_query [] = true
is_empty_query (entry ∷ query) = false

-- A printer that shows the query only.
abbrev url_library : UrlLibrary
url_library = record {
  parse_url = λ raw. some database_parsed;
  parse_query = λ raw. some ((codes "schema", codes "kokoro" ∷ []) ∷ []);
  encode_query = λ query. if is_empty_query query then [] else codes "pinned";
  url_string = λ u. u.raw_query;
}

abbrev database_raw : Text
database_raw = codes "postgres://db/app?schema=kokoro"

abbrev kokoro_target : DatabaseTarget
kokoro_target = record { driver_url = codes "pinned"; schema_name = codes "kokoro" }

parse-kokoro_target : parse_database_url url_library database_raw ≡ ok kokoro_target
unfolding parse_database_url has_control trim_space parse_database_parsed is_postgres_url text_eq
    is_only_slashes contains_byte parse_database_query check_keys lower single_schema query_values
    is_schema_name are_schema_bytes is_reserved_schema has_prefix database_target pinned_query
    query_del trim_left
parse-kokoro_target = refl

parse_database_url-IsPinned_example : IsPinned url_library (trim_space database_raw) kokoro_target
parse_database_url-IsPinned_example =
    parse_database_url-IsPinned url_library database_raw parse-kokoro_target

abbrev config_library : Library
config_library = record {
  urls = url_library;
  allowlists = allowlist_parsers;
  parse_duration = λ text. none;
}

abbrev environment : Text → Text
environment name =
    if text_eq name (codes "SCHEDULER_DATABASE_URL")
    then database_raw
    else if text_eq name (codes "SCHEDULER_BATCH_SIZE")
    then codes "50"
    else []

abbrev small_config : Config
small_config = record {
  database = kokoro_target;
  redis_url = [];
  http_addr = codes ":8080";
  internal_service_token = [];
  target_service_token = [];
  internal_target_allowlist = none;
  wakeup_interval = pos second;
  dispatch_timeout = pos (30 * second);
  claim_ttl = pos (120 * second);
  batch_size = pos 50;
  worker_id = [];
}

load-small_config : load config_library environment ≡ ok small_config
unfolding load parse_database_url has_control text_eq trim_space parse_database_parsed
    is_postgres_url is_only_slashes contains_byte parse_database_query check_keys lower
    single_schema query_values is_schema_name are_schema_bytes is_reserved_schema has_prefix
    any_within are_label_bytes check_cidr check_labels has_cidr is_internal_target_prefix is_within
    normalize_allowlist_host normalize_host_for_lookup parse_cidrs parse_decoded parse_entries
    parse_entry parse_internal_target_allowlist prefix_eq database_target pinned_query query_del
    validate_redis_db_seven check_duration check_integer check_redis duration_value integer_value
    atoi read_digits split split_from trim_left check_end close_array_walk close_object_walk
    ensure_no_duplicate_keys ensured has_key has_more read_key walk prefix_contains unmap trim_dot
load-small_config = refl

load-IsUsable_example : IsUsable config_library small_config
load-IsUsable_example = load-IsUsable config_library environment load-small_config
