-- ===== src/Config/Load.antt =====
-- internal/config/config.go: `Load` and the values it reads. The environment, `time.ParseDuration` and
-- the parsers are arguments; an error keeps its reason, not the variable that its message names.
use kokoro_scheduler.Base.{
  ◌*◌, ◌||◌, Option, none, some, if◌then◌else◌, ltb, Text, Result, ok, err, ◌>>=◌, ◌>>◌, fail_if, ℤ,
  pos, codes, is_empty, length, invalid, leb_ℤ, ltb_ℤ, duration_range, integer_range, claim_ttl_low,
  bad_worker_id,
}
use kokoro_scheduler.Domain.Time.{Duration, second}
use kokoro_scheduler.Domain.Identity.{has_control}
use kokoro_scheduler.Cron.Words.{trim_space, atoi}
use kokoro_scheduler.Config.Allowlist.{
  AllowlistParsers, TargetAllowlist, parse_internal_target_allowlist,
}
use kokoro_scheduler.Config.Database.{
  UrlLibrary, DatabaseTarget, parse_database_url, validate_redis_db_seven,
}

pub record Library : Type 0 where
  pub urls : UrlLibrary
  pub allowlists : AllowlistParsers
  pub parse_duration : Text → Option Duration

pub record Config : Type 0 where
  pub database : DatabaseTarget
  pub redis_url : Text
  pub http_addr : Text
  pub internal_service_token : Text
  pub target_service_token : Text
  pub internal_target_allowlist : Option TargetAllowlist
  pub wakeup_interval : Duration
  pub dispatch_timeout : Duration
  pub claim_ttl : Duration
  pub batch_size : ℤ
  pub worker_id : Text

abbrev pub default_wakeup_interval : Duration
default_wakeup_interval = pos second

abbrev pub default_claim_ttl : Duration
default_claim_ttl = pos (120 * second)

abbrev pub default_dispatch_timeout : Duration
default_dispatch_timeout = pos (30 * second)

abbrev pub maximum_configured_duration : Duration
maximum_configured_duration = pos (86400 * second)

abbrev pub default_batch_size : ℤ
default_batch_size = pos 100

abbrev pub maximum_batch_size : ℤ
maximum_batch_size = pos 1000

unfoldable pub check_duration : Option Duration → Result Duration
check_duration none = err (invalid duration_range)
check_duration (some value) =
    fail_if (leb_ℤ value (pos 0) || ltb_ℤ maximum_configured_duration value)
      (invalid duration_range)
    >> ok value

unfoldable pub check_integer : Option ℤ → (minimum maximum : ℤ) → Result ℤ
check_integer none minimum maximum = err (invalid integer_range)
check_integer (some value) minimum maximum =
    fail_if (ltb_ℤ value minimum || ltb_ℤ maximum value) (invalid integer_range) >> ok value

-- `integerValue` on the text of a variable.
unfoldable pub integer_value : Text → (fallback minimum maximum : ℤ) → Result ℤ
integer_value text fallback minimum maximum =
    let raw = trim_space text in
    if is_empty raw then ok fallback else check_integer (atoi raw) minimum maximum

abbrev pub or_default_addr : Text → Text
or_default_addr addr = if is_empty addr then codes ":8080" else addr

module _ (library : Library) where
  -- `durationValue` on the text of a variable.
  unfoldable pub duration_value : Text → Duration → Result Duration
  duration_value text fallback =
      let raw = trim_space text in
      if is_empty raw then ok fallback else check_duration (library.parse_duration raw)

  unfoldable pub check_redis : Text → Result (Unit {0})
  check_redis redis_url =
      if is_empty redis_url then ok tt else validate_redis_db_seven library.urls redis_url

  -- `Load`.
  unfoldable pub load : (Text → Text) → Result Config
  load getenv =
      let redis_url = trim_space (getenv (codes "SCHEDULER_REDIS_URL")) in
      let worker_id = trim_space (getenv (codes "SCHEDULER_WORKER_ID")) in
      parse_database_url library.urls (getenv (codes "SCHEDULER_DATABASE_URL")) >>= λ database.
      (check_redis redis_url
        >> (duration_value (getenv (codes "SCHEDULER_WAKEUP_INTERVAL")) default_wakeup_interval
            >>= λ wakeup_interval.
                (duration_value (getenv (codes "SCHEDULER_CLAIM_TTL")) default_claim_ttl
                  >>= λ claim_ttl.
                      (duration_value (getenv (codes "SCHEDULER_DISPATCH_TIMEOUT"))
                          default_dispatch_timeout
                        >>= λ dispatch_timeout.
                            (fail_if (leb_ℤ claim_ttl dispatch_timeout) (invalid claim_ttl_low)
                              >> (integer_value (getenv (codes "SCHEDULER_BATCH_SIZE"))
                                    default_batch_size (pos 1) maximum_batch_size
                                  >>= λ batch_size.
                                      (fail_if (ltb 128 (length worker_id) || has_control worker_id)
                                          (invalid bad_worker_id)
                                        >> (parse_internal_target_allowlist library.allowlists
                                              (getenv (codes "SCHEDULER_INTERNAL_TARGET_ALLOWLIST"))
                                            >>= λ allowlist. ok record {
                                              database = database;
                                              redis_url = redis_url;
                                              http_addr = or_default_addr (
                                                  trim_space
                                                    (getenv (codes "SCHEDULER_HTTP_ADDR")));
                                              internal_service_token = trim_space (
                                                  getenv
                                                    (codes "SCHEDULER_INTERNAL_SERVICE_TOKEN"));
                                              target_service_token =
                                                  trim_space (
                                                    getenv
                                                      (codes "SCHEDULER_TARGET_SERVICE_TOKEN"));
                                              internal_target_allowlist = allowlist;
                                              wakeup_interval = wakeup_interval;
                                              dispatch_timeout = dispatch_timeout;
                                              claim_ttl = claim_ttl;
                                              batch_size = batch_size;
                                              worker_id = worker_id;
                                            }))))))))
