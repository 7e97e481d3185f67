-- ===== src/Config/Sound.antt =====
-- What a loaded configuration satisfies.
use kokoro_scheduler.Base.{
  ◌||◌, ltb, codes, ◌≤◌, ◌≡◌, refl, subst, inl, inr, true, false, Option, none, some, [], ◌∷◌,
  arith, Text, ok, fail_if, ℤ, pos, negsuc, is_empty, length, ltb_ℤ, leb_ℤ, ◌≤ℤ◌, Bool-cases,
  >>=-eq-ok, ok-injective, invalid, fail_if-ok, claim_ttl_low, bad_worker_id,
}
use kokoro_scheduler.Domain.Time.{Duration}
use kokoro_scheduler.Domain.Identity.{has_control}
use kokoro_scheduler.Cron.Words.{trim_space, atoi}
use kokoro_scheduler.Config.Opened.{IsPolicy, parse-IsPolicy}
use kokoro_scheduler.Config.Allowlist.{parse_internal_target_allowlist}
use kokoro_scheduler.Config.Database.{parse_database_url}
use kokoro_scheduler.Config.Load.{
  Library, Config, check_duration, check_integer, integer_value, duration_value, check_redis, load,
  or_default_addr, default_wakeup_interval, default_claim_ttl, default_dispatch_timeout,
  maximum_configured_duration, default_batch_size, maximum_batch_size,
}

-- A duration between a nanosecond and a day.
abbrev pub IsConfigured : Duration → Type 0
IsConfigured d = (pos 1 ≤ℤ d) × (d ≤ℤ maximum_configured_duration)

check_duration-IsConfigured :
    (o : Option Duration) {d : Duration} → check_duration o ≡ ok d → IsConfigured d
unfolding check_duration
check_duration-IsConfigured none h = cc
check_duration-IsConfigured (some (pos n)) h = ground arith
check_duration-IsConfigured (some (negsuc n)) h = ground arith

check_integer-bounds :
    (o : Option ℤ) (minimum maximum : ℤ) {n : ℤ}
    → check_integer o minimum maximum ≡ ok n
    → (minimum ≤ℤ n) × (n ≤ℤ maximum)
unfolding check_integer
check_integer-bounds none minimum maximum h = cc
check_integer-bounds (some n) minimum maximum h = ground arith

integer_value-bounds :
    (text : Text) (fallback minimum maximum : ℤ) {n : ℤ}
    → minimum ≤ℤ fallback
    → fallback ≤ℤ maximum
    → integer_value text fallback minimum maximum ≡ ok n
    → (minimum ≤ℤ n) × (n ≤ℤ maximum)
unfolding integer_value
integer_value-bounds text fallback minimum maximum low high h =
    elim (Bool-cases (is_empty (trim_space text))) [
      | inl blank ↦
          subst (λ (n : ℤ). (minimum ≤ℤ n) × (n ≤ℤ maximum)) (ok-injective (rw blank at h))
            (low, high)
      | inr filled ↦ check_integer-bounds (atoi (trim_space text)) minimum maximum (rw filled at h)
    ]

-- What the program relies on: a claim outlasts a dispatch, batches and durations are within their
-- bounds, the worker's name fits its column, redis is used at its own database only, and the targets
-- that are opened are internal.
pub record IsUsable (library : Library) (c : Config) : Type 0 where
  pub wakeup : IsConfigured c.wakeup_interval
  pub timeout : IsConfigured c.dispatch_timeout
  pub ttl : IsConfigured c.claim_ttl
  pub outlasts : ltb_ℤ c.dispatch_timeout c.claim_ttl ≡ true
  pub batch : (pos 1 ≤ℤ c.batch_size) × (c.batch_size ≤ℤ maximum_batch_size)
  pub worker_short : length c.worker_id ≤ 128
  pub worker_visible : has_control c.worker_id ≡ false
  pub addressed : is_empty c.http_addr ≡ false
  pub redis : check_redis library c.redis_url ≡ ok tt
  pub internal_only : IsPolicy library.allowlists c.internal_target_allowlist

module _ (library : Library) where
  duration_value-IsConfigured :
      (text : Text) (fallback : Duration) {d : Duration}
      → IsConfigured fallback
      → duration_value library text fallback ≡ ok d
      → IsConfigured d
  unfolding duration_value
  duration_value-IsConfigured text fallback v h = elim (Bool-cases (is_empty (trim_space text))) [
    | inl blank ↦ subst IsConfigured (ok-injective (rw blank at h)) v
    | inr filled ↦
        check_duration-IsConfigured (library.parse_duration (trim_space text)) (rw filled at h)
  ]

or_default_addr-given : (addr : Text) → is_empty (or_default_addr addr) ≡ false
or_default_addr-given [] = refl
or_default_addr-given (c ∷ s) = refl

default_wakeup_interval-IsConfigured : IsConfigured default_wakeup_interval
default_wakeup_interval-IsConfigured = (omega arith, omega arith)

default_dispatch_timeout-IsConfigured : IsConfigured default_dispatch_timeout
default_dispatch_timeout-IsConfigured = (omega arith, omega arith)

default_claim_ttl-IsConfigured : IsConfigured default_claim_ttl
default_claim_ttl-IsConfigured = (omega arith, omega arith)

default_batch_size-bounds :
    (pos 1 ≤ℤ default_batch_size) × (default_batch_size ≤ℤ maximum_batch_size)
default_batch_size-bounds = (omega arith, omega arith)

ltb_ℤ-not : (a b : ℤ) → leb_ℤ a b ≡ false → ltb_ℤ b a ≡ true
ltb_ℤ-not a b h = ground arith

worker-bounds :
    (w : Text)
    → (ltb 128 (length w) || has_control w) ≡ false
    → (length w ≤ 128) × (has_control w ≡ false)
worker-bounds w h = ground arith

-- A configuration that `Load` accepts is usable, whatever the environment holds: its durations are
-- between a nanosecond and a day, a claim lasts longer than a dispatch may take, a batch has 1 to 1000
-- rows, the worker's name has at most 128 visible characters, an HTTP address is set, redis is unset
-- or at database 7, and the policy for internal targets holds internal prefixes only.
pub load-IsUsable :
    (library : Library) (getenv : Text → Text) {c : Config}
    → load library getenv ≡ ok c
    → IsUsable library c
unfolding load
load-IsUsable library getenv h =
    let worker_id = trim_space (getenv (codes "SCHEDULER_WORKER_ID")) in
    let (database, _, h1) = >>=-eq-ok (parse_database_url library.urls _) _ h in
    let (_, redis, h2) = >>=-eq-ok (check_redis library _) _ h1 in
    let (wakeup, w, h3) = >>=-eq-ok (duration_value library _ default_wakeup_interval) _ h2 in
    let (ttl, t, h4) = >>=-eq-ok (duration_value library _ default_claim_ttl) _ h3 in
    let (timeout, d, h5) = >>=-eq-ok (duration_value library _ default_dispatch_timeout) _ h4 in
    let (_, longer, h6) = >>=-eq-ok (fail_if (leb_ℤ ttl timeout) (invalid claim_ttl_low)) _ h5 in
    let (batch, b, h7) =
      >>=-eq-ok (integer_value _ default_batch_size (pos 1) maximum_batch_size) _ h6 in
    let (_, worker, h8) =
      >>=-eq-ok
        (fail_if (ltb 128 (length worker_id) || has_control worker_id) (invalid bad_worker_id)) _
        h7 in
    let (allowlist, a, last) =
      >>=-eq-ok (parse_internal_target_allowlist library.allowlists _) _ h8 in
    let (short, visible) = worker-bounds worker_id (fail_if-ok _ _ worker) in
    subst (IsUsable library) (ok-injective last) (record {
      wakeup =
          duration_value-IsConfigured library _ default_wakeup_interval
            default_wakeup_interval-IsConfigured w;
      timeout =
          duration_value-IsConfigured library _ default_dispatch_timeout
            default_dispatch_timeout-IsConfigured d;
      ttl =
          duration_value-IsConfigured library _ default_claim_ttl default_claim_ttl-IsConfigured t;
      outlasts = ltb_ℤ-not ttl timeout (fail_if-ok _ _ longer);
      batch =
          integer_value-bounds _ default_batch_size (pos 1) maximum_batch_size
            default_batch_size-bounds.0 default_batch_size-bounds.1 b;
      worker_short = short;
      worker_visible = visible;
      addressed = or_default_addr-given _;
      redis = redis;
      internal_only = parse-IsPolicy library.allowlists _ a;
    })
