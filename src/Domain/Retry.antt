-- ===== src/Domain/Retry.antt =====
-- internal/domain/schedule.go, `RetryPolicy`: the defaults and the bounds of a retry policy.
use kokoro_scheduler.Base.{
  ◌≡◌, ◌↔◌, ◌||◌, arith, if◌then◌else◌, ℤ, pos, ltb_ℤ, eqb_ℤ, ◌≤ℤ◌, Result, ok, ◌>>◌, fail_if,
  invalid, bad_max_attempts, bad_backoff, bad_max_backoff, bad_window,
}

pub record RetryPolicy : Type 0 where
  pub max_attempts : ℤ
  pub backoff_seconds : ℤ
  pub max_backoff_seconds : ℤ
  pub max_retry_window_seconds : ℤ

abbrev pub max_retry_attempts : ℤ
max_retry_attempts = pos 10

abbrev pub max_retry_backoff_seconds : ℤ
max_retry_backoff_seconds = pos 3600

abbrev pub max_retry_window_limit : ℤ
max_retry_window_limit = pos 86400

abbrev pub default_retry_policy : RetryPolicy
default_retry_policy = record {
  max_attempts = pos 1;
  backoff_seconds = pos 1;
  max_backoff_seconds = pos 3600;
  max_retry_window_seconds = pos 3600;
}

-- `RetryPolicy.Validate`.
unfoldable pub validate : RetryPolicy → Result (Unit {0})
validate p = do
  fail_if (ltb_ℤ p.max_attempts (pos 1) || ltb_ℤ max_retry_attempts p.max_attempts)
      (invalid bad_max_attempts)
  fail_if (ltb_ℤ p.backoff_seconds (pos 1) || ltb_ℤ max_retry_backoff_seconds p.backoff_seconds)
      (invalid bad_backoff)
  fail_if
      (ltb_ℤ p.max_backoff_seconds p.backoff_seconds
        || ltb_ℤ max_retry_backoff_seconds p.max_backoff_seconds)
      (invalid bad_max_backoff)
  fail_if
      (ltb_ℤ p.max_retry_window_seconds (pos 1)
        || ltb_ℤ max_retry_window_limit p.max_retry_window_seconds)
      (invalid bad_window)
  ok tt

abbrev or_default : ℤ → ℤ → ℤ
or_default n d = if eqb_ℤ n (pos 0) then d else n

-- `RetryPolicy.withDefaults`: a field that is zero takes its default.
unfoldable pub with_defaults : RetryPolicy → RetryPolicy
with_defaults p = record {
  max_attempts = or_default p.max_attempts default_retry_policy.max_attempts;
  backoff_seconds = or_default p.backoff_seconds default_retry_policy.backoff_seconds;
  max_backoff_seconds = or_default p.max_backoff_seconds default_retry_policy.max_backoff_seconds;
  max_retry_window_seconds =
      or_default p.max_retry_window_seconds default_retry_policy.max_retry_window_seconds;
}

-- The bounds of the database's CHECK constraints and of the API contract.
pub record IsValidPolicy (p : RetryPolicy) : Type 0 where
  pub attempts_low : pos 1 ≤ℤ p.max_attempts
  pub attempts_high : p.max_attempts ≤ℤ pos 10
  pub backoff_low : pos 1 ≤ℤ p.backoff_seconds
  pub backoff_high : p.backoff_seconds ≤ℤ p.max_backoff_seconds
  pub max_backoff_high : p.max_backoff_seconds ≤ℤ pos 3600
  pub window_low : pos 1 ≤ℤ p.max_retry_window_seconds
  pub window_high : p.max_retry_window_seconds ≤ℤ pos 86400

-- `Validate` accepts exactly the policies within the bounds.
pub validate_iff : (p : RetryPolicy) → (validate p ≡ ok tt) ↔ IsValidPolicy p
unfolding validate
validate_iff p = (λ h. ground arith, λ v. ground arith)

pub with_defaults_idem : (p : RetryPolicy) → with_defaults (with_defaults p) ≡ with_defaults p
unfolding with_defaults
with_defaults_idem p = ground arith

-- Defaults change nothing in a valid policy.
pub with_defaults_valid : (p : RetryPolicy) → IsValidPolicy p → with_defaults p ≡ p
unfolding with_defaults
with_defaults_valid p v = ground arith
