-- ===== src/Dispatcher/Retries.antt =====
-- When `persistResult` retries, and when the next attempt is.
use kokoro_scheduler.Domain.Retry.{IsValidPolicy}
use kokoro_scheduler.Dispatcher.Backoff.{
  capped_backoff, seconds_duration, seconds_duration-pos, retry_backoff_lem,
}
use kokoro_scheduler.Domain.Occurrence.{DispatchWork, DispatchResult, has_succeeded, is_retryable}
use kokoro_scheduler.Domain.Time.{Duration, sub_time, Time, second, add_duration, is_zero}
use kokoro_scheduler.Dispatcher.Decision.{
  full_jitter, RandomSource, decide_delay, retry, decide_retry, panic, fail, decide, decide_window,
  decide_ceiling, Decision, complete,
}
use kokoro_scheduler.Base.{
  ℕ, zero, suc, ◌+◌, ◌-◌, ◌*◌, ◌≤◌, ◌<◌, ◌≡◌, refl, ap, ◌∙◌, ◌≢◌, ◌⊎◌, inl, inr, false, arith,
  if◌then◌else◌, Text, pos, negsuc, pos_part, leb_ℤ, ltb_ℤ, Bool-cases, true, ◌<ℤ◌, not, ◌||◌,
}

-- A delay that was drawn lies between zero and the ceiling.
pub full_jitter-pos :
    (random : RandomSource) (ceiling : Duration) {d : Duration}
    → full_jitter random ceiling ≡ inr d
    → (n : ℕ) × (d ≡ pos n) × (n ≤ pos_part ceiling)
unfolding full_jitter
full_jitter-pos random (negsuc n) h = (0, cc, omega arith)
full_jitter-pos random (pos zero) h = (0, cc, omega arith)
full_jitter-pos random (pos (suc n)) {d} h = (pos_part d, ground arith, ground arith)

pub sub_time-le :
    (a b : Time)
    → leb_ℤ (sub_time a b) (pos 0) ≡ false
    → (b < a) × (pos_part (sub_time a b) ≤ a - b)
unfolding sub_time
sub_time-le a b h = ground arith

-- The end of the retry window that opens at `first`.
abbrev pub deadline_from : DispatchWork → Time → Time
deadline_from work first = first + pos_part work.retry.max_retry_window_seconds * second

abbrev pub backoff_limit : DispatchWork → ℕ
backoff_limit work =
    capped_backoff (pos_part work.retry.backoff_seconds) (pos_part work.retry.max_backoff_seconds)
      work.attempt_count
    * second

-- The first attempt opens the window; without one, the present does.
abbrev pub window_start : DispatchWork → Time → Time
window_start work now = if is_zero work.first_attempt_at then now else work.first_attempt_at

-- A next attempt at `t`, inside the window and within the back-off.
abbrev pub IsRetryAt : DispatchWork → Time → Time → Time → Type 0
IsRetryAt work now start t =
    (now ≤ t) × (t < deadline_from work start) × (t ≤ now + backoff_limit work)

module _ (random : RandomSource) (work : DispatchWork) (result : DispatchResult) (now : Time) where
  pub decide_delay-retry :
      (deadline : Time) (ceiling : Duration) {result' : DispatchResult} {t : Time}
      → decide_delay random work result now deadline ceiling ≡ retry result' t
      → (result' ≡ result) × (now ≤ t) × (t < deadline) × (t ≤ now + pos_part ceiling)
  unfolding decide_delay add_duration
  decide_delay-retry deadline ceiling {result'} {t} h = drawn (full_jitter random ceiling) refl
    where
      drawn :
          (j : Text ⊎ Duration)
          → full_jitter random ceiling ≡ j
          → (result' ≡ result) × (now ≤ t) × (t < deadline) × (t ≤ now + pos_part ceiling)
      drawn (inl e) j = cc (rw (j, decide_delay) at h)
      drawn (inr d) j =
          let (n, e, le) = full_jitter-pos random ceiling j in
          let h' = rw (j, decide_delay, e) at h in ground (arith, h', le)

  decide_delay-ne-panic :
      (deadline : Time) (ceiling : Duration)
      → decide_delay random work result now deadline ceiling ≢ panic
  unfolding decide_delay
  decide_delay-ne-panic deadline ceiling h = ground arith

  pub deadline_lem :
      (first : Time)
      → IsValidPolicy work.retry
      → add_duration first (seconds_duration work.retry.max_retry_window_seconds)
        ≡ deadline_from work first
  unfolding add_duration
  deadline_lem first v =
      let w = pos_part work.retry.max_retry_window_seconds in
      let e : work.retry.max_retry_window_seconds ≡ pos w = ground (arith, v) in
      ap (add_duration first) (ap seconds_duration e ∙ seconds_duration-pos w (ground (arith, v)))

  -- `decide_retry` on a valid policy, with the window and the back-off spelled out.
  pub decide_retry_lem :
      (first : Time)
      → IsValidPolicy work.retry
      → work.attempt_count ≤ 10
      → let remaining = sub_time (deadline_from work first) now in
        decide_retry random work result now first ≡ (
          if leb_ℤ remaining (pos 0)
          then fail result
          else decide_delay random work result now (deadline_from work first) (
              if ltb_ℤ remaining (pos (backoff_limit work))
              then remaining
              else pos (backoff_limit work)))
  unfolding decide_retry decide_window decide_ceiling
  decide_retry_lem first v few =
      rw (deadline_lem first v, retry_backoff_lem work.retry work.attempt_count v few)

  decide_retry-retry :
      (first : Time) {result' : DispatchResult} {t : Time}
      → IsValidPolicy work.retry
      → work.attempt_count ≤ 10
      → decide_retry random work result now first ≡ retry result' t
      → (result' ≡ result) × IsRetryAt work now first t
  decide_retry-retry first {result'} {t} v few h =
      elim (Bool-cases (leb_ℤ (sub_time (deadline_from work first) now) (pos 0))) [
        | inl closed ↦ cc (rw (decide_retry_lem first v few, closed) at h)
        | inr open_ ↦
            let remaining = sub_time (deadline_from work first) now in
            let ceiling =
              if ltb_ℤ remaining (pos (backoff_limit work))
              then remaining
              else pos (backoff_limit work) in
            let h' : decide_delay random work result now (deadline_from work first) ceiling
                ≡ retry result' t =
              rw (decide_retry_lem first v few, open_) at h in
            let (same, low, window, high) =
              decide_delay-retry (deadline_from work first) ceiling h' in
            let small : pos_part ceiling ≤ backoff_limit work = ground arith in
            (same, (low, window, omega (arith, high, small)))
      ]

  decide_retry-ne-panic :
      (first : Time)
      → IsValidPolicy work.retry
      → work.attempt_count ≤ 10
      → decide_retry random work result now first ≢ panic
  decide_retry-ne-panic first v few h =
      let remaining = sub_time (deadline_from work first) now in
      elim (Bool-cases (leb_ℤ remaining (pos 0))) [
        | inl closed ↦ cc (rw (decide_retry_lem first v few, closed) at h)
        | inr open_ ↦
            decide_delay-ne-panic (deadline_from work first) _
              (rw (decide_retry_lem first v few, open_) at h)
      ]

  decide_cases {ℓ} :
      (P : Decision → Type ℓ)
      → (has_succeeded result ≡ true → P (complete result))
      → P (fail result)
      → (has_succeeded result ≡ false
          → is_retryable result ≡ true
          → pos work.attempt_count <ℤ work.retry.max_attempts
          → P (decide_retry random work result now (window_start work now)))
      → P (decide random work result now)
  unfolding decide
  decide_cases P done failed again = elim (Bool-cases (has_succeeded result)) [
    | inl good ↦ rw good (done good)
    | inr bad ↦
        elim (Bool-cases
          (not (is_retryable result) || leb_ℤ work.retry.max_attempts (pos work.attempt_count))) [
            | inl final ↦ rw (bad, final) failed
            | inr open_ ↦ rw (bad, open_) (again bad (ground arith) (ground arith))
          ]
  ]

-- On a valid policy, a failed attempt is retried only if the result is a retryable failure and the policy has attempts
-- left. The next attempt is not before the present, lies inside the retry window that the first
-- attempt opened, and is at most the capped exponential back-off away.
pub decide-retry :
    (random : RandomSource) (work : DispatchWork) (result : DispatchResult) (now : Time)
    {result' : DispatchResult} {t : Time}
    → IsValidPolicy work.retry
    → decide random work result now ≡ retry result' t
    → (result' ≡ result)
      × (has_succeeded result ≡ false)
      × (is_retryable result ≡ true)
      × (pos work.attempt_count <ℤ work.retry.max_attempts)
      × IsRetryAt work now (window_start work now) t
decide-retry random work result now {result'} {t} v =
    decide_cases random work result now
      (λ d.
        d ≡ retry result' t
        → (result' ≡ result)
          × (has_succeeded result ≡ false)
          × (is_retryable result ≡ true)
          × (pos work.attempt_count <ℤ work.retry.max_attempts)
          × IsRetryAt work now (window_start work now) t)
      (λ good h. cc) (λ h. cc)
      (λ bad retryable left h.
        let (same, bounds) =
          decide_retry-retry random work result now (window_start work now) v
            (ground (arith, v, left)) h in
        (same, bad, retryable, left, bounds))

-- On a valid policy no decision panics: `retryBackoff` never divides by zero.
pub decide-ne-panic :
    (random : RandomSource) (work : DispatchWork) (result : DispatchResult) (now : Time)
    → IsValidPolicy work.retry
    → decide random work result now ≢ panic
decide-ne-panic random work result now v =
    decide_cases random work result now (λ d. d ≢ panic) (λ good h. cc) (λ h. cc)
      (λ bad retryable left.
        decide_retry-ne-panic random work result now (window_start work now) v
          (ground (arith, v, left)))
