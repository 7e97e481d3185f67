-- ===== src/Dispatcher/Decision.antt =====
-- internal/application/dispatcher.go: `normalizeAttemptResult`, `fullJitter`, `boundedError` and the
-- choice that `persistResult` makes. The store operations that follow are `Dispatcher.Process`.
use kokoro_scheduler.Dispatcher.Backoff.{seconds_duration, retry_backoff}
use kokoro_scheduler.Domain.Occurrence.{
  DispatchWork, Code, DispatchResult, has_error, cancelled, target_timeout,
  retry_jitter_unavailable, has_succeeded, is_retryable,
}
use kokoro_scheduler.Domain.Time.{Duration, Time, add_duration, before, is_zero, sub_time}
use kokoro_scheduler.Base.{
  zero, suc, ◌+◌, ◌⊎◌, inl, inr, not, ◌||◌, Option, none, some, [], ◌++◌, if◌then◌else◌, ltb, Text,
  ℤ, pos, negsuc, length, codes, wrap64, take, ltb_ℤ, leb_ℤ,
}

-- The error of the attempt's context: its kind as `errors.Is` tells it, and its message.
pub data AttemptError : Type 0 where
  canceled deadline_exceeded other_error : Text → AttemptError

abbrev pub error_message : AttemptError → Text
error_message (canceled m) = m
error_message (deadline_exceeded m) = m
error_message (other_error m) = m

abbrev pub attempt_code : AttemptError → Code → Code
attempt_code (canceled m) c = cancelled
attempt_code (deadline_exceeded m) c = target_timeout
attempt_code (other_error m) c = c

-- `normalizeAttemptResult`: a context that ended decides the code, and the error where there is none.
unfoldable pub normalize_attempt_result : DispatchResult → Option AttemptError → DispatchResult
normalize_attempt_result result none = result
normalize_attempt_result result (some e) = record result {
  error = if has_error result then result.error else some (error_message e);
  code = attempt_code e result.code;
}

-- `RandomSource.Int63n`: an error message or a number.
abbrev pub RandomSource : Type 0
RandomSource = ℤ → Text ⊎ ℤ

unfoldable pub full_jitter : RandomSource → Duration → Text ⊎ Duration
full_jitter random (negsuc n) = inr (pos 0)
full_jitter random (pos zero) = inr (pos 0)
full_jitter random (pos (suc n)) = elim (random (wrap64 (pos (suc n + 1)))) [
  | inl e ↦ inl e
  | inr value ↦
      if ltb_ℤ value (pos 0) || ltb_ℤ (pos (suc n)) value
      then inl (codes "random source returned a value outside the requested range")
      else inr value
]

-- What `persistResult` has the store do; `panic` is a division by zero in `retryBackoff`.
pub data Decision : Type 0 where
  complete fail : DispatchResult → Decision
  retry : DispatchResult → Time → Decision
  panic : Decision

module _ (random : RandomSource) (work : DispatchWork) (result : DispatchResult) (now : Time) where
  -- From the drawing of the delay on.
  unfoldable pub decide_delay : Time → Duration → Decision
  decide_delay deadline ceiling = elim (full_jitter random ceiling) [
    | inl e ↦ fail (record result {
      error = some (codes "scheduler retry jitter failed: " ++ e);
      code = retry_jitter_unavailable;
    })
    | inr delay ↦
        let next_attempt_at = add_duration now delay in
        if not (before next_attempt_at deadline) then fail result else retry result next_attempt_at
  ]

  -- The ceiling of the delay is the back-off, or what is left of the window.
  unfoldable pub decide_ceiling : Time → Duration → Option Duration → Decision
  decide_ceiling deadline remaining none = panic
  decide_ceiling deadline remaining (some ceiling) =
      decide_delay deadline (if ltb_ℤ remaining ceiling then remaining else ceiling)

  unfoldable pub decide_window : Time → Decision
  decide_window deadline =
      if leb_ℤ (sub_time deadline now) (pos 0)
      then fail result
      else decide_ceiling deadline (sub_time deadline now)
          (retry_backoff work.retry work.attempt_count)

  -- The retry window starts at the first attempt.
  unfoldable pub decide_retry : Time → Decision
  decide_retry first_attempt_at =
      decide_window
        (add_duration first_attempt_at (seconds_duration work.retry.max_retry_window_seconds))

  unfoldable pub decide : Decision
  decide =
      if has_succeeded result
      then complete result
      else if not (is_retryable result) || leb_ℤ work.retry.max_attempts (pos work.attempt_count)
      then fail result
      else decide_retry (if is_zero work.first_attempt_at then now else work.first_attempt_at)

-- `boundedError`, and the same cut in `transitionDispatch`: at most 1024 bytes.
unfoldable pub bounded_error : Option Text → Text
bounded_error none = []
bounded_error (some message) = if ltb 1024 (length message) then take 1024 message else message
