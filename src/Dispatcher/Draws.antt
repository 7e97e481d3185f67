-- ===== src/Dispatcher/Draws.antt =====
-- What `persistResult` decides for the delay that is drawn.
use kokoro_scheduler.Dispatcher.Retries.{
  backoff_limit, deadline_from, window_start, decide_retry_lem,
}
use kokoro_scheduler.Domain.Retry.{IsValidPolicy}
use kokoro_scheduler.Dispatcher.Backoff.{shl_one-small}
use kokoro_scheduler.Domain.Occurrence.{DispatchWork, DispatchResult, has_succeeded, is_retryable}
use kokoro_scheduler.Domain.Time.{sub_time, Time, second, add_duration}
use kokoro_scheduler.Dispatcher.Decision.{
  full_jitter, RandomSource, decide_delay, retry, fail, decide,
}
use kokoro_scheduler.Base.{
  ℕ, zero, suc, ◌+◌, ◌-◌, ◌*◌, ◌≤◌, ◌<◌, ◌≡◌, inr, false, arith, if◌then◌else◌, pos, pos_part,
  leb_ℤ, ltb_ℤ, true, ◌<ℤ◌, not, ◌||◌, min, int64_half, ◌^◌, ltb, wrap64-pos,
}

backoff_limit-bounds :
    (work : DispatchWork)
    → IsValidPolicy work.retry
    → work.attempt_count ≤ 10
    → (0 < backoff_limit work) × (backoff_limit work ≤ 3600 * second)
backoff_limit-bounds work v few =
    let b = pos_part work.retry.backoff_seconds in
    let (power, low, high) = shl_one-small (work.attempt_count - 1) (omega arith) in
    let positive : 1 ≤ b * 2 ^ (work.attempt_count - 1) = product_pos b _ (ground (arith, v)) low in
    let cap : pos_part work.retry.max_backoff_seconds ≤ 3600 = ground (arith, v) in
    let cap_pos : 1 ≤ pos_part work.retry.max_backoff_seconds = ground (arith, v) in
    (omega (arith, positive, cap_pos), omega (arith, cap))
  where
    product_pos : (x y : ℕ) → 1 ≤ x → 1 ≤ y → 1 ≤ x * y
    product_pos x y h k = grind arith

-- The largest delay that is drawn.
abbrev pub draw_limit : DispatchWork → Time → ℕ
draw_limit work now = min (deadline_from work (window_start work now) - now) (backoff_limit work)

full_jitter-draws :
    (random : RandomSource) (c n : ℕ)
    → 0 < c
    → c < int64_half - 1
    → random (pos (c + 1)) ≡ inr (pos n)
    → n ≤ c
    → full_jitter random (pos c) ≡ inr (pos n)
unfolding full_jitter
full_jitter-draws random zero n h small drawn le = absurd (omega arith)
full_jitter-draws random (suc c) n h small drawn le =
    rw (wrap64-pos (suc c + 1) (omega arith), drawn, full_jitter) (ground arith)

decide_delay-draws :
    (random : RandomSource) (work : DispatchWork) (result : DispatchResult) (now deadline c n : ℕ)
    → full_jitter random (pos c) ≡ inr (pos n)
    → decide_delay random work result now deadline (pos c)
      ≡ (if ltb (now + n) deadline then retry result (now + n) else fail result)
unfolding decide_delay add_duration
decide_delay-draws random work result now deadline c n drawn =
    rw (drawn, decide_delay) (ground arith)

sub_time-pos :
    (a b limit : ℕ)
    → b < a
    → 0 < limit
    → limit < int64_half - 1
    → (leb_ℤ (sub_time a b) (pos 0) ≡ false)
      × ((if ltb_ℤ (sub_time a b) (pos limit) then sub_time a b else pos limit)
          ≡ pos (min (a - b) limit))
unfolding sub_time
sub_time-pos a b limit h positive small = (ground arith, ground arith)

-- On a valid policy, a retryable failure with attempts left and the window open: a delay is drawn up to the smaller of
-- the back-off and what is left of the window, and the attempt is retried after that delay, unless
-- this is the end of the window, where the dispatch fails for good.
pub decide-draws :
    (random : RandomSource) (work : DispatchWork) (result : DispatchResult) (now n : ℕ)
    → IsValidPolicy work.retry
    → has_succeeded result ≡ false
    → is_retryable result ≡ true
    → pos work.attempt_count <ℤ work.retry.max_attempts
    → now < deadline_from work (window_start work now)
    → random (pos (draw_limit work now + 1)) ≡ inr (pos n)
    → n ≤ draw_limit work now
    → decide random work result now ≡ (
        if ltb (now + n) (deadline_from work (window_start work now))
        then retry result (now + n)
        else fail result)
unfolding decide
decide-draws random work result now n v bad retryable left open_ drawn le =
    let start = window_start work now in
    let few : work.attempt_count ≤ 10 = ground (arith, v, left) in
    let (positive, small) = backoff_limit-bounds work v few in
    let (more, ceiling) =
      sub_time-pos (deadline_from work start) now (backoff_limit work) open_ positive
        (omega (arith, small)) in
    let again : (not (is_retryable result)
          || leb_ℤ work.retry.max_attempts (pos work.attempt_count))
        ≡ false =
      ground arith in
    let delay =
      full_jitter-draws random (draw_limit work now) n (omega (arith, positive))
        (omega (arith, small)) drawn le in
    rw (bad, again, decide_retry_lem random work result now start v few, more, ceiling)
      (decide_delay-draws random work result now (deadline_from work start) (draw_limit work now) n
        delay)
