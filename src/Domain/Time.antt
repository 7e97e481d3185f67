-- ===== src/Domain/Time.antt =====
-- Instants and durations. A `time.Time` is its distance from Go's zero time (the start of year 1,
-- UTC) in nanoseconds, so `IsZero` is `== 0`; a `time.Duration` is a number of nanoseconds in an
-- int64. Instants before year 1 are outside the model.
use kokoro_scheduler.Base.{
  ℕ, suc, ◌+◌, ◌-◌, ◌%◌, ◌≤◌, ◌≡◌, Bool, arith, ltb, leb, ◌==◌, if◌then◌else◌, ℤ, pos, negsuc,
  sub_ℕ, int64_half,
}

abbrev pub Time : Type 0
Time = ℕ

abbrev pub Duration : Type 0
Duration = ℤ

abbrev pub millisecond : ℕ
millisecond = 1_000_000

abbrev pub second : ℕ
second = 1_000_000_000

abbrev pub is_zero : Time → Bool
is_zero t = t == 0

-- `a.After(b)` and `a.Before(b)`.
abbrev pub after : Time → Time → Bool
after a b = ltb b a

abbrev pub before : Time → Time → Bool
before a b = ltb a b

-- `NormalizeInstant`: the zero time stays, others are truncated to milliseconds.
unfoldable pub normalize_instant : Time → Time
normalize_instant t = if is_zero t then 0 else t - t % millisecond

-- `t.Add(d)`.
unfoldable pub add_duration : Time → Duration → Time
add_duration t (pos d) = t + d
add_duration t (negsuc d) = t - suc d

-- `a.Sub(b)`, which saturates at the ends of int64.
unfoldable pub sub_time : Time → Time → Duration
sub_time a b =
    if leb int64_half (a - b)
    then pos (int64_half - 1)
    else if ltb int64_half (b - a)
    then negsuc (int64_half - 1)
    else sub_ℕ a b

pub normalize_instant_idem :
    (t : Time) → normalize_instant (normalize_instant t) ≡ normalize_instant t
unfolding normalize_instant
normalize_instant_idem t = ground arith

pub normalize_instant-le : (t : Time) → normalize_instant t ≤ t
unfolding normalize_instant
normalize_instant-le t = ground arith

pub normalize_instant_mono : (s t : Time) → s ≤ t → normalize_instant s ≤ normalize_instant t
unfolding normalize_instant
normalize_instant_mono s t h = ground arith
