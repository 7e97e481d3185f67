-- ===== src/Recurrence.antt =====
-- internal/ports/ports.go, the interface `Recurrence`, with the laws that its clients rely on.
use kokoro_scheduler.Base.{ℕ, ◌+◌, ◌*◌, ◌<◌, ◌≡◌, Text, Result, ok, int64_half}
use kokoro_scheduler.Domain.Time.{Time, normalize_instant, second}

pub record Recurrence : Type 0 where
  pub validate : Text → Text → Result (Unit {0})
  pub next : Text → Text → Time → Result Time
  pub next_after : Text → Text → Time → Time → Result Time

-- 366 days, the longest interval of a schedule.
abbrev pub maximum_interval : ℕ
maximum_interval = 366 * 24 * 3600 * second

-- The threshold lies so little behind the anchor, some 291 years at most, that the distance and one
-- more interval fit a `time.Duration`.
abbrev pub InReach : Time → Time → Type 0
InReach anchor threshold = threshold + maximum_interval < anchor + int64_half

-- `Next` gives a later instant and `NextAfter`, within reach, one behind its threshold; both give
-- whole milliseconds.
pub record IsLawful (r : Recurrence) : Type 0 where
  pub next_later :
      (rule timezone : Text) (start t : Time) → r.next rule timezone start ≡ ok t → start < t
  pub next_aligned :
      (rule timezone : Text) (start t : Time)
      → r.next rule timezone start ≡ ok t
      → normalize_instant t ≡ t
  pub next_after_later :
      (rule timezone : Text) (anchor threshold t : Time)
      → normalize_instant anchor ≡ anchor
      → normalize_instant threshold ≡ threshold
      → InReach anchor threshold
      → r.next_after rule timezone anchor threshold ≡ ok t
      → threshold < t
  pub next_after_aligned :
      (rule timezone : Text) (anchor threshold t : Time)
      → r.next_after rule timezone anchor threshold ≡ ok t
      → normalize_instant t ≡ t
