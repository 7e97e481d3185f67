-- ===== src/Cron/Laws.antt =====
-- The calculator keeps the laws of its interface.
use kokoro_scheduler.Base.{
  >>=-eq-ok, Bool-cases, ok-injective, ◌<◌, ◌≡◌, subst, inl, inr, arith, Text, ok, ◌>>=◌,
}
use kokoro_scheduler.Cron.Interval.{
  truncate_whole, whole_instant, IsInterval, next_step-aligned, check_interval-IsInterval,
  next_step-later, interval_later, truncate-aligned,
}
use kokoro_scheduler.Cron.Expression.{parse_cron}
use kokoro_scheduler.Cron.Lawful.{IsMinute, next_matching-first}
use kokoro_scheduler.Recurrence.{IsLawful, InReach}
use kokoro_scheduler.Cron.Calculator.{
  validate, next, next_after, load_location, Library, calculator, parse_interval, next_matching,
  is_every, truncate, next_step,
}
use kokoro_scheduler.Domain.Time.{Time, normalize_instant, Duration, millisecond, add_duration}

module _ (library : Library) where
  minute_instant : (t : Time) → IsMinute t → normalize_instant t ≡ t
  unfolding normalize_instant
  minute_instant t m = ground arith

  every_next :
      (rule : Text) (start t : Time)
      → (parse_interval library rule >>= λ interval.
          ok (truncate (add_duration start interval) millisecond))
        ≡ ok t
      → (start < t) × (normalize_instant t ≡ t)
  unfolding parse_interval
  every_next rule start t h =
      let (interval, parsed, last) = >>=-eq-ok (parse_interval library rule) _ h in
      let v = check_interval-IsInterval _ parsed in
      subst (λ (x : Time). (start < x) × (normalize_instant x ≡ x)) (ok-injective last)
        (interval_later start interval v, truncate-aligned (add_duration start interval))

  cron_next :
      (rule timezone : Text) (start t : Time)
      → (load_location library timezone >>= λ local.
          parse_cron rule >>= λ expression. next_matching library expression local start)
        ≡ ok t
      → (start < t) × (normalize_instant t ≡ t)
  cron_next rule timezone start t h =
      let (local, found, rest) = >>=-eq-ok (load_location library timezone) _ h in
      let (expression, parsed, last) = >>=-eq-ok (parse_cron rule) _ rest in
      let (later, minute, hit, first) = next_matching-first library expression local start t last in
      (later, minute_instant t minute)

  next-later_aligned :
      (rule timezone : Text) (start t : Time)
      → next library rule timezone start ≡ ok t
      → (start < t) × (normalize_instant t ≡ t)
  unfolding next
  next-later_aligned rule timezone start t h =
      let (u, valid, rest) = >>=-eq-ok (validate library rule timezone) _ h in
      elim (Bool-cases (is_every rule)) [
        | inl every ↦ every_next rule start t (rw every at rest)
        | inr cron ↦ cron_next rule timezone start t (rw cron at rest)
      ]

  every_after :
      (rule : Text) (anchor threshold t : Time)
      → (parse_interval library rule >>= λ interval.
          ok (next_step library (truncate anchor millisecond) threshold interval))
        ≡ ok t
      → (interval : Duration) × IsInterval interval
        × (next_step library (truncate anchor millisecond) threshold interval ≡ t)
  unfolding parse_interval
  every_after rule anchor threshold t h =
      let (interval, parsed, last) = >>=-eq-ok (parse_interval library rule) _ h in
      (interval, check_interval-IsInterval _ parsed, ok-injective last)

  truncate_normalized : (t : Time) → normalize_instant t ≡ t → truncate t millisecond ≡ t
  truncate_normalized t h = truncate_whole t (whole_instant t h)

  after-later :
      (rule timezone : Text) (anchor threshold t : Time)
      → normalize_instant anchor ≡ anchor
      → normalize_instant threshold ≡ threshold
      → InReach anchor threshold
      → next_after library rule timezone anchor threshold ≡ ok t
      → threshold < t
  unfolding next_after
  after-later rule timezone anchor threshold t a b reach h =
      let (u, valid, rest) = >>=-eq-ok (validate library rule timezone) _ h in
      let eb = truncate_normalized threshold b in
      elim (Bool-cases (is_every rule)) [
        | inl every ↦
            let (interval, v, e) =
              every_after rule anchor (truncate threshold millisecond) t (rw every at rest) in
            subst (λ (x : Time). threshold < x) (rw (truncate_normalized anchor a, eb) at e)
              (next_step-later library anchor threshold interval v a b reach)
        | inr cron ↦ (next-later_aligned rule timezone threshold t (rw (cron, eb) at rest)).0
      ]

  after-aligned :
      (rule timezone : Text) (anchor threshold t : Time)
      → next_after library rule timezone anchor threshold ≡ ok t
      → normalize_instant t ≡ t
  unfolding next_after
  after-aligned rule timezone anchor threshold t h =
      let (u, valid, rest) = >>=-eq-ok (validate library rule timezone) _ h in
      elim (Bool-cases (is_every rule)) [
        | inl every ↦
            let (interval, v, e) =
              every_after rule anchor (truncate threshold millisecond) t (rw every at rest) in
            subst (λ (x : Time). normalize_instant x ≡ x) e
              (next_step-aligned library anchor (truncate threshold millisecond) interval)
        | inr cron ↦
            (next-later_aligned rule timezone (truncate threshold millisecond) t
              (rw cron at rest)).1
      ]

-- The calculator is a lawful recurrence, whatever the time zone database, `time.ParseDuration` and
-- `AddDate` answer: `Next` gives an instant after its start, `NextAfter` one behind its threshold
-- where that is within reach, and both give whole milliseconds.
pub calculator-IsLawful : (library : Library) → IsLawful (calculator library)
calculator-IsLawful library = record {
  next_later = λ rule timezone start t h. (next-later_aligned library rule timezone start t h).0;
  next_aligned = λ rule timezone start t h. (next-later_aligned library rule timezone start t h).1;
  next_after_later = after-later library;
  next_after_aligned = after-aligned library;
}
