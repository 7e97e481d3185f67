-- ===== src/Cron/Interval.antt =====
-- The steps of an `@every` rule: they reach behind the threshold, on whole milliseconds.
use native.Mathlib.Decide.{dec_le}
use kokoro_scheduler.Base.{
  Bool-cases, Option-cases, ℕ, zero, suc, ◌+◌, ◌-◌, ◌*◌, ◌/◌, ◌%◌, ◌≤◌, ◌<◌, ◌≡◌, ap, subst, ◌∙◌,
  inl, inr, false, Option, none, some, arith, ltb, ok, pos, int64_half, quot64, *ℤ-pos, wrap64-pos,
  pos_part,
}
use kokoro_scheduler.Cron.Calculator.{Library, check_interval, truncate, next_step}
use kokoro_scheduler.Recurrence.{maximum_interval, InReach}
use kokoro_scheduler.Domain.Time.{
  Time, normalize_instant, Duration, second, millisecond, add_duration, sub_time,
}

pub truncate-aligned :
    (t : Time) → normalize_instant (truncate t millisecond) ≡ truncate t millisecond
unfolding normalize_instant truncate
truncate-aligned t = ground arith

-- An accepted interval is between a second and 366 days, in whole milliseconds.
pub record IsInterval (interval : Duration) : Type 0 where
  pub whole : interval ≡ pos (pos_part interval)
  pub low : second ≤ pos_part interval
  pub high : pos_part interval ≤ maximum_interval
  pub aligned : pos_part interval % millisecond ≡ 0

pub check_interval-IsInterval :
    (o : Option Duration) {interval : Duration}
    → check_interval o ≡ ok interval
    → IsInterval interval
unfolding check_interval
check_interval-IsInterval none h = cc
check_interval-IsInterval (some d) {interval} h =
    let e : d ≡ interval = ground arith in
    subst IsInterval e (record {
      whole = ground arith;
      low = ground arith;
      high = ground arith;
      aligned = ground arith;
    })

pub interval_later :
    (start : Time) (interval : Duration)
    → IsInterval interval
    → start < truncate (add_duration start interval) millisecond
unfolding truncate add_duration
interval_later start interval v = rw v.whole (omega (arith, v.low))

pub whole_instant : (t : Time) → normalize_instant t ≡ t → t % millisecond ≡ 0
unfolding normalize_instant
whole_instant t h = ground arith

-- A multiple of a whole number of milliseconds is one.
factor_out : (k m : ℕ) → k * (millisecond * m) ≡ millisecond * (k * m)
factor_out k m = grind arith

multiple-aligned : (k n : ℕ) → n % millisecond ≡ 0 → (k * n) % millisecond ≡ 0
multiple-aligned k n h =
    let e : n ≡ millisecond * (n / millisecond) = omega (arith, h) in
    let swap : k * n ≡ millisecond * (k * (n / millisecond)) =
      ap (λ (x : ℕ). k * x) e ∙ factor_out k (n / millisecond) in
    omega (arith, swap)

-- One step more than the whole steps to the threshold lies behind it, by one step at most.
steps_behind : (d n : ℕ) → 0 < n → (d < (d / n + 1) * n) × ((d / n + 1) * n ≤ d + n)
steps_behind d n pos_n = (grind arith, grind arith)

pub truncate_whole : (t : Time) → t % millisecond ≡ 0 → truncate t millisecond ≡ t
unfolding truncate
truncate_whole t h = omega arith

sub_time_lem : (a b : ℕ) → b ≤ a → a - b < int64_half → sub_time a b ≡ pos (a - b)
unfolding sub_time
sub_time_lem a b le small = ground arith

le-multiple : (k b : ℕ) → k ≤ k * suc b
le-multiple k b = grind arith

module _ (library : Library) where
  -- Within reach, neither the distance nor the number of steps saturates or wraps.
  next_step_lem :
      (anchor threshold n : ℕ)
      → second ≤ n
      → n ≤ maximum_interval
      → anchor ≤ threshold
      → InReach anchor threshold
      → next_step library anchor threshold (pos n)
        ≡ truncate (anchor + ((threshold - anchor) / n + 1) * n) millisecond
  unfolding next_step quot64 truncate add_duration
  next_step_lem anchor threshold zero low high le reach = absurd (omega arith)
  next_step_lem anchor threshold (suc b) low high le reach =
      let d = threshold - anchor in
      let q = d / suc b in
      let behind : ltb threshold anchor ≡ false = ground arith in
      let (more, few) = steps_behind d (suc b) (omega arith) in
      let apart = sub_time_lem threshold anchor le (omega arith) in
      let span : (q + 1) * suc b < int64_half = omega (arith, few) in
      let small : q + 1 < int64_half = omega (arith, le-multiple (q + 1) b) in
      rw (
        behind,
        apart,
        quot64,
        wrap64-pos (q + 1) small,
        *ℤ-pos (q + 1) (suc b),
        wrap64-pos ((q + 1) * suc b) span,
        add_duration,
      )

  pub next_step-later :
      (anchor threshold : Time) (interval : Duration)
      → IsInterval interval
      → normalize_instant anchor ≡ anchor
      → normalize_instant threshold ≡ threshold
      → InReach anchor threshold
      → threshold < next_step library anchor threshold interval
  next_step-later anchor threshold interval v a t reach = elim (dec_le anchor threshold) [
    | no ahead ↦ unfold next_step in ground arith
    | yes le ↦
        let n = pos_part interval in
        let k = (threshold - anchor) / n + 1 in
        let (more, few) = steps_behind (threshold - anchor) n (omega (arith, v.low)) in
        let whole = whole_instant anchor a in
        let multiple = multiple-aligned k n v.aligned in
        let same = truncate_whole (anchor + k * n) (omega (arith, whole, multiple)) in
        rw (v.whole, next_step_lem anchor threshold n v.low v.high le reach, same)
          (omega (arith, more))
  ]

  pub next_step-aligned :
      (anchor threshold : Time) (interval : Duration)
      → normalize_instant (next_step library (truncate anchor millisecond) threshold interval)
        ≡ next_step library (truncate anchor millisecond) threshold interval
  unfolding next_step
  next_step-aligned anchor threshold interval =
      elim (Bool-cases (ltb threshold (truncate anchor millisecond))) [
        | inl ahead ↦ rw ahead (truncate-aligned anchor)
        | inr behind ↦
            elim (Option-cases
              (quot64 (sub_time threshold (truncate anchor millisecond)) interval)) [
                | inl e ↦ rw (behind, e) (truncate-aligned anchor)
                | inr (q, e) ↦ rw (behind, e) (truncate-aligned _)
              ]
      ]
