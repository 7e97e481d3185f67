-- ===== src/Cron/Lawful.antt =====
-- The calculator's search finds the next matching minute.
use kokoro_scheduler.Domain.Time.{Time, millisecond, normalize_instant}
use kokoro_scheduler.Cron.Calculator.{
  truncate, minute_length, search_minutes, Library, next_matching, search_rounds,
}
use kokoro_scheduler.Cron.Expression.{CronExpression, Civil, matches}
use kokoro_scheduler.Base.{
  ℕ, zero, suc, ◌+◌, ◌-◌, ◌/◌, ◌%◌, ◌≤◌, ◌<◌, ◌≡◌, sym, subst, ◌∙◌, inl, inr, true, false, arith,
  ltb, ok, Bool-cases, ok-injective,
}
use native.Mathlib.Decide.{dec_le}

truncate-aligned : (t : Time) → normalize_instant (truncate t millisecond) ≡ truncate t millisecond
unfolding normalize_instant truncate
truncate-aligned t = ground arith

-- An instant on a full minute.
abbrev pub IsMinute : Time → Type 0
IsMinute t = t % minute_length ≡ 0

whole_minute : (t : Time) → IsMinute t → truncate t millisecond ≡ t
unfolding truncate
whole_minute t h = omega arith

module _ (expression : CronExpression) (local : Time → Civil) (limit : Time) where
  abbrev pub MatchesAt : Time → Type 0
  MatchesAt t = matches expression (local t) ≡ true

  -- The search gives the first full minute from the candidate on that matches.
  search_minutes-first :
      (n : ℕ) (c : Time) {t : Time}
      → IsMinute c
      → search_minutes expression local limit n c ≡ ok t
      → (c ≤ t)
        × (t ≤ limit)
        × IsMinute t
        × MatchesAt t
        × ((u : Time) → IsMinute u → c ≤ u → u < t → matches expression (local u) ≡ false)
  unfolding search_minutes
  search_minutes-first zero c m h = cc
  search_minutes-first (suc n) c {t} m h = elim (Bool-cases (ltb limit c)) [
    | inl late ↦ cc (rw late at h)
    | inr early ↦ elim (Bool-cases (matches expression (local c))) [
      | inl hit ↦
          let e : c ≡ t = sym (whole_minute c m) ∙ ok-injective (rw (early, hit) at h) in
          (
            omega (arith, e),
            ground (arith, e),
            subst IsMinute e m,
            subst MatchesAt e hit,
            λ u mu low high. absurd (omega (arith, e, low, high)),
          )
      | inr miss ↦
          let (low, bound, mt, found, none_before) =
            search_minutes-first n (c + minute_length) (omega (arith, m)) (rw (early, miss) at h) in
          (omega (arith, low), bound, mt, found, λ u mu cu ut. earlier u mu cu ut miss none_before)
    ]
  ]
    where
      earlier :
          (u : Time)
          → IsMinute u
          → c ≤ u
          → u < t
          → matches expression (local c) ≡ false
          → ((u' : Time)
              → IsMinute u'
              → c + minute_length ≤ u'
              → u' < t
              → matches expression (local u') ≡ false)
          → matches expression (local u) ≡ false
      earlier u mu cu ut miss none_before = elim (dec_le (c + minute_length) u) [
        | yes far ↦ none_before u mu far ut
        | no near ↦
            let same : c ≡ u = omega (arith, m, mu) in
            subst (λ (x : Time). matches expression (local x) ≡ false) same miss
      ]

  -- With the rounds that `Next` has, a matching minute up to the limit is not missed.
  search_minutes_complete :
      (n : ℕ) (c u : Time)
      → IsMinute c
      → IsMinute u
      → c ≤ u
      → u ≤ limit
      → MatchesAt u
      → (limit - c) / minute_length < n
      → (t : Time) × (search_minutes expression local limit n c ≡ ok t)
  unfolding search_minutes
  search_minutes_complete zero c u mc mu low high hit rounds = absurd (omega arith)
  search_minutes_complete (suc n) c u mc mu low high hit rounds =
      let early : ltb limit c ≡ false = ground arith in
      elim (Bool-cases (matches expression (local c))) [
        | inl found ↦ (truncate c millisecond, rw (early, found))
        | inr miss ↦ elim (dec_le (c + minute_length) u) [
          | yes far ↦
              let (t, e) =
                search_minutes_complete n (c + minute_length) u (omega (arith, mc)) mu far high hit
                  (omega arith) in
              (t, rw (early, miss) e)
          | no near ↦
              let same : u ≡ c = omega (arith, mc, mu) in cc (miss, subst MatchesAt same hit)
        ]
      ]

first_candidate : Time → Time
first_candidate start = truncate start minute_length + minute_length

first_candidate-IsMinute : (start : Time) → IsMinute (first_candidate start)
unfolding first_candidate truncate
first_candidate-IsMinute start = omega arith

first_candidate-later : (start : Time) → start < first_candidate start
unfolding first_candidate truncate
first_candidate-later start = omega arith

first_candidate-least : (start u : Time) → IsMinute u → start < u → first_candidate start ≤ u
unfolding first_candidate truncate
first_candidate-least start u m h = omega arith

module _ (library : Library) (expression : CronExpression) (local : Time → Civil)
    (start : Time) where
  -- The instant that the cron part of `Next` returns is after the start, lies on a full minute that
  -- matches the expression in the location, and no full minute between them matches.
  pub next_matching-first :
      (t : Time)
      → next_matching library expression local start ≡ ok t
      → (start < t)
        × IsMinute t
        × (matches expression (local t) ≡ true)
        × ((u : Time) → IsMinute u → start < u → u < t → matches expression (local u) ≡ false)
  unfolding next_matching first_candidate
  next_matching-first t h =
      let limit = library.add_search_years (first_candidate start) in
      let (low, bound, m, hit, none_before) =
        search_minutes-first expression local limit (search_rounds (first_candidate start) limit)
          (first_candidate start) (first_candidate-IsMinute start) h in
      (
        omega (arith, low, first_candidate-later start),
        m,
        hit,
        λ u mu low' high. none_before u mu (first_candidate-least start u mu low') high,
      )

  -- When a full minute after the start and up to the limit that `AddDate` gives matches, the search
  -- returns an instant: its rounds reach the limit.
  pub next_matching_complete :
      (u : Time)
      → IsMinute u
      → start < u
      → u ≤ library.add_search_years (truncate start minute_length + minute_length)
      → matches expression (local u) ≡ true
      → (t : Time) × (next_matching library expression local start ≡ ok t)
  unfolding next_matching first_candidate
  next_matching_complete u m low high hit =
      let limit = library.add_search_years (first_candidate start) in
      search_minutes_complete expression local limit (search_rounds (first_candidate start) limit)
        (first_candidate start) u (first_candidate-IsMinute start) m
        (first_candidate-least start u m low) high hit (omega arith)
