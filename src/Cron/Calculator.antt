-- ===== src/Cron/Calculator.antt =====
-- internal/adapters/recurrence/calculator.go. The time zone database, `time.ParseDuration` and
-- `AddDate` are arguments.
use kokoro_scheduler.Base.{
  ℕ, zero, suc, ◌+◌, ◌-◌, ◌*◌, ◌/◌, ◌%◌, Bool, not, ◌&&◌, ◌||◌, Option, none, some, [], ◌∷◌,
  if◌then◌else◌, ◌==◌, ltb, Text, Result, ok, err, ◌>>=◌, ◌>>◌, fail_if, pos, has_prefix, codes,
  invalid, bad_rule_prefix, interval_syntax, ltb_ℤ, quot64, wrap64, pos_part, ◌*ℤ◌,
  unknown_timezone, is_empty, no_occurrence, text_eq, bad_timezone, interval_range,
  interval_precision,
}
use kokoro_scheduler.Recurrence.{Recurrence, maximum_interval}
use kokoro_scheduler.Cron.Words.{trim_space, contains_byte}
use kokoro_scheduler.Cron.Expression.{Civil, parse_cron, CronExpression, matches}
use kokoro_scheduler.Domain.Time.{Duration, second, Time, millisecond, add_duration, sub_time}

pub record Library : Type 0 where
  -- `time.LoadLocation`, with the reading of an instant in that location.
  pub load_location : Text → Option (Time → Civil)
  -- `time.ParseDuration`, in nanoseconds.
  pub parse_duration : Text → Option Duration
  -- `t.AddDate(10, 0, 0)`.
  pub add_search_years : Time → Time

abbrev pub minute_length : ℕ
minute_length = 60 * second

-- `t.Truncate(d)`.
unfoldable pub truncate : Time → ℕ → Time
truncate t d = t - t % d

abbrev pub every_prefix : Text
every_prefix = codes "@every "

abbrev pub is_every : Text → Bool
is_every rule = has_prefix every_prefix rule

unfoldable pub drop_prefix : Text → Text → Text
drop_prefix [] s = s
drop_prefix (a ∷ p) [] = []
drop_prefix (a ∷ p) (b ∷ s) = drop_prefix p s

unfoldable pub check_interval : Option Duration → Result Duration
check_interval none = err (invalid interval_syntax)
check_interval (some interval) = do
  fail_if (ltb_ℤ interval (pos second) || ltb_ℤ (pos maximum_interval) interval)
      (invalid interval_range)
  fail_if (not (pos_part interval % millisecond == 0)) (invalid interval_precision)
  ok interval

-- The search of `Next`, minute by minute; the fuel is the number of minutes up to the limit.
unfoldable pub search_minutes : CronExpression → (Time → Civil) → Time → ℕ → Time → Result Time
search_minutes expression local limit zero candidate = err (invalid no_occurrence)
search_minutes expression local limit (suc n) candidate =
    let rest = search_minutes expression local limit n (candidate + minute_length) in
    if ltb limit candidate
    then err (invalid no_occurrence)
    else if matches expression (local candidate)
    then ok (truncate candidate millisecond)
    else rest

abbrev pub search_rounds : Time → Time → ℕ
search_rounds candidate limit = suc ((limit - candidate) / minute_length)

module _ (library : Library) where
  unfoldable pub known_location : Option (Time → Civil) → Result (Time → Civil)
  known_location none = err (invalid unknown_timezone)
  known_location (some local) = ok local

  -- `loadLocation`.
  unfoldable pub load_location : Text → Result (Time → Civil)
  load_location name =
      let name' = if is_empty name then codes "UTC" else name in
      if not (text_eq name' (codes "UTC")) && not (contains_byte b'/' name')
      then err (invalid bad_timezone)
      else known_location (library.load_location name')

  -- `parseInterval`.
  unfoldable pub parse_interval : Text → Result Duration
  parse_interval rule =
      check_interval (library.parse_duration (trim_space (drop_prefix every_prefix rule)))

  unfoldable pub accept_rule : Text → Result (Unit {0})
  accept_rule rule =
      if is_every rule
      then (parse_interval rule >>= λ interval. ok tt)
      else (parse_cron rule >>= λ expression. ok tt)

  -- `Validate`.
  unfoldable pub validate : Text → Text → Result (Unit {0})
  validate rule timezone = do
    fail_if (has_prefix (codes "TZ=") rule || has_prefix (codes "CRON_TZ=") rule)
        (invalid bad_rule_prefix)
    local ← load_location timezone
    accept_rule rule

  -- The cron part of `Next`.
  unfoldable pub next_matching : CronExpression → (Time → Civil) → Time → Result Time
  next_matching expression local start =
      let candidate = truncate start minute_length + minute_length in
      let limit = library.add_search_years candidate in
      search_minutes expression local limit (search_rounds candidate limit) candidate

  -- `Next`.
  unfoldable pub next : Text → Text → Time → Result Time
  next rule timezone start =
      validate rule timezone
      >> (if is_every rule
          then (parse_interval rule >>= λ interval.
              ok (truncate (add_duration start interval) millisecond))
          else (load_location timezone >>= λ local.
              parse_cron rule >>= λ expression. next_matching expression local start))

  -- `threshold.Sub(anchor)/interval + 1` steps, in int64.
  unfoldable pub next_step : Time → Time → Duration → Time
  next_step anchor threshold interval =
      if ltb threshold anchor then anchor else elim (quot64 (sub_time threshold anchor) interval) [
        | none ↦ anchor
        | some q ↦
            truncate (add_duration anchor (wrap64 (wrap64 (pos (pos_part q + 1)) *ℤ interval)))
              millisecond
      ]

  -- `NextAfter`.
  unfoldable pub next_after : Text → Text → Time → Time → Result Time
  next_after rule timezone anchor threshold =
      let anchor' = truncate anchor millisecond in
      let threshold' = truncate threshold millisecond in
      validate rule timezone
      >> (if is_every rule
          then (parse_interval rule >>= λ interval. ok (next_step anchor' threshold' interval))
          else next rule timezone threshold')

  -- The calculator as an implementation of the interface.
  abbrev pub calculator : Recurrence
  calculator = record { validate = validate; next = next; next_after = next_after }
