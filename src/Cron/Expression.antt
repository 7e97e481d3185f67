-- ===== src/Cron/Expression.antt =====
-- internal/adapters/recurrence/cron.go: `cronExpression`, `parseCron` and `matches`.
use kokoro_scheduler.Cron.Words.{lower, fields, trim_space}
use kokoro_scheduler.Cron.Field.{parse_cron_field, contains, CronField}
use kokoro_scheduler.Base.{
  ℕ, zero, suc, Bool, true, false, not, ◌&&◌, ◌||◌, Option, none, some, List, [], ◌∷◌, map,
  if◌then◌else◌, ◌==◌, Text, Result, ok, err, ◌>>=◌, ◌>>◌, fail_if, ℤ, pos, map_error, codes,
  text_eq, wrap, cron_minute, cron_hour, cron_day_of_month, cron_month, cron_day_of_week, invalid,
  cron_no_date, cron_field_count,
}

pub record CronExpression : Type 0 where
  pub minute : CronField
  pub hour : CronField
  pub day_of_month : CronField
  pub month : CronField
  pub day_of_week : CronField

-- What `matches` reads of a local time.
pub record Civil : Type 0 where
  pub minute : ℕ
  pub hour : ℕ
  pub day : ℕ
  pub month : ℕ
  pub weekday : ℕ

abbrev descriptors : List (Text × Text)
descriptors =
    (codes "@yearly", codes "0 0 1 1 *")
    ∷ (codes "@annually", codes "0 0 1 1 *")
    ∷ (codes "@monthly", codes "0 0 1 * *")
    ∷ (codes "@weekly", codes "0 0 * * 0")
    ∷ (codes "@daily", codes "0 0 * * *")
    ∷ (codes "@midnight", codes "0 0 * * *")
    ∷ (codes "@hourly", codes "0 * * * *")
    ∷ []

unfoldable pub lookup_descriptor : Text → List (Text × Text) → Option Text
lookup_descriptor name [] = none
lookup_descriptor name ((key, value) ∷ rest) =
    if text_eq key name then some value else lookup_descriptor name rest

abbrev pub month_names : List (Text × ℤ)
month_names =
    (codes "JAN", pos 1)
    ∷ (codes "FEB", pos 2)
    ∷ (codes "MAR", pos 3)
    ∷ (codes "APR", pos 4)
    ∷ (codes "MAY", pos 5)
    ∷ (codes "JUN", pos 6)
    ∷ (codes "JUL", pos 7)
    ∷ (codes "AUG", pos 8)
    ∷ (codes "SEP", pos 9)
    ∷ (codes "OCT", pos 10)
    ∷ (codes "NOV", pos 11)
    ∷ (codes "DEC", pos 12)
    ∷ []

abbrev pub weekday_names : List (Text × ℤ)
weekday_names =
    (codes "SUN", pos 0)
    ∷ (codes "MON", pos 1)
    ∷ (codes "TUE", pos 2)
    ∷ (codes "WED", pos 3)
    ∷ (codes "THU", pos 4)
    ∷ (codes "FRI", pos 5)
    ∷ (codes "SAT", pos 6)
    ∷ []

-- The days of a month of the year 2000, which is a leap year.
unfoldable pub month_days : ℕ → ℕ
month_days m = if m == 2 then 29 else if m == 4 || m == 6 || m == 9 || m == 11 then 30 else 31

unfoldable pub has_day : ℕ → CronField → Bool
has_day zero f = false
has_day (suc d) f = contains f (suc d) || has_day d f

unfoldable pub has_date_until : ℕ → CronField → CronField → Bool
unfolding has_day month_days
has_date_until zero months days = false
has_date_until (suc m) months days =
    (contains months (suc m) && has_day (month_days (suc m)) days) || has_date_until m months days

-- `hasPossibleCalendarDate`.
unfoldable pub has_possible_date : CronExpression → Bool
has_possible_date e =
    not e.day_of_week.wildcard
    || e.day_of_month.wildcard
    || has_date_until 12 e.month e.day_of_month

unfoldable pub matches_day : Bool → Bool → Bool → Bool → Bool
matches_day true true dom dow = true
matches_day true false dom dow = dow
matches_day false true dom dow = dom
matches_day false false dom dow = dom || dow

-- `cronExpression.matches`.
unfoldable pub matches : CronExpression → Civil → Bool
matches e local =
    if not (contains e.minute local.minute)
      || not (contains e.hour local.hour)
      || not (contains e.month local.month)
    then false
    else matches_day e.day_of_month.wildcard e.day_of_week.wildcard
        (contains e.day_of_month local.day) (contains e.day_of_week local.weekday)

unfoldable pub parse_parts : List Text → Result CronExpression
parse_parts (a ∷ b ∷ c ∷ d ∷ e ∷ []) = do
  minute ← map_error (wrap cron_minute) (parse_cron_field a (pos 0) (pos 59) [] false)
  hour ← map_error (wrap cron_hour) (parse_cron_field b (pos 0) (pos 23) [] false)
  day_of_month ← map_error (wrap cron_day_of_month) (parse_cron_field c (pos 1) (pos 31) [] false)
  month ← map_error (wrap cron_month) (parse_cron_field d (pos 1) (pos 12) month_names false)
  day_of_week ←
      map_error (wrap cron_day_of_week) (parse_cron_field e (pos 0) (pos 7) weekday_names true)
  let expression : CronExpression = record {
    minute = minute;
    hour = hour;
    day_of_month = day_of_month;
    month = month;
    day_of_week = day_of_week;
  }
  fail_if (not (has_possible_date expression)) (invalid cron_no_date)
  ok expression
parse_parts _ = err (invalid cron_field_count)

unfoldable pub expand : Text → Text
expand rule = elim (lookup_descriptor (map lower rule) descriptors) [
  | some expanded ↦ expanded
  | none ↦ rule
]

-- `parseCron`.
unfoldable pub parse_cron : Text → Result CronExpression
parse_cron rule = parse_parts (fields (expand (trim_space rule)))
