-- ===== src/Tests/Cron.antt =====
-- The theorems on the search for the next minute, at a rule for the second minute of an hour.
use kokoro_scheduler.Base.{
  ◌+◌, ◌*◌, ◌/◌, ◌%◌, ◌<◌, ◌≡◌, refl, true, false, none, some, [], ◌∷◌, arith, ok, pos,
}
use kokoro_scheduler.Cron.Laws.{calculator-IsLawful}
use kokoro_scheduler.Cron.Calculator.{
  calculator, truncate, search_minutes, next_matching, Library, minute_length,
}
use kokoro_scheduler.Recurrence.{IsLawful}
use kokoro_scheduler.Cron.Expression.{matches_day, Civil, CronExpression, matches}
use kokoro_scheduler.Cron.Field.{contains_value, contains, CronField}
use kokoro_scheduler.Cron.Lawful.{next_matching_complete, IsMinute, next_matching-first}
use kokoro_scheduler.Domain.Time.{second, Time}

abbrev any_value : CronField
any_value = record { allowed = []; wildcard = true }

abbrev second_minute : CronExpression
second_minute = record {
  minute = record { allowed = pos 2 ∷ []; wildcard = false };
  hour = record { allowed = pos 0 ∷ []; wildcard = false };
  day_of_month = any_value;
  month = record { allowed = pos 1 ∷ []; wildcard = false };
  day_of_week = any_value;
}

-- A location that shows the first day only.
abbrev first_day : Time → Civil
first_day t = record {
  minute = t / minute_length % 60;
  hour = t / (60 * minute_length) % 24;
  day = 1;
  month = 1;
  weekday = 1;
}

abbrev search_hour : Library
search_hour = record {
  load_location = λ name. some first_day;
  parse_duration = λ text. none;
  add_search_years = λ t. t + 60 * minute_length;
}

search_report : next_matching search_hour second_minute first_day (10 * second) ≡ ok (120 * second)
unfolding next_matching search_minutes truncate matches contains contains_value matches_day
search_report = refl

next_matching-first_example :
    (10 * second < 120 * second)
    × IsMinute (120 * second)
    × (matches second_minute (first_day (120 * second)) ≡ true)
    × ((u : Time)
        → IsMinute u
        → 10 * second < u
        → u < 120 * second
        → matches second_minute (first_day u) ≡ false)
next_matching-first_example =
    next_matching-first search_hour second_minute first_day (10 * second) (120 * second)
      search_report

next_matching_complete_example :
    (t : Time) × (next_matching search_hour second_minute first_day (10 * second) ≡ ok t)
unfolding matches contains contains_value matches_day
next_matching_complete_example =
    next_matching_complete search_hour second_minute first_day (10 * second) (120 * second) refl
      (omega arith) (omega arith) refl

calculator-IsLawful_example : IsLawful (calculator search_hour)
calculator-IsLawful_example = calculator-IsLawful search_hour
