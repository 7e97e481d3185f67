-- ===== src/Tests/Http.antt =====
-- The theorem on paths at the one that pauses a schedule.
use kokoro_scheduler.Base.{text_eq, has_prefix, ◌≡◌, refl, ◌↔◌, true, some, Text, codes}
use kokoro_scheduler.Domain.Identity.{are_name_bytes, is_valid_name}
use kokoro_scheduler.Cron.Calculator.{drop_prefix}
use kokoro_scheduler.Cron.Words.{split}
use kokoro_scheduler.Http.Routing.{route, parse_schedule_path}
use kokoro_scheduler.Http.Paths.{IsAction, schedule_path, parse_schedule_path_iff}

abbrev pause_path : Text
pause_path = codes "/internal/scheduler/v1/schedules/report/pause"

parse_schedule_path_iff_example :
    (parse_schedule_path pause_path ≡ some (codes "report", codes "pause")) ↔ (
      (is_valid_name (codes "report") ≡ true)
      × IsAction (codes "pause")
      × (pause_path ≡ schedule_path (codes "report") (codes "pause")))
parse_schedule_path_iff_example =
    parse_schedule_path_iff pause_path (codes "report") (codes "pause")

parse-pause_path : parse_schedule_path pause_path ≡ some (codes "report", codes "pause")
unfolding parse_schedule_path has_prefix route split drop_prefix is_valid_name are_name_bytes
    text_eq
parse-pause_path = refl
