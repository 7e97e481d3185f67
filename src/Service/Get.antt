-- ===== src/Service/Get.antt =====
-- internal/application/commands.go, `Get`: the lookup of one schedule.
use kokoro_scheduler.Store.Commands.{get_schedule}
use kokoro_scheduler.Domain.Identity.{validate_tenant_id, is_valid_name}
use kokoro_scheduler.Domain.Schedule.{Schedule}
use kokoro_scheduler.Store.Rows.{Db}
use kokoro_scheduler.Base.{not, Text, Result, ◌>>◌, fail_if, map_error, join, invalid_command}

unfoldable pub get : Text → Text → Db → Result Schedule
get tenant_id name db =
    map_error (join invalid_command) (validate_tenant_id tenant_id)
    >> (fail_if (not (is_valid_name name)) invalid_command >> get_schedule tenant_id name db)
