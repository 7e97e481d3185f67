-- ===== src/Http/Routing.antt =====
-- internal/transport/http/routing.go, and `operationFor` of handler.go. Methods, header values and
-- paths are ASCII.
use kokoro_scheduler.Base.{
  Bool, not, ◌&&◌, ◌||◌, Option, none, some, List, [], ◌∷◌, if◌then◌else◌, ltb, Text, codes,
  text_eq, is_empty, has_prefix, length,
}
use kokoro_scheduler.Service.Command.{CommandOperation, create, update, delete, pause, resume}
use kokoro_scheduler.Cron.Calculator.{drop_prefix}
use kokoro_scheduler.Cron.Words.{split}
use kokoro_scheduler.Domain.Identity.{is_valid_name, has_control}

abbrev pub schedules_path_prefix : Text
schedules_path_prefix = codes "/internal/scheduler/v1/schedules/"

abbrev pub is_action : Text → Bool
is_action action = text_eq action (codes "pause") || text_eq action (codes "resume")

-- The parts of a path behind the prefix: a schedule's name, and an action or none.
unfoldable pub route : List Text → Option (Text × Text)
route [] = none
route (name ∷ []) = if is_valid_name name then some (name, []) else none
route (name ∷ action ∷ []) =
    if is_valid_name name && is_action action then some (name, action) else none
route (name ∷ action ∷ more ∷ rest) = none

-- `parseSchedulePath`.
unfoldable pub parse_schedule_path : Text → Option (Text × Text)
parse_schedule_path path =
    if has_prefix schedules_path_prefix path
    then route (split (drop_prefix schedules_path_prefix path) b'/')
    else none

unfoldable pub supported_method : Text → Text → Bool
supported_method method action =
    if is_empty action
    then text_eq method (codes "GET")
      || text_eq method (codes "POST")
      || text_eq method (codes "PUT")
      || text_eq method (codes "DELETE")
    else text_eq method (codes "POST")

unfoldable pub allowed_methods : Text → Text
allowed_methods action = if is_empty action then codes "GET, POST, PUT, DELETE" else codes "POST"

-- `validateRequestID` and `validateIdempotencyKey`: whether there is no error.
unfoldable pub is_request_id : Text → Bool
is_request_id id = not (is_empty id || ltb 128 (length id) || has_control id)

unfoldable pub is_idempotency_key : Text → Bool
is_idempotency_key key = not (is_empty key || ltb 256 (length key) || has_control key)

-- `operationFor`.
unfoldable pub operation_for : Text → Text → CommandOperation
operation_for method action =
    if text_eq action (codes "pause")
    then pause
    else if text_eq action (codes "resume")
    then resume
    else if text_eq method (codes "POST")
    then create
    else if text_eq method (codes "PUT")
    then update
    else if text_eq method (codes "DELETE")
    then delete
    else CommandOperation.other []
