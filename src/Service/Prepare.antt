-- ===== src/Service/Prepare.antt =====
-- internal/application/commands.go, `prepare`: the checks before a command touches the store, and
-- `Execute` from the command as it arrives.
use kokoro_scheduler.Store.Rows.{Db, CommandReceipt}
use kokoro_scheduler.Domain.Identity.{validate_tenant_id, is_valid_name}
use kokoro_scheduler.Domain.Time.{is_zero, Time}
use kokoro_scheduler.Cron.Words.{is_digit, trim_space}
use kokoro_scheduler.Domain.Schedule.{Schedule, is_exhausted}
use kokoro_scheduler.Recurrence.{Recurrence}
use kokoro_scheduler.Domain.Normalized.{Environment, normalized}
use kokoro_scheduler.Base.{
  ℕ, Bool, true, not, ◌&&◌, ◌||◌, [], ◌∷◌, if◌then◌else◌, ◌==◌, ltb, leb, Text, Result, ok, err,
  ◌>>=◌, ◌>>◌, fail_if, has_prefix, codes, length, map_error, invalid_command, join, is_empty,
}
use kokoro_scheduler.Cron.Calculator.{drop_prefix}
use kokoro_scheduler.Service.Command.{
  CommandOperation, Command, create, update, delete, pause, resume, execute,
}

abbrev pub is_hex : ℕ → Bool
is_hex c = is_digit c || (leb b'a' c && leb c b'f')

unfoldable pub are_hex : Text → Bool
are_hex [] = true
are_hex (c ∷ s) = is_hex c && are_hex s

-- `^sha256:[0-9a-f]{64}$`.
unfoldable pub is_digest : Text → Bool
is_digest s =
    has_prefix (codes "sha256:") s && length s == 71 && are_hex (drop_prefix (codes "sha256:") s)

unfoldable pub trimmed : Command → Command
trimmed c = record c {
  tenant_id = trim_space c.tenant_id;
  name = trim_space c.name;
  command_scope = trim_space c.command_scope;
  request_id = trim_space c.request_id;
}

module _ (env : Environment) (r : Recurrence) where
  -- A recurring schedule has a rule that the recurrence accepts.
  unfoldable pub check_recurring : Schedule → Result (Unit {0})
  check_recurring s =
      if is_zero s.run_at
      then map_error (join invalid_command) (r.validate s.rule s.timezone)
      else ok tt

  unfoldable pub prepare_schedule : Command → Result Command
  prepare_schedule c =
      let owned = record c.schedule { tenant_id = c.tenant_id; name = c.name } in
      map_error (join invalid_command) (normalized env owned) >>= λ s.
      (fail_if (is_exhausted s.status) invalid_command
        >> (check_recurring s >> ok (record c { schedule = s })))

  -- The `switch` on the operation.
  unfoldable pub prepare_operation : CommandOperation → Command → Result Command
  prepare_operation create c = prepare_schedule c
  prepare_operation update c = prepare_schedule c
  prepare_operation delete c = ok c
  prepare_operation pause c = ok c
  prepare_operation resume c = ok c
  prepare_operation (CommandOperation.other t) c = err invalid_command

  unfoldable pub check_command : Command → Result (Unit {0})
  check_command c = do
    map_error (join invalid_command) (validate_tenant_id c.tenant_id)
    fail_if (not (is_valid_name c.name)) invalid_command
    fail_if (is_empty c.command_scope || ltb 256 (length c.command_scope)) invalid_command
    fail_if (is_empty c.idempotency_key || ltb 256 (length c.idempotency_key)) invalid_command
    fail_if (is_empty c.request_id || ltb 128 (length c.request_id)) invalid_command
    fail_if (not (is_digest c.request_digest)) invalid_command

  -- `Service.prepare`.
  unfoldable pub prepare : Command → Result Command
  prepare command = let c = trimmed command in check_command c >> prepare_operation c.operation c

-- `Service.Execute`, with the readings of the clock when the command is applied and when its receipt
-- is written.
module _ (r : Recurrence) (uuid : ℕ → Text) (applied_at received_at : Time) where
  unfoldable pub run_prepared : Result Command → Db → Result CommandReceipt × Db
  run_prepared (err e) db = (err e, db)
  run_prepared (ok c) db = execute r uuid applied_at received_at c db

  unfoldable pub execute_command : Environment → Command → Db → Result CommandReceipt × Db
  execute_command env command = run_prepared (prepare env r command)
