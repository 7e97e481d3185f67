-- ===== src/Tests/Service.antt =====
-- The theorems on idempotent commands at a deletion that is sent twice.
use kokoro_scheduler.Base.{
  text_eq, ◌*◌, ◌≡◌, refl, ◌↔◌, Result, ok, err, codes, idempotency_conflict,
}
use kokoro_scheduler.Domain.Time.{normalize_instant, second}
use kokoro_scheduler.Store.Commands.{insert_command_receipt, delete_schedule, find_command_receipt}
use kokoro_scheduler.Store.Table.{exists_where, select_where, first_row}
use kokoro_scheduler.Service.Command.{
  delete_result, apply_delete, apply_operation, apply, execute_found, execute_tx, delete, pause,
  execute, Command, new_receipt, bare_result,
}
use kokoro_scheduler.Store.Rows.{within_tx, deleted, Db, CommandReceipt}
use kokoro_scheduler.Service.Idempotency.{execute-replay, execute-conflict}
use kokoro_scheduler.Tests.{patient, tenant, fire_each_second, numbered, report, claimed_db}
use kokoro_scheduler.Domain.Retry.{validate, IsValidPolicy, validate_iff}

abbrev delete_report : Command
delete_report = record {
  operation = delete;
  tenant_id = tenant;
  name = codes "report";
  command_scope = codes "api";
  idempotency_key = codes "key";
  request_digest = codes "digest";
  request_id = codes "request";
  schedule = report;
}

-- The same identity, with another digest.
abbrev pause_report : Command
pause_report = record {
  operation = pause;
  tenant_id = tenant;
  name = codes "report";
  command_scope = codes "api";
  idempotency_key = codes "key";
  request_digest = codes "another";
  request_id = codes "request";
  schedule = report;
}

abbrev deleted_receipt : CommandReceipt
deleted_receipt = new_receipt delete_report (16 * second) (bare_result deleted (codes "report"))

abbrev left : Result CommandReceipt × Db → Db
left r = r.1

abbrev deleted_db : Db
deleted_db =
    left (execute fire_each_second numbered (15 * second) (16 * second) delete_report claimed_db)

first_deletion :
    execute fire_each_second numbered (15 * second) (16 * second) delete_report claimed_db
    ≡ (ok deleted_receipt, deleted_db)
unfolding execute within_tx execute_tx execute_found find_command_receipt first_row select_where
    apply apply_operation apply_delete delete_result delete_schedule exists_where text_eq
    insert_command_receipt normalize_instant
first_deletion = refl

execute-replay_example :
    execute fire_each_second numbered (25 * second) (26 * second) delete_report deleted_db
    ≡ (ok deleted_receipt, deleted_db)
execute-replay_example =
    execute-replay fire_each_second numbered (15 * second) (16 * second) (25 * second) (26 * second)
      delete_report delete_report claimed_db first_deletion
      record { same_tenant = refl; same_scope = refl; same_key = refl } refl

execute-conflict_example :
    execute fire_each_second numbered (25 * second) (26 * second) pause_report deleted_db
    ≡ (err idempotency_conflict, deleted_db)
execute-conflict_example =
    execute-conflict fire_each_second numbered (15 * second) (16 * second) (25 * second)
      (26 * second) delete_report pause_report claimed_db first_deletion
      record { same_tenant = refl; same_scope = refl; same_key = refl } (λ e. cc)

validate_iff_example : (validate patient ≡ ok tt) ↔ IsValidPolicy patient
validate_iff_example = validate_iff patient
