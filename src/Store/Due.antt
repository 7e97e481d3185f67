-- ===== src/Store/Due.antt =====
-- internal/adapters/postgres/due.go: claiming due schedules, recording occurrences and dispatches,
-- and moving a schedule on. `uuid n` is the n-th identifier of `gen_random_uuid()`.
use kokoro_scheduler.Store.Outbox.{is_owned_by}
use kokoro_scheduler.Store.Table.{select_where, exists_where, order_by, update_where}
use kokoro_scheduler.Store.Scan.{nullable_code, nullable_instant, scan_schedule}
use kokoro_scheduler.Store.Rows.{ScheduleRow, OccurrenceRow, OutboxRow, Db, Tx}
use kokoro_scheduler.Domain.Time.{Time, is_zero}
use kokoro_scheduler.Base.{
  ℕ, suc, ◌+◌, Bool, true, false, not, ◌&&◌, ◌||◌, Option, none, some, List, [], ◌∷◌, map,
  if◌then◌else◌, ◌==◌, ltb, leb, Text, ok, ◌>>◌, fail_if, take, text_eq, text_lt, count_if,
  claim_lost,
}
use kokoro_scheduler.Domain.Schedule.{exhausted, Schedule, is_active}
use kokoro_scheduler.Domain.Occurrence.{
  OccurrenceStatus, pending, dispatching, retrying, OccurrencePlan,
}

-- `next_due_at <= now`; NULL is never due.
abbrev pub is_due_at : Option Time → Time → Bool
is_due_at none now = false
is_due_at (some t) now = leb t now

-- `claim_expires_at IS NULL OR claim_expires_at <= now`.
abbrev pub is_claimable : Option Time → Time → Bool
is_claimable none now = true
is_claimable (some t) now = leb t now

unfoldable pub is_claimable_due : Time → ScheduleRow → Bool
is_claimable_due now row =
    is_active row.status && is_due_at row.next_due_at now && is_claimable row.claim_expires_at now

-- `ORDER BY next_due_at, id`, with NULL last.
abbrev pub due_before : ScheduleRow → ScheduleRow → Bool
due_before a b = elim a.next_due_at [
  | none ↦ elim b.next_due_at [ none ↦ text_lt a.id b.id | some u ↦ false ]
  | some t ↦ elim b.next_due_at [ none ↦ true | some u ↦ ltb t u || (t == u && text_lt a.id b.id) ]
]

unfoldable pub schedule_among : Text → List ScheduleRow → Bool
schedule_among id [] = false
schedule_among id (row ∷ rows) = text_eq row.id id || schedule_among id rows

unfoldable pub due_candidates :
    (locked : Text → Bool) → Time → ℕ → List ScheduleRow → List ScheduleRow
due_candidates locked now limit rows = take limit (
    order_by due_before
      (select_where (λ row. is_claimable_due now row && not (locked row.id)) rows))

unfoldable pub claim_schedule : Time → Text → Time → ScheduleRow → ScheduleRow
claim_schedule now worker expires row = record row {
  claim_owner = some worker;
  claim_expires_at = some expires;
  updated_at = now;
}

unfoldable pub claim_due_schedules :
    (locked : Text → Bool) → Time → Text → Time → ℕ → Tx (List Schedule)
claim_due_schedules locked now worker expires limit db =
    let candidates = due_candidates locked now limit db.schedules in
    let chosen = λ (row : ScheduleRow). schedule_among row.id candidates in
    ok (
      map (λ row. scan_schedule (claim_schedule now worker expires row))
          (select_where chosen db.schedules),
      record db {
        schedules = update_where chosen (claim_schedule now worker expires) db.schedules;
      },
    )

-- `status IN ('pending', 'dispatching', 'retrying')`.
abbrev pub is_open : OccurrenceStatus → Bool
is_open pending = true
is_open dispatching = true
is_open retrying = true
is_open _ = false

abbrev pub is_open_for : Text → Text → OccurrenceRow → Bool
is_open_for tenant_id schedule_id row =
    text_eq row.tenant_id tenant_id && text_eq row.schedule_id schedule_id && is_open row.status

unfoldable pub has_open_occurrence : Text → Text → Db → Bool
has_open_occurrence tenant_id schedule_id db =
    exists_where (is_open_for tenant_id schedule_id) db.occurrences

-- The unique key of an occurrence.
abbrev pub is_occurrence_at : Schedule → Time → OccurrenceRow → Bool
is_occurrence_at schedule at row =
    text_eq row.tenant_id schedule.tenant_id
    && text_eq row.schedule_id schedule.id
    && row.scheduled_at == at

-- An occurrence that is not open is complete when it is recorded.
abbrev pub completed_at_insert : OccurrencePlan → Option Time
completed_at_insert plan = if is_open plan.status then none else some plan.observed_at

unfoldable pub new_occurrence : Text → Schedule → OccurrencePlan → OccurrenceRow
new_occurrence id schedule plan = record {
  id = id;
  tenant_id = schedule.tenant_id;
  schedule_id = schedule.id;
  schedule_name = schedule.name;
  scheduled_at = plan.scheduled_at;
  observed_at = plan.observed_at;
  status = plan.status;
  outcome_code = nullable_code plan.outcome_code;
  missed_count = plan.missed_count;
  attempt_count = 0;
  last_http_status = none;
  last_error_code = none;
  last_error_message = none;
  created_at = plan.observed_at;
  updated_at = plan.observed_at;
  completed_at = completed_at_insert plan;
}

unfoldable pub new_dispatch : Text → Schedule → Text → OccurrencePlan → OutboxRow
new_dispatch id schedule occurrence_id plan = record {
  id = id;
  tenant_id = schedule.tenant_id;
  occurrence_id = occurrence_id;
  schedule_id = schedule.id;
  schedule_name = schedule.name;
  scheduled_at = plan.scheduled_at;
  target_url = schedule.target_url;
  target_method = schedule.method;
  payload = schedule.payload;
  status = pending;
  attempt_count = 0;
  retry = schedule.retry;
  next_attempt_at = plan.observed_at;
  first_attempt_at = none;
  claim_owner = none;
  claim_expires_at = none;
  last_http_status = none;
  last_error_code = none;
  last_error_message = none;
  created_at = plan.observed_at;
  updated_at = plan.observed_at;
  completed_at = none;
}

module _ (uuid : ℕ → Text) where
  -- `ON CONFLICT (tenant_id, schedule_id, scheduled_at) DO NOTHING`: `none` if nothing was inserted.
  unfoldable pub insert_occurrence : Schedule → OccurrencePlan → Tx (Option Text)
  insert_occurrence schedule plan db =
      if exists_where (is_occurrence_at schedule plan.scheduled_at) db.occurrences
      then ok (none, db)
      else ok (
        some (uuid db.issued),
        record db {
          occurrences = new_occurrence (uuid db.issued) schedule plan ∷ db.occurrences;
          issued = suc db.issued;
        },
      )

  -- `ON CONFLICT (tenant_id, occurrence_id) DO NOTHING`.
  unfoldable pub insert_dispatch_outbox : Schedule → Text → OccurrencePlan → Tx (Unit {0})
  insert_dispatch_outbox schedule occurrence_id plan db =
      if exists_where
        (λ row. text_eq row.tenant_id schedule.tenant_id && text_eq row.occurrence_id occurrence_id)
        db.outbox
      then ok (tt, db)
      else ok (
        tt,
        record db {
          outbox = new_dispatch (uuid db.issued) schedule occurrence_id plan ∷ db.outbox;
          issued = suc db.issued;
        },
      )

-- `WHERE tenant_id AND id AND version AND claim_owner`.
unfoldable pub is_claimed_version : Schedule → Text → ScheduleRow → Bool
is_claimed_version schedule worker row =
    text_eq row.tenant_id schedule.tenant_id
    && text_eq row.id schedule.id
    && row.version == schedule.version
    && is_owned_by row.claim_owner worker

unfoldable pub advance_row : Time → Time → ScheduleRow → ScheduleRow
advance_row next_due_at now row = record row {
  next_due_at = nullable_instant next_due_at;
  status = if is_zero next_due_at then exhausted else row.status;
  claim_owner = none;
  claim_expires_at = none;
  version = row.version + 1;
  updated_at = now;
}

-- `RowsAffected() != 1` is a lost claim.
unfoldable pub update_schedule_row :
    (ScheduleRow → Bool) → (ScheduleRow → ScheduleRow) → Tx (Unit {0})
update_schedule_row p f db =
    fail_if (not (count_if p db.schedules == 1)) claim_lost
    >> ok (tt, record db { schedules = update_where p f db.schedules })

unfoldable pub advance_schedule : Schedule → Text → Time → Time → Tx (Unit {0})
advance_schedule schedule worker next_due_at now =
    update_schedule_row (is_claimed_version schedule worker) (advance_row next_due_at now)

unfoldable pub is_claimed : Schedule → Text → ScheduleRow → Bool
is_claimed schedule worker row =
    text_eq row.tenant_id schedule.tenant_id
    && text_eq row.id schedule.id
    && is_owned_by row.claim_owner worker

unfoldable pub release_schedule_claim : Schedule → Text → Time → Tx (Unit {0})
release_schedule_claim schedule worker now =
    update_schedule_row (is_claimed schedule worker)
      (λ row. record row { claim_owner = none; claim_expires_at = none; updated_at = now })
