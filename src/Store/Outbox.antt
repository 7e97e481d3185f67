-- ===== src/Store/Outbox.antt =====
-- internal/adapters/postgres/outbox.go: the life of a dispatch in the outbox, together with the
-- occurrence that it is for.
pub mod States
pub mod Consistent
pub mod Identity
pub mod Steps
pub mod History
pub mod Claims
use kokoro_scheduler.Store.Scan.{nullable_string, nullable_code, scan_dispatch, nullable_status}
use kokoro_scheduler.Dispatcher.Decision.{bounded_error}
use kokoro_scheduler.Domain.Occurrence.{
  OccurrenceStatus, failed, Code, dispatching, DispatchResult, DispatchWork, pending,
  dispatch_recovery_exhausted, retrying, succeeded,
}
use kokoro_scheduler.Store.Table.{order_by, select_where, update_where, first_row}
use kokoro_scheduler.Store.Rows.{Tx, OutboxRow, OccurrenceRow, Db}
use kokoro_scheduler.Domain.Time.{Time, is_zero}
use kokoro_scheduler.Base.{
  ℕ, ◌+◌, Bool, true, false, not, ◌&&◌, ◌||◌, Option, none, some, List, [], ◌∷◌, map, if◌then◌else◌,
  ◌==◌, ltb, leb, Text, Result, ok, err, ◌>>=◌, ◌>>◌, fail_if, pos, text_eq, codes, ltb_ℤ, text_lt,
  take, count_if, claim_lost,
}

abbrev pub is_dispatching : OccurrenceStatus → Bool
is_dispatching dispatching = true
is_dispatching _ = false

-- `status IN ('pending', 'retrying')`.
abbrev pub is_waiting : OccurrenceStatus → Bool
is_waiting pending = true
is_waiting retrying = true
is_waiting _ = false

-- `claim_expires_at <= now`, which is not true of NULL.
abbrev pub has_expired : Option Time → Time → Bool
has_expired none now = false
has_expired (some t) now = leb t now

abbrev pub outlasts : Option Time → Time → Bool
outlasts none now = false
outlasts (some t) now = ltb now t

abbrev pub is_owned_by : Option Text → Text → Bool
is_owned_by none worker = false
is_owned_by (some owner) worker = text_eq owner worker

abbrev pub has_attempts_left : OutboxRow → Bool
has_attempts_left row = ltb_ℤ (pos row.attempt_count) row.retry.max_attempts

-- `UPDATE scheduler_occurrence … WHERE tenant_id = $1 AND id = $2`.
abbrev pub is_occurrence : Text → Text → OccurrenceRow → Bool
is_occurrence tenant_id id row = text_eq row.tenant_id tenant_id && text_eq row.id id

-- The condition of the `exhausted` part of `RecoverExhaustedDispatches`.
unfoldable pub is_stranded : Time → OutboxRow → Bool
is_stranded now row =
    is_dispatching row.status && has_expired row.claim_expires_at now && not (has_attempts_left row)

abbrev pub recovery_message : Text
recovery_message = codes "worker claim expired after final dispatch attempt"

unfoldable pub fail_stranded : Time → OutboxRow → OutboxRow
fail_stranded now row = record row {
  status = failed;
  next_attempt_at = now;
  claim_owner = none;
  claim_expires_at = none;
  last_error_code = some dispatch_recovery_exhausted;
  last_error_message = some recovery_message;
  completed_at = some now;
  updated_at = now;
}

unfoldable pub fail_occurrence : Time → ℕ → OccurrenceRow → OccurrenceRow
fail_occurrence now attempts row = record row {
  status = failed;
  outcome_code = some dispatch_recovery_exhausted;
  attempt_count = attempts;
  last_error_code = some dispatch_recovery_exhausted;
  last_error_message = some recovery_message;
  completed_at = some now;
  updated_at = now;
}

-- The join of the occurrences with the rows that were failed.
unfoldable pub fail_occurrences : Time → List OutboxRow → List OccurrenceRow → List OccurrenceRow
fail_occurrences now [] occurrences = occurrences
fail_occurrences now (row ∷ rows) occurrences =
    update_where (is_occurrence row.tenant_id row.occurrence_id)
      (fail_occurrence now row.attempt_count) (fail_occurrences now rows occurrences)

unfoldable pub recover_exhausted_dispatches : Time → Tx (Unit {0})
recover_exhausted_dispatches now db = ok (
  tt,
  record db {
    outbox = update_where (is_stranded now) (fail_stranded now) db.outbox;
    occurrences = fail_occurrences now (select_where (is_stranded now) db.outbox) db.occurrences;
  },
)

-- The condition of the candidates of `ClaimDispatches`.
unfoldable pub is_ready : Time → OutboxRow → Bool
is_ready now row =
    has_attempts_left row
    && ((is_waiting row.status && leb row.next_attempt_at now)
        || (is_dispatching row.status && has_expired row.claim_expires_at now))

unfoldable pub claim_row : Time → Text → Time → OutboxRow → OutboxRow
claim_row now worker expires row = record row {
  status = dispatching;
  claim_owner = some worker;
  claim_expires_at = some expires;
  updated_at = now;
}

-- `ORDER BY next_attempt_at, id`.
abbrev pub dispatch_before : OutboxRow → OutboxRow → Bool
dispatch_before a b =
    ltb a.next_attempt_at b.next_attempt_at
    || (a.next_attempt_at == b.next_attempt_at && text_lt a.id b.id)

-- `id IN (SELECT id FROM candidates)`.
unfoldable pub id_among : Text → List OutboxRow → Bool
id_among id [] = false
id_among id (row ∷ rows) = text_eq row.id id || id_among id rows

-- `FOR UPDATE SKIP LOCKED`: rows that other transactions hold are passed over; `locked` tells them.
unfoldable pub dispatch_candidates :
    (locked : Text → Bool) → Time → ℕ → List OutboxRow → List OutboxRow
dispatch_candidates locked now limit rows =
    take limit (
      order_by dispatch_before (select_where (λ row. is_ready now row && not (locked row.id)) rows))

unfoldable pub claim_dispatches :
    (locked : Text → Bool) → Time → Text → Time → ℕ → Tx (List DispatchWork)
claim_dispatches locked now worker expires limit db =
    let candidates = dispatch_candidates locked now limit db.outbox in
    let chosen = λ (row : OutboxRow). id_among row.id candidates in
    ok (
      map (λ row. scan_dispatch (claim_row now worker expires row)) (select_where chosen db.outbox),
      record db { outbox = update_where chosen (claim_row now worker expires) db.outbox },
    )

-- `tenant_id = $1 AND id = $2 AND claim_owner = $3 AND status = 'dispatching'`.
unfoldable pub is_held : DispatchWork → Text → OutboxRow → Bool
is_held work worker row =
    text_eq row.tenant_id work.tenant_id
    && text_eq row.id work.id
    && is_owned_by row.claim_owner worker
    && is_dispatching row.status

-- The condition of `BeginDispatch`: the claim also lasts, and an attempt is left.
unfoldable pub can_begin : DispatchWork → Text → Time → OutboxRow → Bool
can_begin work worker now row =
    is_held work worker row && outlasts row.claim_expires_at now && has_attempts_left row

abbrev pub or_else : Option Time → Time → Option Time
or_else none now = some now
or_else (some t) now = some t

unfoldable pub begin_row : Time → OutboxRow → OutboxRow
begin_row now row = record row {
  attempt_count = row.attempt_count + 1;
  first_attempt_at = or_else row.first_attempt_at now;
  updated_at = now;
}

-- `RowsAffected() != 1` is a lost claim.
unfoldable pub update_occurrence : Text → Text → (OccurrenceRow → OccurrenceRow) → Db → Result Db
update_occurrence tenant_id id f db =
    fail_if (not (count_if (is_occurrence tenant_id id) db.occurrences == 1)) claim_lost
    >> ok (record db { occurrences = update_where (is_occurrence tenant_id id) f db.occurrences })

-- What follows the update of the outbox row in `BeginDispatch`.
unfoldable pub begin_found : DispatchWork → Text → Time → Option OutboxRow → Tx DispatchWork
begin_found work worker now none db = err claim_lost
begin_found work worker now (some row) db =
    let started = scan_dispatch (begin_row now row) in
    update_occurrence started.tenant_id started.occurrence_id
      (λ o. record o {
        status = dispatching;
        attempt_count = started.attempt_count;
        updated_at = now;
      })
      (record db { outbox = update_where (can_begin work worker now) (begin_row now) db.outbox })
    >>= λ db'. ok (started, db')

unfoldable pub begin_dispatch : DispatchWork → Text → Time → Tx DispatchWork
begin_dispatch work worker now db =
    begin_found work worker now (first_row (select_where (can_begin work worker now) db.outbox)) db

-- The columns that `transitionDispatch` writes to both tables.
pub record Transition : Type 0 where
  pub outbox_status : OccurrenceStatus
  pub occurrence_status : OccurrenceStatus
  pub http_status : ℕ
  pub code : Code
  pub message : Text
  pub next_attempt_at : Time
  pub completed_at : Time
  pub now : Time

abbrev pub completed : Time → Option Time
completed t = if is_zero t then none else some t

unfoldable pub settle_row : Transition → OutboxRow → OutboxRow
settle_row t row = record row {
  status = t.outbox_status;
  next_attempt_at = t.next_attempt_at;
  claim_owner = none;
  claim_expires_at = none;
  last_http_status = nullable_status t.http_status;
  last_error_code = nullable_code t.code;
  last_error_message = nullable_string t.message;
  completed_at = completed t.completed_at;
  updated_at = t.now;
}

unfoldable pub settle_occurrence : Transition → ℕ → OccurrenceRow → OccurrenceRow
settle_occurrence t attempts row = record row {
  status = t.occurrence_status;
  outcome_code = nullable_code t.code;
  attempt_count = attempts;
  last_http_status = nullable_status t.http_status;
  last_error_code = nullable_code t.code;
  last_error_message = nullable_string t.message;
  completed_at = completed t.completed_at;
  updated_at = t.now;
}

-- `transitionDispatch`. The schema refuses an HTTP status outside 100 to 599, so that the real
-- statement fails on one; here the row is settled with it, which only allows more behaviours.
unfoldable pub transition_dispatch : DispatchWork → Text → Transition → Tx (Unit {0})
transition_dispatch work worker t db =
    fail_if (not (count_if (is_held work worker) db.outbox == 1)) claim_lost
    >> update_occurrence work.tenant_id work.occurrence_id (settle_occurrence t work.attempt_count)
        (record db { outbox = update_where (is_held work worker) (settle_row t) db.outbox })
    >>= λ db'. ok (tt, db')

-- A transition of a result: both tables take the same status.
abbrev pub result_transition : OccurrenceStatus → DispatchResult → Time → Time → Time → Transition
result_transition status result next_attempt_at completed_at now = record {
  outbox_status = status;
  occurrence_status = status;
  http_status = result.status;
  code = result.code;
  message = bounded_error result.error;
  next_attempt_at = next_attempt_at;
  completed_at = completed_at;
  now = now;
}

unfoldable pub defer_dispatch : DispatchWork → Text → Time → Code → Text → Time → Tx (Unit {0})
defer_dispatch work worker next_attempt_at code message now =
    transition_dispatch work worker (record {
      outbox_status = retrying;
      occurrence_status = retrying;
      http_status = 0;
      code = code;
      message = bounded_error (nullable_string message);
      next_attempt_at = next_attempt_at;
      completed_at = 0;
      now = now;
    })

unfoldable pub complete_dispatch : DispatchWork → Text → DispatchResult → Time → Tx (Unit {0})
complete_dispatch work worker result now =
    transition_dispatch work worker (result_transition succeeded result now now now)

unfoldable pub retry_dispatch : DispatchWork → Text → DispatchResult → Time → Time → Tx (Unit {0})
retry_dispatch work worker result next_attempt_at now =
    transition_dispatch work worker (result_transition retrying result next_attempt_at 0 now)

unfoldable pub fail_dispatch : DispatchWork → Text → DispatchResult → Time → Tx (Unit {0})
fail_dispatch work worker result now =
    transition_dispatch work worker (result_transition failed result now now now)
