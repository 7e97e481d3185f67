-- ===== src/Store/Rows.antt =====
-- database/schema.sql: the rows of the four tables. A nullable column is an `Option`; the columns of
-- a retry policy are one field. A `uuid` is the text that the store reads it as.
use kokoro_scheduler.Base.{
  ◌≡◌, refl, ap, ◌∙◌, ok-injective, ℕ, Option, List, Text, Result, ok, err, ℤ,
}
use kokoro_scheduler.Domain.Occurrence.{OccurrenceStatus, Code}
use kokoro_scheduler.Domain.Retry.{RetryPolicy}
use kokoro_scheduler.Domain.Time.{Time}
use kokoro_scheduler.Domain.Schedule.{
  Schedule, Method, ScheduleStatus, MisfirePolicy, OverlapPolicy,
}

pub record ScheduleRow : Type 0 where
  pub id : Text
  pub tenant_id : Text
  pub name : Text
  pub schedule_rule : Option Text
  pub run_at : Option Time
  pub timezone : Text
  pub target_url : Text
  pub target_method : Method
  pub payload : Text
  pub status : ScheduleStatus
  pub misfire_policy : MisfirePolicy
  pub catch_up_limit : ℤ
  pub overlap_policy : OverlapPolicy
  pub retry : RetryPolicy
  pub next_due_at : Option Time
  pub claim_owner : Option Text
  pub claim_expires_at : Option Time
  pub version : ℕ
  pub created_at : Time
  pub updated_at : Time

pub record OccurrenceRow : Type 0 where
  pub id : Text
  pub tenant_id : Text
  pub schedule_id : Text
  pub schedule_name : Text
  pub scheduled_at : Time
  pub observed_at : Time
  pub status : OccurrenceStatus
  pub outcome_code : Option Code
  pub missed_count : ℕ
  pub attempt_count : ℕ
  pub last_http_status : Option ℕ
  pub last_error_code : Option Code
  pub last_error_message : Option Text
  pub created_at : Time
  pub updated_at : Time
  pub completed_at : Option Time

pub record OutboxRow : Type 0 where
  pub id : Text
  pub tenant_id : Text
  pub occurrence_id : Text
  pub schedule_id : Text
  pub schedule_name : Text
  pub scheduled_at : Time
  pub target_url : Text
  pub target_method : Method
  pub payload : Text
  pub status : OccurrenceStatus
  pub attempt_count : ℕ
  pub retry : RetryPolicy
  pub next_attempt_at : Time
  pub first_attempt_at : Option Time
  pub claim_owner : Option Text
  pub claim_expires_at : Option Time
  pub last_http_status : Option ℕ
  pub last_error_code : Option Code
  pub last_error_message : Option Text
  pub created_at : Time
  pub updated_at : Time
  pub completed_at : Option Time

-- The command results of internal/domain/command.go.
pub data ResultCode : Type 0 where
  registered updated deleted paused_result resumed already_exists : ResultCode
  not_found exhausted_result changed : ResultCode

pub record CommandResult : Type 0 where
  pub code : ResultCode
  pub name : Text
  pub schedule : Option Schedule

-- A row of scheduler_command_receipt, which is the value `CommandReceipt`.
pub record CommandReceipt : Type 0 where
  pub tenant_id : Text
  pub command_scope : Text
  pub idempotency_key : Text
  pub request_digest : Text
  pub request_id : Text
  pub result : CommandResult
  pub created_at : Time

-- The database, and how many identifiers `gen_random_uuid()` has given out.
pub record Db : Type 0 where
  pub schedules : List ScheduleRow
  pub occurrences : List OccurrenceRow
  pub outbox : List OutboxRow
  pub receipts : List CommandReceipt
  pub issued : ℕ

-- A statement in a transaction: it fails, or gives a result and the new tables.
abbrev pub Tx : Type 0 → Type 0
Tx A = Db → Result (A × Db)

-- `WithinTx`: an error rolls the transaction back.
unfoldable pub within_tx : {A : Type 0} → Tx A → Db → Result A × Db
within_tx run db = elim (run db) [ ok (a, db') ↦ (ok a, db') | err e ↦ (err e, db) ]

-- A transaction that succeeded ran to its end.
pub within_tx-ok :
    {A : Type 0} (run : Tx A) (db : Db) {a : A} {db' : Db}
    → within_tx run db ≡ (ok a, db')
    → run db ≡ ok (a, db')
unfolding within_tx
within_tx-ok {A} run db {a} {db'} h = committed (run db) refl
  where
    committed : (out : Result (A × Db)) → run db ≡ out → run db ≡ ok (a, db')
    committed (ok (a₁, db₁)) e =
        let h' : ◌≡◌ {A = Result A × Db} (ok a₁, db₁) (ok a, db') = rw (e, within_tx) at h in
        e ∙ (λ i. ok (ok-injective (ap (λ (o : Result A × Db). o.0) h') i, (h' i).1))
    committed (err x) e =
        let h' : ◌≡◌ {A = Result A × Db} (err x, db) (ok a, db') = rw (e, within_tx) at h in
        cc (ap (λ (o : Result A × Db). o.0) h')

-- What holds before, and after each success, holds after a transaction.
pub within_tx-keeps :
    {A : Type 0} (P : Db → Type 0) (run : Tx A) (db : Db)
    → P db
    → ((a : A) (db' : Db) → run db ≡ ok (a, db') → P db')
    → P (within_tx run db).1
unfolding within_tx
within_tx-keeps {A} P run db before ran = ended (run db) refl
  where
    ended : (out : Result (A × Db)) → run db ≡ out → P (within_tx run db).1
    ended (ok (a, db')) e = rw (e, within_tx) (ran a db' e)
    ended (err x) e = rw (e, within_tx) before
