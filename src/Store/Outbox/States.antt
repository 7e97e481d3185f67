-- ===== src/Store/Outbox/States.antt =====
-- The state machine of a dispatch: what one row of the outbox may turn into.
use kokoro_scheduler.Store.Outbox.{
  is_dispatching, settle_row, is_waiting, begin_row, fail_stranded, claim_row, is_held, is_ready,
  can_begin, is_stranded, Transition,
}
use kokoro_scheduler.Domain.Time.{Time}
use kokoro_scheduler.Store.Rows.{OutboxRow}
use kokoro_scheduler.Domain.Occurrence.{
  OccurrenceStatus, pending, dispatching, retrying, succeeded, failed, skipped, DispatchWork,
}
use kokoro_scheduler.Base.{◌+◌, ◌≤◌, ◌≡◌, refl, sym, subst, Bool, true, false, some, arith, Text}

abbrev pub is_final : OccurrenceStatus → Bool
is_final succeeded = true
is_final failed = true
is_final _ = false

-- The transitions of an outbox row.
abbrev pub is_legal : OccurrenceStatus → OccurrenceStatus → Bool
is_legal pending pending = true
is_legal pending dispatching = true
is_legal retrying retrying = true
is_legal retrying dispatching = true
is_legal dispatching dispatching = true
is_legal dispatching retrying = true
is_legal dispatching succeeded = true
is_legal dispatching failed = true
is_legal succeeded succeeded = true
is_legal failed failed = true
is_legal skipped skipped = true
is_legal _ _ = false

-- A row keeps its identity, goes through a legal transition, gains one attempt at most, keeps the
-- instant of its first attempt, and does not change at all once it is final.
pub record Evolves (a b : OutboxRow) : Type 0 where
  pub same_id : b.id ≡ a.id
  pub same_tenant : b.tenant_id ≡ a.tenant_id
  pub same_occurrence : b.occurrence_id ≡ a.occurrence_id
  pub same_policy : b.retry ≡ a.retry
  pub legal : is_legal a.status b.status ≡ true
  pub attempts_kept : a.attempt_count ≤ b.attempt_count
  pub attempts_gained : b.attempt_count ≤ a.attempt_count + 1
  pub started_kept : (t : Time) → a.first_attempt_at ≡ some t → b.first_attempt_at ≡ some t
  pub frozen : is_final a.status ≡ true → b ≡ a

pub legal_refl : (s : OccurrenceStatus) → is_legal s s ≡ true
legal_refl pending = refl
legal_refl dispatching = refl
legal_refl retrying = refl
legal_refl succeeded = refl
legal_refl failed = refl
legal_refl skipped = refl

pub Evolves-refl : (a : OutboxRow) → Evolves a a
Evolves-refl a = record {
  same_id = refl;
  same_tenant = refl;
  same_occurrence = refl;
  same_policy = refl;
  legal = legal_refl a.status;
  attempts_kept = omega arith;
  attempts_gained = omega arith;
  started_kept = λ t h. h;
  frozen = λ h. refl;
}

-- A row that is not final, given the fields that an assignment touches.
Evolves-open :
    (a b : OutboxRow)
    → b.id ≡ a.id
    → b.tenant_id ≡ a.tenant_id
    → b.occurrence_id ≡ a.occurrence_id
    → b.retry ≡ a.retry
    → is_legal a.status b.status ≡ true
    → is_final a.status ≡ false
    → (a.attempt_count ≤ b.attempt_count) × (b.attempt_count ≤ a.attempt_count + 1)
    → ((t : Time) → a.first_attempt_at ≡ some t → b.first_attempt_at ≡ some t)
    → Evolves a b
Evolves-open a b i t o r l f n s = record {
  same_id = i;
  same_tenant = t;
  same_occurrence = o;
  same_policy = r;
  legal = l;
  attempts_kept = n.0;
  attempts_gained = n.1;
  started_kept = s;
  frozen = λ h. cc;
}

pub dispatching_open :
    (s : OccurrenceStatus)
    → is_dispatching s ≡ true
    → (is_final s ≡ false)
      × (is_legal s dispatching ≡ true)
      × (is_legal s retrying ≡ true)
      × (is_legal s succeeded ≡ true)
      × (is_legal s failed ≡ true)
dispatching_open s h = ground arith

pub waiting_open :
    (s : OccurrenceStatus)
    → is_waiting s ≡ true
    → (is_final s ≡ false) × (is_legal s dispatching ≡ true)
waiting_open s h = ground arith

pub fail_stranded-Evolves :
    (now : Time) (row : OutboxRow)
    → is_stranded now row ≡ true
    → Evolves row (fail_stranded now row)
unfolding fail_stranded is_stranded
fail_stranded-Evolves now row h =
    let s = dispatching_open row.status (ground arith) in
    Evolves-open row _ refl refl refl refl s.4 s.0 (omega arith, omega arith) (λ t e. e)

pub claim_row-Evolves :
    (now : Time) (worker : Text) (expires : Time) (row : OutboxRow)
    → is_ready now row ≡ true
    → Evolves row (claim_row now worker expires row)
unfolding claim_row is_ready
claim_row-Evolves now worker expires row h =
    let s : (is_final row.status ≡ false) × (is_legal row.status dispatching ≡ true) =
      ground (arith, waiting_open row.status, dispatching_open row.status) in
    Evolves-open row _ refl refl refl refl s.1 s.0 (omega arith, omega arith) (λ t e. e)

pub begin_row-Evolves :
    (work : DispatchWork) (worker : Text) (now : Time) (row : OutboxRow)
    → can_begin work worker now row ≡ true
    → Evolves row (begin_row now row)
unfolding begin_row can_begin is_held
begin_row-Evolves work worker now row h =
    let s = dispatching_open row.status (ground arith) in
    Evolves-open row _ refl refl refl refl (legal_refl row.status) s.0 (omega arith, omega arith)
      (λ t e. ground arith)

pub settle_row-Evolves :
    (work : DispatchWork) (worker : Text) (t : Transition) (row : OutboxRow)
    → is_legal dispatching t.outbox_status ≡ true
    → is_held work worker row ≡ true
    → Evolves row (settle_row t row)
unfolding settle_row is_held
settle_row-Evolves work worker t row legal h =
    let e : row.status ≡ dispatching = ground arith in
    Evolves-open row _ refl refl refl refl
      (subst (λ s. is_legal s t.outbox_status ≡ true) (sym e) legal) (ground arith)
      (omega arith, omega arith) (λ u k. k)
