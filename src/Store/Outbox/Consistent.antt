-- ===== src/Store/Outbox/Consistent.antt =====
-- The CHECK constraints of scheduler_dispatch_outbox on the claim, the completion, the policy and the
-- attempts of one row, and what keeps them. Those on the tenant, the target, the payload and the HTTP
-- status are not among them.
use kokoro_scheduler.Base.{is_some, ◌≡◌, refl, sym, ◌∙◌, Bool, true, false, arith, Text, pos, ◌≤ℤ◌}
use kokoro_scheduler.Domain.Retry.{IsValidPolicy}
use kokoro_scheduler.Store.Outbox.States.{is_final, waiting_open, is_legal, dispatching_open}
use kokoro_scheduler.Store.Outbox.{
  Transition, claim_row, settle_row, begin_row, completed, fail_stranded, Time, is_ready, can_begin,
  is_dispatching,
}
use kokoro_scheduler.Store.Rows.{OutboxRow}
use kokoro_scheduler.Domain.Occurrence.{OccurrenceStatus, dispatching, skipped, DispatchWork}

abbrev pub is_skipped : OccurrenceStatus → Bool
is_skipped skipped = true
is_skipped _ = false

-- A row has a claim exactly while it is dispatching, a completion instant exactly once it is final,
-- a valid retry policy and no more attempts than that allows.
pub record IsConsistent (row : OutboxRow) : Type 0 where
  pub valid : IsValidPolicy row.retry
  pub attempts : pos row.attempt_count ≤ℤ row.retry.max_attempts
  pub owned : is_some row.claim_owner ≡ is_dispatching row.status
  pub limited : is_some row.claim_expires_at ≡ is_dispatching row.status
  pub completion : is_some row.completed_at ≡ is_final row.status
  pub shown : is_skipped row.status ≡ false

pub fail_stranded-IsConsistent :
    (now : Time) (row : OutboxRow) → IsConsistent row → IsConsistent (fail_stranded now row)
unfolding fail_stranded
fail_stranded-IsConsistent now row v = record {
  valid = v.valid;
  attempts = v.attempts;
  owned = refl;
  limited = refl;
  completion = refl;
  shown = refl;
}

pub claim_row-IsConsistent :
    (now : Time) (worker : Text) (expires : Time) (row : OutboxRow)
    → is_ready now row ≡ true
    → IsConsistent row
    → IsConsistent (claim_row now worker expires row)
unfolding claim_row is_ready
claim_row-IsConsistent now worker expires row h v =
    let open_ : is_final row.status ≡ false =
      ground (arith, waiting_open row.status, dispatching_open row.status) in
    record {
      valid = v.valid;
      attempts = v.attempts;
      owned = refl;
      limited = refl;
      completion = v.completion ∙ open_;
      shown = refl;
    }

pub begin_row-IsConsistent :
    (work : DispatchWork) (worker : Text) (now : Time) (row : OutboxRow)
    → can_begin work worker now row ≡ true
    → IsConsistent row
    → IsConsistent (begin_row now row)
unfolding begin_row can_begin
begin_row-IsConsistent work worker now row h v = record {
  valid = v.valid;
  attempts = ground arith;
  owned = v.owned;
  limited = v.limited;
  completion = v.completion;
  shown = v.shown;
}

-- A transition writes the completion instant exactly with a final status, and leaves `dispatching`.
pub record IsSettling (t : Transition) : Type 0 where
  pub final_completes : is_some (completed t.completed_at) ≡ is_final t.outbox_status
  pub released : is_dispatching t.outbox_status ≡ false
  pub visible : is_skipped t.outbox_status ≡ false
  pub legal : is_legal dispatching t.outbox_status ≡ true

pub settle_row-IsConsistent :
    (t : Transition) (row : OutboxRow)
    → IsSettling t
    → IsConsistent row
    → IsConsistent (settle_row t row)
unfolding settle_row
settle_row-IsConsistent t row s v = record {
  valid = v.valid;
  attempts = v.attempts;
  owned = sym s.released;
  limited = sym s.released;
  completion = s.final_completes;
  shown = s.visible;
}
