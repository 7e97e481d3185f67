-- ===== src/Tests/Outbox.antt =====
-- The theorems on the outbox at one dispatch that `worker` has claimed.
use kokoro_scheduler.Base.{
  List, text_eq, ◌*◌, ◌≡◌, refl, false, [], arith, Result, ok, err, codes, claim_lost,
}
use kokoro_scheduler.Store.Outbox.{
  claim_row, is_ready, dispatch_candidates, id_among, update_occurrence, is_held, claim_dispatches,
  Transition, transition_dispatch, result_transition,
}
use kokoro_scheduler.Store.Scan.{scan_dispatch}
use kokoro_scheduler.Store.Table.{order_by, select_where, exists_where, All₂}
use kokoro_scheduler.Domain.Occurrence.{retrying, DispatchWork}
use kokoro_scheduler.Store.Outbox.Claims.{transition_dispatch-claim_lost, IsLeftTo, Step-IsLeftTo}
use kokoro_scheduler.Store.Outbox.States.{Evolves}
use kokoro_scheduler.Domain.Time.{second}
use kokoro_scheduler.Store.Rows.{Db, within_tx}
use kokoro_scheduler.Tests.{second_attempt, dispatching_db, timed_out, dispatch_row-IsSound}
use kokoro_scheduler.Store.Outbox.Steps.{settle, claim, IsSound, Step, Step-Evolves}
use kokoro_scheduler.Store.Outbox.History.{
  next, here, Survives, Reach-IsSound, retry_transition-IsSettling,
}

-- The database that an operation of the tests leaves.
abbrev left : {A : Type 0} → Result (A × Db) → Db
left (ok r) = r.1
left (err e) = dispatching_db

abbrev answer : Result (List DispatchWork × Db) → List DispatchWork
answer (ok r) = r.0
answer (err e) = []

abbrev timeout_transition : Transition
timeout_transition = result_transition retrying timed_out (20 * second) 0 (15 * second)

abbrev settled : Db
settled =
    left (transition_dispatch second_attempt (codes "worker") timeout_transition dispatching_db)

settle_report :
    transition_dispatch second_attempt (codes "worker") timeout_transition dispatching_db
    ≡ ok (tt, settled)
unfolding transition_dispatch is_held text_eq update_occurrence
settle_report = refl

abbrev settle_step : Step dispatching_db settled
settle_step =
    settle second_attempt (codes "worker") timeout_transition
      (retry_transition-IsSettling timed_out (20 * second) (15 * second)) settle_report

Step-Evolves_example : All₂ Evolves dispatching_db.outbox settled.outbox
Step-Evolves_example = Step-Evolves (dispatch_row-IsSound).unique settle_step

Reach-IsSound_example : IsSound settled.outbox × All₂ Survives dispatching_db.outbox settled.outbox
Reach-IsSound_example = Reach-IsSound dispatch_row-IsSound (next here settle_step)

abbrev reclaimed : Db
reclaimed =
    left
      (claim_dispatches (λ id. false) (30 * second) (codes "other") (90 * second) 5 dispatching_db)

claim_early :
    claim_dispatches (λ id. false) (30 * second) (codes "other") (90 * second) 5 dispatching_db
    ≡ ok ([], reclaimed)
unfolding claim_dispatches select_where id_among dispatch_candidates order_by is_ready
claim_early = refl

Step-IsLeftTo_example :
    All₂ (IsLeftTo (codes "worker") (60 * second)) dispatching_db.outbox reclaimed.outbox
Step-IsLeftTo_example =
    Step-IsLeftTo (codes "worker") (60 * second)
      (claim (λ id. false) (30 * second) (codes "other") (90 * second) 5 [] claim_early)
      (dispatch_row-IsSound).unique (omega arith)

-- `other` claims the dispatch when the claim of `worker` has expired.
abbrev taken_over : Db
taken_over =
    left
      (claim_dispatches (λ id. false) (70 * second) (codes "other") (130 * second) 5 dispatching_db)

abbrev taken_works : List DispatchWork
taken_works =
    answer
      (claim_dispatches (λ id. false) (70 * second) (codes "other") (130 * second) 5 dispatching_db)

claim_late :
    claim_dispatches (λ id. false) (70 * second) (codes "other") (130 * second) 5 dispatching_db
    ≡ ok (taken_works, taken_over)
unfolding claim_dispatches select_where id_among dispatch_candidates order_by is_ready
claim_late = refl

transition_dispatch-claim_lost_example :
    within_tx (transition_dispatch second_attempt (codes "worker") timeout_transition) taken_over
    ≡ (err claim_lost, taken_over)
unfolding claim_dispatches select_where id_among dispatch_candidates order_by is_ready exists_where
    text_eq scan_dispatch claim_row
transition_dispatch-claim_lost_example =
    transition_dispatch-claim_lost (λ id. false) (70 * second) (codes "other") (130 * second) 5
      taken_works second_attempt (codes "worker") timeout_transition dispatching_db claim_late refl
      refl
