-- ===== src/Dispatcher/Soundness.antt =====
-- A run of the dispatcher is a history of outbox statements.
use kokoro_scheduler.Store.Outbox.{
  retry_dispatch, fail_dispatch, begin_dispatch, recover_exhausted_dispatches, defer_dispatch,
  complete_dispatch,
}
use kokoro_scheduler.Store.Table.{All₂}
use kokoro_scheduler.Dispatcher.Process.{
  put_off, persist_decision, process_leased, attempt, Surroundings, run, claim_work, process_all,
  process, persist_result, process_claimed,
}
use kokoro_scheduler.Domain.Time.{normalize_instant, Time, millisecond, Duration, add_duration}
use kokoro_scheduler.Store.Rows.{within_tx, Tx, Db}
use kokoro_scheduler.Base.{
  ℕ, ◌≤◌, ◌≡◌, refl, ◌≢◌, ◌⊎◌, inl, inr, Bool, true, false, List, [], ◌∷◌, arith, Text, Result, ok,
  err, Result-cases, >>=-eq-ok,
}
use kokoro_scheduler.Domain.Occurrence.{succeeded, failed, DispatchWork, DispatchResult, Code}
use kokoro_scheduler.Store.Outbox.History.{
  here, next, Reach, Survives, Reach-IsSound, final_transition-IsSettling,
  retry_transition-IsSettling,
}
use kokoro_scheduler.Store.Outbox.Steps.{recover, claim, begin, settle, Step, IsSound}
use kokoro_scheduler.Dispatcher.Decision.{complete, fail, retry, panic, Decision}

-- Clock readings that are a millisecond or more from Go's zero time.
abbrev pub IsTicking : Surroundings → Type 0
IsTicking s = millisecond ≤ s.persisted_at

normalize_instant-pos : (t : Time) → millisecond ≤ t → normalize_instant t ≢ 0
unfolding normalize_instant
normalize_instant-pos t h = ground arith

-- A transaction that runs one statement is a history.
within_tx-Reach :
    {A : Type 0} (run_ : Tx A) (db : Db)
    → ((a : A) (db' : Db) → run_ db ≡ ok (a, db') → Step db db')
    → Reach db (within_tx run_ db).1
unfolding within_tx
within_tx-Reach run_ db h = elim (Result-cases (run_ db)) [
  | inl ((a, db'), e) ↦ rw (e, within_tx) (next here (h a db' e))
  | inr (e, refused) ↦ rw (refused, within_tx) here
]

complete_dispatch-Reach :
    (work : DispatchWork) (worker : Text) (result : DispatchResult) (now : Time) (db : Db)
    → now ≢ 0
    → Reach db (within_tx (complete_dispatch work worker result now) db).1
unfolding complete_dispatch
complete_dispatch-Reach work worker result now db positive = within_tx-Reach _ db (λ u db' e.
    settle work worker _ (final_transition-IsSettling succeeded result now refl positive) e)

fail_dispatch-Reach :
    (work : DispatchWork) (worker : Text) (result : DispatchResult) (now : Time) (db : Db)
    → now ≢ 0
    → Reach db (within_tx (fail_dispatch work worker result now) db).1
unfolding fail_dispatch
fail_dispatch-Reach work worker result now db positive = within_tx-Reach _ db (λ u db' e.
    settle work worker _ (final_transition-IsSettling failed result now refl positive) e)

retry_dispatch-Reach :
    (work : DispatchWork) (worker : Text) (result : DispatchResult) (next_attempt_at now : Time)
    (db : Db)
    → Reach db (within_tx (retry_dispatch work worker result next_attempt_at now) db).1
unfolding retry_dispatch
retry_dispatch-Reach work worker result next_attempt_at now db =
    within_tx-Reach _ db
      (λ u db' e. settle work worker _ (retry_transition-IsSettling result next_attempt_at now) e)

put_off-Reach :
    (s : Surroundings) (worker : Text) (work : DispatchWork) (code : Code) (message : Text)
    (db : Db)
    → Reach db (put_off s worker work code message db).1
unfolding put_off defer_dispatch
put_off-Reach s worker work code message db = within_tx-Reach _ db (λ u db' e.
    settle work worker _
      (record { final_completes = refl; released = refl; visible = refl; legal = refl }) e)

persist_decision-Reach :
    (work : DispatchWork) (worker : Text) (now : Time) (d : Decision) (db : Db)
    → now ≢ 0
    → Reach db (persist_decision work worker now d db).1
unfolding persist_decision
persist_decision-Reach work worker now (complete result) db positive =
    complete_dispatch-Reach work worker result now db positive
persist_decision-Reach work worker now (fail result) db positive =
    fail_dispatch-Reach work worker result now db positive
persist_decision-Reach work worker now (retry result t) db positive =
    retry_dispatch-Reach work worker result t now db
persist_decision-Reach work worker now panic db positive = here

Reach-trans : {a b c : Db} → Reach a b → Reach b c → Reach a c
Reach-trans r here = r
Reach-trans r (next q s) = next (Reach-trans r q) s

attempt-Reach :
    (s : Surroundings) (worker : Text) (begun : Result DispatchWork × Db)
    → IsTicking s
    → Reach begun.1 (attempt s worker begun).1
unfolding attempt persist_result
attempt-Reach s worker (err e, db) t = here
attempt-Reach s worker (ok work, db) t =
    persist_decision-Reach work worker (normalize_instant s.persisted_at) _ db
      (normalize_instant-pos s.persisted_at t)

process_leased-Reach :
    (s : Surroundings) (worker : Text) (work : DispatchWork) (lease : Text ⊎ Bool) (db : Db)
    → IsTicking s
    → Reach db (process_leased s worker work lease db).1
unfolding process_leased
process_leased-Reach s worker work (inl e) db t = put_off-Reach s worker work _ _ db
process_leased-Reach s worker work (inr false) db t = put_off-Reach s worker work _ _ db
process_leased-Reach s worker work (inr true) db t =
    let now = normalize_instant s.begun_at in
    Reach-trans
      (within_tx-Reach (begin_dispatch work worker now) db
        (λ started db' e. begin work worker now started e))
      (attempt-Reach s worker (within_tx (begin_dispatch work worker now) db) t)

process_all-Reach :
    (digest : Text → Text) (surroundings : DispatchWork → Surroundings) (worker : Text)
    (works : List DispatchWork) (db : Db)
    → ((work : DispatchWork) → IsTicking (surroundings work))
    → Reach db (process_all digest surroundings worker works db).1
unfolding process_all process
process_all-Reach digest surroundings worker [] db t = here
process_all-Reach digest surroundings worker (work ∷ works) db t =
    Reach-trans (process_leased-Reach (surroundings work) worker work _ db (t work))
      (process_all-Reach digest surroundings worker works _ t)

claim_work-Reach :
    (locked : Text → Bool) (now : Time) (worker : Text) (claim_ttl : Duration) (batch_size : ℕ)
    (db : Db) {works : List DispatchWork} {db' : Db}
    → now ≢ 0
    → claim_work locked now worker claim_ttl batch_size db ≡ ok (works, db')
    → Reach db db'
unfolding claim_work
claim_work-Reach locked now worker claim_ttl batch_size db {works} positive h =
    let (out, e, rest) = >>=-eq-ok (recover_exhausted_dispatches now db) _ h in
    next (next here (recover now positive e))
      (claim locked now worker (add_duration now claim_ttl) batch_size works rest)

run-Reach :
    (digest : Text → Text) (surroundings : DispatchWork → Surroundings) (locked : Text → Bool)
    (now : Time) (worker : Text) (claim_ttl : Duration) (batch_size : ℕ) (db : Db)
    → ((work : DispatchWork) → IsTicking (surroundings work))
    → millisecond ≤ now
    → Reach db (run digest surroundings locked now worker claim_ttl batch_size db).1
unfolding run process_claimed within_tx
run-Reach digest surroundings locked now worker claim_ttl batch_size db t late =
    elim (Result-cases (claim_work locked (normalize_instant now) worker claim_ttl batch_size db)) [
      | inl ((works, db'), e) ↦
          rw (e, within_tx)
            (Reach-trans
              (claim_work-Reach locked (normalize_instant now) worker claim_ttl batch_size db
                (normalize_instant-pos now late) e)
              (process_all-Reach digest surroundings worker works db' t))
      | inr (e, refused) ↦ rw (refused, within_tx) here
    ]

-- A whole run of the dispatcher, whatever the clock, the lease store, the targets and the random
-- source answer: identifiers stay unique and rows consistent (a claim exactly while
-- dispatching, a completion instant exactly once final), no dispatch is lost, attempts are never
-- taken back or exceed what the policy allows, and what has succeeded or failed is not touched again.
-- The clock is at least a millisecond from the zero time.
pub run-IsSound :
    (digest : Text → Text) (surroundings : DispatchWork → Surroundings) (locked : Text → Bool)
    (now : Time) (worker : Text) (claim_ttl : Duration) (batch_size : ℕ) (db : Db)
    → IsSound db.outbox
    → ((work : DispatchWork) → IsTicking (surroundings work))
    → millisecond ≤ now
    → let db' = (run digest surroundings locked now worker claim_ttl batch_size db).1 in
      IsSound db'.outbox × All₂ Survives db.outbox db'.outbox
run-IsSound digest surroundings locked now worker claim_ttl batch_size db v t late =
    Reach-IsSound v (run-Reach digest surroundings locked now worker claim_ttl batch_size db t late)
