-- ===== src/Dispatcher/Process.antt =====
-- internal/application/dispatcher.go: `Dispatcher.process`, `acquireLease`, `persistResult` and
-- `Dispatcher.Run`, over the store. What lies outside (clock, target, lease store) is an argument.
use kokoro_scheduler.Base.{
  ℕ, ◌⊎◌, inl, inr, Bool, true, false, Option, none, some, List, [], ◌∷◌, ◌++◌, if◌then◌else◌, Text,
  Result, ok, err, ◌>>=◌, pos, Error, codes, ltb_ℤ, external,
}
use kokoro_scheduler.Dispatcher.Decision.{
  complete, fail, retry, panic, RandomSource, Decision, decide, AttemptError,
  normalize_attempt_result, bounded_error,
}
use kokoro_scheduler.Store.Outbox.{
  complete_dispatch, begin_dispatch, recover_exhausted_dispatches, defer_dispatch, claim_dispatches,
  fail_dispatch, retry_dispatch,
}
use kokoro_scheduler.Domain.Occurrence.{
  DispatchWork, Code, DispatchResult, coordination_unavailable, coordination_contended,
}
use kokoro_scheduler.Store.Rows.{Tx, Db, within_tx}
use kokoro_scheduler.Domain.Time.{Duration, Time, second, normalize_instant, add_duration}

-- What happens outside the store while one dispatch is processed: the readings of the clock, the
-- answer of the lease store (`inl` is an error message, `inr` whether to proceed; without a store the
-- dispatcher proceeds), the answer of the target to a work item with the error of the attempt's
-- context, and the random source.
pub record Surroundings : Type 0 where
  pub deferred_at : Time
  pub begun_at : Time
  pub persisted_at : Time
  pub elapsed : Duration
  pub lease_store : Option (Text → Text ⊎ Bool)
  pub target : DispatchWork → DispatchResult
  pub attempt_error : Option AttemptError
  pub random : RandomSource

abbrev pub coordination_retry_delay : Duration
coordination_retry_delay = pos second

-- `digest` is the hexadecimal SHA-256.
unfoldable pub lease_key : (digest : Text → Text) → DispatchWork → Text
lease_key digest work =
    codes "kokoro:scheduler:dispatch:" ++ digest (work.tenant_id ++ 0 ∷ work.occurrence_id)

-- `acquireLease`.
unfoldable pub acquire_lease : Option (Text → Text ⊎ Bool) → Text → Text ⊎ Bool
acquire_lease none key = inr true
acquire_lease (some acquire) key = acquire key

unfoldable pub persist_decision :
    DispatchWork → Text → Time → Decision → Db → Result (Unit {0}) × Db
persist_decision work worker now (complete result) db =
    within_tx (complete_dispatch work worker result now) db
persist_decision work worker now (fail result) db =
    within_tx (fail_dispatch work worker result now) db
persist_decision work worker now (retry result next_attempt_at) db =
    within_tx (retry_dispatch work worker result next_attempt_at now) db
persist_decision work worker now panic db = (err (external (codes "integer divide by zero")), db)

-- `persistResult`.
unfoldable pub persist_result :
    RandomSource → DispatchWork → Text → DispatchResult → Time → Db → Result (Unit {0}) × Db
persist_result random work worker result now =
    persist_decision work worker now (decide random work result now)

-- The result that is persisted: normalised, with a duration that is not negative.
unfoldable pub attempt_result : Surroundings → DispatchWork → DispatchResult
attempt_result s work = record (normalize_attempt_result (s.target work) s.attempt_error) {
  duration = if ltb_ℤ s.elapsed (pos 0) then pos 0 else s.elapsed;
}

-- From the call of the target on.
unfoldable pub attempt : Surroundings → Text → Result DispatchWork × Db → Result (Unit {0}) × Db
attempt s worker (err e, db) = (err e, db)
attempt s worker (ok work, db) =
    persist_result s.random work worker (attempt_result s work) (normalize_instant s.persisted_at)
      db

-- `DeferDispatch`, where the lease is not to be had.
unfoldable pub put_off :
    Surroundings → Text → DispatchWork → Code → Text → Db → Result (Unit {0}) × Db
put_off s worker claimed code message db =
    let now = normalize_instant s.deferred_at in
    within_tx
      (defer_dispatch claimed worker (add_duration now coordination_retry_delay) code message now)
      db

abbrev contended_message : Text
contended_message = codes "another scheduler instance holds the optional coordination lease"

unfoldable pub process_leased :
    Surroundings → Text → DispatchWork → Text ⊎ Bool → Db → Result (Unit {0}) × Db
process_leased s worker claimed (inl e) db =
    put_off s worker claimed coordination_unavailable (bounded_error (some e)) db
process_leased s worker claimed (inr false) db =
    put_off s worker claimed coordination_contended contended_message db
process_leased s worker claimed (inr true) db =
    attempt s worker (within_tx (begin_dispatch claimed worker (normalize_instant s.begun_at)) db)

-- `Dispatcher.process`.
unfoldable pub process :
    (digest : Text → Text) → Surroundings → Text → DispatchWork → Db → Result (Unit {0}) × Db
process digest s worker claimed =
    process_leased s worker claimed (acquire_lease s.lease_store (lease_key digest claimed))

-- The first transaction of `Dispatcher.Run`.
unfoldable pub claim_work :
    (locked : Text → Bool) → Time → Text → Duration → ℕ → Tx (List DispatchWork)
claim_work locked now worker claim_ttl batch_size db =
    recover_exhausted_dispatches now db >>= λ out.
    claim_dispatches locked now worker (add_duration now claim_ttl) batch_size out.1

abbrev pub error_list : Result (Unit {0}) → List Error
error_list (ok u) = []
error_list (err e) = e ∷ []

-- The loop of `Dispatcher.Run`; the errors are joined by the caller, in this order.
unfoldable pub process_all :
    (digest : Text → Text)
    → (DispatchWork → Surroundings)
    → Text
    → List DispatchWork
    → Db
    → List Error × Db
process_all digest surroundings worker [] db = ([], db)
process_all digest surroundings worker (work ∷ works) db =
    let (r, db₁) = process digest (surroundings work) worker work db in
    let (errors, db₂) = process_all digest surroundings worker works db₁ in
    (error_list r ++ errors, db₂)

unfoldable pub process_claimed :
    (digest : Text → Text)
    → (DispatchWork → Surroundings)
    → Text
    → Result (List DispatchWork) × Db
    → List Error × Db
process_claimed digest surroundings worker (err e, db) = (e ∷ [], db)
process_claimed digest surroundings worker (ok works, db) =
    process_all digest surroundings worker works db

-- `Dispatcher.Run`: the errors of the run and the database after it.
unfoldable pub run :
    (digest : Text → Text)
    → (DispatchWork → Surroundings)
    → (locked : Text → Bool) → Time
    → Text
    → Duration
    → ℕ
    → Db
    → List Error × Db
run digest surroundings locked now worker claim_ttl batch_size db =
    process_claimed digest surroundings worker
      (within_tx (claim_work locked (normalize_instant now) worker claim_ttl batch_size) db)
