-- ===== src/Store/Outbox/History.antt =====
-- Histories of outbox statements, and the four transitions as steps of them.
use kokoro_scheduler.Store.Outbox.{result_transition}
use kokoro_scheduler.Store.Outbox.Consistent.{IsSettling}
use kokoro_scheduler.Store.Outbox.States.{Evolves, is_final}
use kokoro_scheduler.Store.Table.{All₂}
use kokoro_scheduler.Store.Rows.{Db, OutboxRow}
use kokoro_scheduler.Domain.Time.{Time}
use kokoro_scheduler.Base.{◌≤◌, ◌≡◌, refl, sym, subst, ◌∙◌, ◌≢◌, true, some, List, [], ◌∷◌, arith}
use kokoro_scheduler.Store.Outbox.Steps.{Step, IsSound, Step-IsSound, Step-Evolves}
use kokoro_scheduler.Domain.Occurrence.{OccurrenceStatus, retrying, DispatchResult}

-- `CompleteDispatch`, `FailDispatch`, `RetryDispatch` and `DeferDispatch` write consistent columns,
-- as long as the clock is not at the zero time.
pub final_transition-IsSettling :
    (status : OccurrenceStatus) (result : DispatchResult) (now : Time)
    → is_final status ≡ true
    → now ≢ 0
    → IsSettling (result_transition status result now now now)
final_transition-IsSettling status result now final positive = record {
  final_completes = ground arith;
  released = ground arith;
  visible = ground arith;
  legal = ground arith;
}

pub retry_transition-IsSettling :
    (result : DispatchResult) (next now : Time)
    → IsSettling (result_transition retrying result next 0 now)
retry_transition-IsSettling result next now = record {
  final_completes = refl;
  released = refl;
  visible = refl;
  legal = refl;
}

pub data Reach (db : Db) : Db → Type 0 where
  here : Reach db db
  next : {db₁ db₂ : Db} → Reach db db₁ → Step db₁ db₂ → Reach db db₂

-- What a whole history keeps of a row.
pub record Survives (a b : OutboxRow) : Type 0 where
  pub same_id : b.id ≡ a.id
  pub same_policy : b.retry ≡ a.retry
  pub attempts_kept : a.attempt_count ≤ b.attempt_count
  pub started_kept : (t : Time) → a.first_attempt_at ≡ some t → b.first_attempt_at ≡ some t
  pub frozen : is_final a.status ≡ true → b ≡ a

Survives-refl : (a : OutboxRow) → Survives a a
Survives-refl a = record {
  same_id = refl;
  same_policy = refl;
  attempts_kept = omega arith;
  started_kept = λ t h. h;
  frozen = λ h. refl;
}

Survives-step : (a b c : OutboxRow) → Survives a b → Evolves b c → Survives a c
Survives-step a b c v e = record {
  same_id = e.same_id ∙ v.same_id;
  same_policy = e.same_policy ∙ v.same_policy;
  attempts_kept = omega (arith, v.attempts_kept, e.attempts_kept);
  started_kept = λ t h. e.started_kept t (v.started_kept t h);
  frozen = λ h.
      e.frozen (subst (λ (r : OutboxRow). is_final r.status ≡ true) (sym (v.frozen h)) h)
      ∙ v.frozen h;
}

survive_rows : (xs : List OutboxRow) → All₂ Survives xs xs
survive_rows [] = tt
survive_rows (x ∷ xs) = (Survives-refl x, survive_rows xs)

survive_step :
    (xs ys zs : List OutboxRow) → All₂ Survives xs ys → All₂ Evolves ys zs → All₂ Survives xs zs
survive_step [] [] [] v e = tt
survive_step [] [] (z ∷ zs) v e = elim e [ ]
survive_step [] (y ∷ ys) zs v e = elim v [ ]
survive_step (x ∷ xs) [] zs v e = elim v [ ]
survive_step (x ∷ xs) (y ∷ ys) [] v e = elim e [ ]
survive_step (x ∷ xs) (y ∷ ys) (z ∷ zs) v e =
    (Survives-step x y z v.0 e.0, survive_step xs ys zs v.1 e.1)

-- Whatever statements the dispatchers run, in whatever order: identifiers stay unique and
-- rows consistent (a claim exactly while dispatching, a completion instant exactly once final, no
-- more attempts than a valid policy allows), no row is lost, attempts are never taken back, the instant of the first attempt is
-- kept, and a dispatch that has succeeded or failed is never changed again.
pub Reach-IsSound :
    {db db' : Db}
    → IsSound db.outbox
    → Reach db db'
    → IsSound db'.outbox × All₂ Survives db.outbox db'.outbox
Reach-IsSound {db} v here = (v, survive_rows db.outbox)
Reach-IsSound {db} {db'} v (next {db₁ = middle} r s) =
    let (sound, kept) = Reach-IsSound v r in
    (
      Step-IsSound sound s,
      survive_step db.outbox middle.outbox db'.outbox kept (Step-Evolves sound.unique s),
    )
