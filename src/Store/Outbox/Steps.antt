-- ===== src/Store/Outbox/Steps.antt =====
-- Any sequence of the outbox statements, by any workers, in any order.
use kokoro_scheduler.Base.{
  >>=-eq-ok, ok-injective, claim_lost, count_if, text_eq, All-mono, and_left, ℕ, ◌≡◌, sym, ap,
  subst, ◌∙◌, ◌≢◌, Bool, true, false, not, Option, none, some, List, [], ◌∷◌, arith, ◌==◌, Text, ok,
  ◌>>◌, fail_if, All,
}
use kokoro_scheduler.Store.Outbox.Identity.{UniqueIds, candidates_ready}
use kokoro_scheduler.Store.Outbox.States.{
  Evolves, Evolves-refl, fail_stranded-Evolves, claim_row-Evolves, begin_row-Evolves,
  settle_row-Evolves,
}
use kokoro_scheduler.Store.Outbox.Consistent.{
  IsSettling, IsConsistent, fail_stranded-IsConsistent, claim_row-IsConsistent,
  begin_row-IsConsistent, settle_row-IsConsistent,
}
use kokoro_scheduler.Domain.Occurrence.{DispatchWork}
use kokoro_scheduler.Domain.Time.{Time}
use kokoro_scheduler.Store.Table.{
  update_where, All₂, update_where-All_rows, update_where-All₂, All-intro,
}
use kokoro_scheduler.Store.Outbox.{
  transition_dispatch, begin_dispatch, update_occurrence, recover_exhausted_dispatches, Transition,
  can_begin, begin_row, claim_dispatches, is_held, settle_row, begin_found, is_stranded,
  fail_stranded, id_among, dispatch_candidates, claim_row,
}
use kokoro_scheduler.Store.Rows.{Db, OutboxRow, OccurrenceRow}

-- One transaction of a dispatcher: a statement that succeeds. The clock is not at the zero time.
pub data Step (db : Db) : Db → Type 0 where
  recover :
      {db' : Db} (now : Time)
      → now ≢ 0
      → recover_exhausted_dispatches now db ≡ ok (tt, db')
      → Step db db'
  claim :
      {db' : Db} (locked : Text → Bool) (now : Time) (worker : Text) (expires : Time) (limit : ℕ)
      (works : List DispatchWork)
      → claim_dispatches locked now worker expires limit db ≡ ok (works, db')
      → Step db db'
  begin :
      {db' : Db} (work : DispatchWork) (worker : Text) (now : Time) (started : DispatchWork)
      → begin_dispatch work worker now db ≡ ok (started, db')
      → Step db db'
  settle :
      {db' : Db} (work : DispatchWork) (worker : Text) (t : Transition)
      → IsSettling t
      → transition_dispatch work worker t db ≡ ok (tt, db')
      → Step db db'

-- How a statement rewrites the outbox.
record Rewrites (db db' : Db) : Type 0 where
  condition : OutboxRow → Bool
  assign : OutboxRow → OutboxRow
  result : db'.outbox ≡ update_where condition assign db.outbox
  evolves : All (λ row. condition row ≡ true → Evolves row (assign row)) db.outbox
  consistent :
      All (λ row. condition row ≡ true → IsConsistent row → IsConsistent (assign row)) db.outbox

update_occurrence-outbox :
    (tenant_id id : Text) (f : OccurrenceRow → OccurrenceRow) (db : Db) {db' : Db}
    → update_occurrence tenant_id id f db ≡ ok db'
    → db'.outbox ≡ db.outbox
unfolding update_occurrence
update_occurrence-outbox tenant_id id f db h = ground arith

begin_found-outbox :
    (work : DispatchWork) (worker : Text) (now : Time) (found : Option OutboxRow) (db : Db)
    {started : DispatchWork} {db' : Db}
    → begin_found work worker now found db ≡ ok (started, db')
    → db'.outbox ≡ update_where (can_begin work worker now) (begin_row now) db.outbox
unfolding begin_found
begin_found-outbox work worker now none db h = cc
begin_found-outbox work worker now (some row) db h =
    let (db₁, e, rest) = >>=-eq-ok (update_occurrence _ _ _ _) _ h in
    ap (λ (r : DispatchWork × Db). r.1.outbox) (sym (ok-injective rest))
    ∙ update_occurrence-outbox _ _ _ _ e

pub begin_dispatch-outbox :
    (work : DispatchWork) (worker : Text) (now : Time) (db : Db) {started : DispatchWork} {db' : Db}
    → begin_dispatch work worker now db ≡ ok (started, db')
    → db'.outbox ≡ update_where (can_begin work worker now) (begin_row now) db.outbox
unfolding begin_dispatch
begin_dispatch-outbox work worker now db h = begin_found-outbox work worker now _ db h

pub transition_dispatch-outbox :
    (work : DispatchWork) (worker : Text) (t : Transition) (db : Db) {db' : Db}
    → transition_dispatch work worker t db ≡ ok (tt, db')
    → db'.outbox ≡ update_where (is_held work worker) (settle_row t) db.outbox
unfolding transition_dispatch
transition_dispatch-outbox work worker t db h =
    let (db₁, e, rest) = >>=-eq-ok (fail_if _ claim_lost >> update_occurrence _ _ _ _) _ h in
    let (_, _, e') =
      >>=-eq-ok (fail_if (not (count_if (is_held work worker) db.outbox == 1)) claim_lost) _ e in
    ap (λ (r : Unit {0} × Db). r.1.outbox) (sym (ok-injective rest))
    ∙ update_occurrence-outbox _ _ _ _ e'

Step-Rewrites : {db db' : Db} → UniqueIds db.outbox → Step db db' → Rewrites db db'
unfolding recover_exhausted_dispatches claim_dispatches
Step-Rewrites {db} u (recover now positive h) = record {
  condition = is_stranded now;
  assign = fail_stranded now;
  result = ap (λ (r : Unit {0} × Db). r.1.outbox) (sym (ok-injective h));
  evolves = All-intro (λ row. fail_stranded-Evolves now row) db.outbox;
  consistent = All-intro (λ row hit. fail_stranded-IsConsistent now row) db.outbox;
}
Step-Rewrites {db} u (claim locked now worker expires limit works h) = record {
  condition = λ row. id_among row.id (dispatch_candidates locked now limit db.outbox);
  assign = claim_row now worker expires;
  result = ap (λ (r : List DispatchWork × Db). r.1.outbox) (sym (ok-injective h));
  evolves =
      All-mono _ _
        (λ row ready hit. claim_row-Evolves now worker expires row (and_left _ _ (ready hit)))
        db.outbox (candidates_ready locked now limit db.outbox u);
  consistent =
      All-mono _ _
        (λ row ready hit. claim_row-IsConsistent now worker expires row (and_left _ _ (ready hit)))
        db.outbox (candidates_ready locked now limit db.outbox u);
}
Step-Rewrites {db} u (begin work worker now started h) = record {
  condition = can_begin work worker now;
  assign = begin_row now;
  result = begin_dispatch-outbox work worker now db h;
  evolves = All-intro (λ row. begin_row-Evolves work worker now row) db.outbox;
  consistent = All-intro (λ row. begin_row-IsConsistent work worker now row) db.outbox;
}
Step-Rewrites {db} u (settle work worker t settling h) = record {
  condition = is_held work worker;
  assign = settle_row t;
  result = transition_dispatch-outbox work worker t db h;
  evolves = All-intro (λ row. settle_row-Evolves work worker t row settling.legal) db.outbox;
  consistent = All-intro (λ row hit. settle_row-IsConsistent t row settling) db.outbox;
}

-- Identifiers are unique and rows consistent.
pub record IsSound (rows : List OutboxRow) : Type 0 where
  pub unique : UniqueIds rows
  pub consistent : All IsConsistent rows

-- Where identifiers are unique, every statement that succeeds takes each row along a legal
-- transition of the dispatch state machine, with at most one attempt more.
pub Step-Evolves :
    {db db' : Db} → UniqueIds db.outbox → Step db db' → All₂ Evolves db.outbox db'.outbox
Step-Evolves {db} u s =
    let w = Step-Rewrites u s in
    subst (All₂ Evolves db.outbox) (sym w.result)
      (update_where-All₂ Evolves w.condition w.assign Evolves-refl db.outbox w.evolves)

Evolves-UniqueIds : (xs ys : List OutboxRow) → All₂ Evolves xs ys → UniqueIds xs → UniqueIds ys
Evolves-UniqueIds [] [] e u = tt
Evolves-UniqueIds [] (y ∷ ys) e u = elim e [ ]
Evolves-UniqueIds (x ∷ xs) [] e u = elim e [ ]
Evolves-UniqueIds (x ∷ xs) (y ∷ ys) e u = (apart xs ys e.1 u.0, Evolves-UniqueIds xs ys e.1 u.1)
  where
    apart :
        (ps qs : List OutboxRow)
        → All₂ Evolves ps qs
        → All (λ (other : OutboxRow). text_eq other.id x.id ≡ false) ps
        → All (λ (other : OutboxRow). text_eq other.id y.id ≡ false) qs
    apart [] [] v h = tt
    apart [] (q ∷ qs) v h = elim v [ ]
    apart (p ∷ ps) [] v h = elim v [ ]
    apart (p ∷ ps) (q ∷ qs) v h = (rw (v.0.same_id, e.0.same_id) h.0, apart ps qs v.1 h.1)

-- Every statement that succeeds keeps the outbox sound: identifiers are unique,
-- a claim is there exactly while a row is dispatching, a completion instant exactly once it is final,
-- and no row has more attempts than its policy allows.
pub Step-IsSound : {db db' : Db} → IsSound db.outbox → Step db db' → IsSound db'.outbox
Step-IsSound {db} {db'} v s =
    let w = Step-Rewrites v.unique s in
    record {
      unique = Evolves-UniqueIds db.outbox db'.outbox (Step-Evolves v.unique s) v.unique;
      consistent = subst (All IsConsistent) (sym w.result) (
          update_where-All_rows IsConsistent w.condition w.assign db.outbox w.consistent
            v.consistent);
    }
