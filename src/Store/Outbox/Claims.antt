-- ===== src/Store/Outbox/Claims.antt =====
-- A claim that has not expired keeps other workers out.
use kokoro_scheduler.Base.{
  ℕ, inl, inr, Bool, [], ◌∷◌, map, ok, Bool-cases, text_eq→eq, All, false, ◌<◌, ◌≡◌, refl, sym, ap,
  subst, true, some, List, arith, Text, err, text_eq, claim_lost, ok-injective, All-mono, and_left,
  not,
}
use kokoro_scheduler.Store.Scan.{scan_dispatch}
use kokoro_scheduler.Store.Table.{
  exists_where-none, update_where-All_cases, select_where, exists_where, exists_where-count, All₂,
  update_where-All₂, All-intro,
}
use kokoro_scheduler.Store.Outbox.Identity.{UniqueIds, candidates_ready}
use kokoro_scheduler.Store.Outbox.{
  is_held, is_stranded, transition_dispatch, recover_exhausted_dispatches, is_ready, can_begin,
  Transition, claim_dispatches, fail_stranded, id_among, dispatch_candidates, claim_row, begin_row,
  settle_row,
}
use kokoro_scheduler.Domain.Time.{Time}
use kokoro_scheduler.Store.Rows.{within_tx, Db, OutboxRow}
use kokoro_scheduler.Store.Outbox.Steps.{
  recover, claim, begin, settle, Step, begin_dispatch-outbox, transition_dispatch-outbox,
}
use kokoro_scheduler.Domain.Occurrence.{dispatching, DispatchWork}

-- A statement of another worker, or one that is run before the claim expires.
abbrev pub IsForeign : {db : Db} → Text → Time → {db' : Db} → Step db db' → Type 0
IsForeign owner deadline (recover now positive h) = now < deadline
IsForeign owner deadline (claim locked now worker expires limit works h) = now < deadline
IsForeign owner deadline (begin work worker now started h) = text_eq owner worker ≡ false
IsForeign owner deadline (settle work worker t settling h) = text_eq owner worker ≡ false

-- A row that `owner` has claimed until `deadline` is left alone.
abbrev pub IsLeftTo : Text → Time → OutboxRow → OutboxRow → Type 0
IsLeftTo owner deadline a b =
    a.status ≡ dispatching → a.claim_owner ≡ some owner → a.claim_expires_at ≡ some deadline → b ≡ a

is_stranded-live :
    (deadline now : Time) (row : OutboxRow)
    → now < deadline
    → row.claim_expires_at ≡ some deadline
    → is_stranded now row ≡ false
unfolding is_stranded
is_stranded-live deadline now row early e = ground arith

is_ready-live :
    (deadline now : Time) (row : OutboxRow)
    → now < deadline
    → row.status ≡ dispatching
    → row.claim_expires_at ≡ some deadline
    → is_ready now row ≡ false
unfolding is_ready
is_ready-live deadline now row early s e = ground arith

is_held-foreign :
    (owner worker : Text) (work : DispatchWork) (row : OutboxRow)
    → text_eq owner worker ≡ false
    → row.claim_owner ≡ some owner
    → is_held work worker row ≡ false
unfolding is_held
is_held-foreign owner worker work row other e = ground arith

can_begin-held :
    (work : DispatchWork) (worker : Text) (now : Time) (row : OutboxRow)
    → can_begin work worker now row ≡ true
    → is_held work worker row ≡ true
unfolding can_begin
can_begin-held work worker now row h = ground arith

-- Identifiers are unique. While the claim of one worker on a dispatch lasts, no statement of another worker changes that
-- dispatch, nor does a claim or a recovery that anyone runs before the claim expires.
pub Step-IsLeftTo :
    {db db' : Db} (owner : Text) (deadline : Time) (s : Step db db')
    → UniqueIds db.outbox
    → IsForeign owner deadline s
    → All₂ (IsLeftTo owner deadline) db.outbox db'.outbox
unfolding recover_exhausted_dispatches claim_dispatches
Step-IsLeftTo {db} owner deadline (recover now positive h) u early =
    subst (All₂ (IsLeftTo owner deadline) db.outbox)
      (ap (λ (r : Unit {0} × Db). r.1.outbox) (ok-injective h))
      (update_where-All₂ (IsLeftTo owner deadline) (is_stranded now) (fail_stranded now)
        (λ row s o e. refl) db.outbox
        (All-intro (λ row hit s o e. cc (is_stranded-live deadline now row early e)) db.outbox))
Step-IsLeftTo {db} owner deadline (claim locked now worker expires limit works h) u early =
    subst (All₂ (IsLeftTo owner deadline) db.outbox)
      (ap (λ (r : List DispatchWork × Db). r.1.outbox) (ok-injective h))
      (update_where-All₂ (IsLeftTo owner deadline)
        (λ row. id_among row.id (dispatch_candidates locked now limit db.outbox))
        (claim_row now worker expires) (λ row s o e. refl) db.outbox
        (All-mono _ _
          (λ row ready hit s o e. cc (
            and_left (is_ready now row) (not (locked row.id)) (ready hit),
            is_ready-live deadline now row early s e,
          ))
          db.outbox (candidates_ready locked now limit db.outbox u)))
Step-IsLeftTo {db} owner deadline (begin work worker now started h) u other =
    subst (All₂ (IsLeftTo owner deadline) db.outbox)
      (sym (begin_dispatch-outbox work worker now db h))
      (update_where-All₂ (IsLeftTo owner deadline) (can_begin work worker now) (begin_row now)
        (λ row s o e. refl) db.outbox
        (All-intro
          (λ row hit s o e.
            cc (
              can_begin-held work worker now row hit,
              is_held-foreign owner worker work row other o,
            ))
          db.outbox))
Step-IsLeftTo {db} owner deadline (settle work worker t settling h) u other =
    subst (All₂ (IsLeftTo owner deadline) db.outbox)
      (sym (transition_dispatch-outbox work worker t db h))
      (update_where-All₂ (IsLeftTo owner deadline) (is_held work worker) (settle_row t)
        (λ row s o e. refl) db.outbox
        (All-intro (λ row hit s o e. cc (is_held-foreign owner worker work row other o)) db.outbox))

-- What a claim answers is among the rows that it chose.
taken_among :
    (chosen : Text → Bool) (now : Time) (other : Text) (expires : Time) (id : Text)
    (rows : List OutboxRow)
    → exists_where
        (λ (taken : DispatchWork). text_eq taken.id id)
        (map
          (λ (row : OutboxRow). scan_dispatch (claim_row now other expires row))
          (select_where (λ row. chosen row.id) rows))
      ≡ true
    → chosen id ≡ true
unfolding exists_where select_where scan_dispatch claim_row
taken_among chosen now other expires id [] h = cc
taken_among chosen now other expires id (row ∷ rows) h = elim (Bool-cases (chosen row.id)) [
  | inl hit ↦ elim (Bool-cases (text_eq row.id id)) [
    | inl same ↦ subst (λ (x : Text). chosen x ≡ true) (text_eq→eq row.id id same) hit
    | inr apart ↦ taken_among chosen now other expires id rows (rw (hit, apart) at h)
  ]
  | inr miss ↦ taken_among chosen now other expires id rows (rw miss at h)
]

claim_row-is_held :
    (now : Time) (other worker : Text) (expires : Time) (work : DispatchWork) (row : OutboxRow)
    → text_eq other worker ≡ false
    → is_held work worker (claim_row now other expires row) ≡ false
unfolding claim_row
claim_row-is_held now other worker expires work row apart =
    is_held-foreign other worker work (claim_row now other expires row) apart refl

-- A row that a claim did not choose is not the dispatch that it took.
is_held-missed :
    (chosen : Text → Bool) (work : DispatchWork) (worker : Text) (row : OutboxRow)
    → chosen work.id ≡ true
    → chosen row.id ≡ false
    → is_held work worker row ≡ false
unfolding is_held
is_held-missed chosen work worker row taken missed = elim (Bool-cases (text_eq row.id work.id)) [
  | inl same ↦
      let e = text_eq→eq row.id work.id same in
      cc (subst (λ (x : Text). chosen x ≡ false) e missed, taken)
  | inr apart ↦ ground (arith, apart)
]

-- Once another worker has claimed a dispatch, as it may when a claim has expired, a worker that still
-- holds the work of its own claim cannot settle it: its transition, whatever it would record, is
-- refused as a lost claim and changes nothing.
pub transition_dispatch-claim_lost :
    (locked : Text → Bool) (now : Time) (other : Text) (expires : Time) (limit : ℕ)
    (works : List DispatchWork) (work : DispatchWork) (worker : Text) (t : Transition) (db : Db)
    {db' : Db}
    → claim_dispatches locked now other expires limit db ≡ ok (works, db')
    → exists_where (λ (taken : DispatchWork). text_eq taken.id work.id) works ≡ true
    → text_eq other worker ≡ false
    → within_tx (transition_dispatch work worker t) db' ≡ (err claim_lost, db')
unfolding within_tx transition_dispatch claim_dispatches
transition_dispatch-claim_lost locked now other expires limit works work worker t db {db'} h among
      apart =
    let chosen = λ (id : Text). id_among id (dispatch_candidates locked now limit db.outbox) in
    let answer = ok-injective h in
    let taken = taken_among chosen now other expires work.id db.outbox (
      subst
        (λ (ws : List DispatchWork).
          exists_where (λ (taken : DispatchWork). text_eq taken.id work.id) ws ≡ true)
        (sym (ap (λ (r : List DispatchWork × Db). r.0) answer)) among) in
    let lost =
      update_where-All_cases (λ (row : OutboxRow). is_held work worker row ≡ false)
        (λ row. chosen row.id) (claim_row now other expires)
        (λ row hit. claim_row-is_held now other worker expires work row apart) db.outbox
        (All-intro (λ row miss. is_held-missed chosen work worker row taken miss) db.outbox) in
    let lost' =
      subst (λ (rows : List OutboxRow). All (λ row. is_held work worker row ≡ false) rows)
        (ap (λ (r : List DispatchWork × Db). r.1.outbox) answer) lost in
    rw (
      exists_where-count (is_held work worker) db'.outbox
          (exists_where-none (is_held work worker) db'.outbox lost'),
      within_tx,
    )
