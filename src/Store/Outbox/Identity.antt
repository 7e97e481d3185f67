-- ===== src/Store/Outbox/Identity.antt =====
-- The primary key of the outbox, and that a claim reaches only the rows that it selected.
use kokoro_scheduler.Domain.Time.{Time}
use kokoro_scheduler.Store.Outbox.{id_among, dispatch_candidates, is_ready, dispatch_before}
use kokoro_scheduler.Store.Rows.{OutboxRow}
use kokoro_scheduler.Store.Table.{insert_by, select_where, order_by}
use kokoro_scheduler.Base.{
  ℕ, zero, suc, ◌≡◌, refl, sym, ◌∙◌, inl, inr, Bool, true, false, not, ◌&&◌, ◌||◌, List, [], ◌∷◌,
  arith, Text, take, All, text_eq, All-mono, Bool-cases, text_eq_sym, All-zip,
}

-- No two rows have the same id.
abbrev pub UniqueIds : List OutboxRow → Type 0
UniqueIds [] = Unit
UniqueIds (row ∷ rows) =
    All (λ (other : OutboxRow). text_eq other.id row.id ≡ false) rows × UniqueIds rows

id_among-take :
    (id : Text) (n : ℕ) (rows : List OutboxRow)
    → id_among id (take n rows) ≡ true
    → id_among id rows ≡ true
unfolding id_among
id_among-take id zero rows h = cc
id_among-take id (suc n) [] h = cc
id_among-take id (suc n) (row ∷ rows) h = ground (arith, id_among-take id n rows)

id_among-insert_by :
    (id : Text) (lt : OutboxRow → OutboxRow → Bool) (row : OutboxRow) (rows : List OutboxRow)
    → id_among id (insert_by lt row rows) ≡ (text_eq row.id id || id_among id rows)
unfolding id_among insert_by
id_among-insert_by id lt row [] = refl
id_among-insert_by id lt row (y ∷ rows) = ground (arith, id_among-insert_by id lt row rows)

id_among-order_by :
    (id : Text) (lt : OutboxRow → OutboxRow → Bool) (rows : List OutboxRow)
    → id_among id (order_by lt rows) ≡ id_among id rows
unfolding id_among order_by
id_among-order_by id lt [] = refl
id_among-order_by id lt (y ∷ rows) =
    ground (arith, id_among-insert_by id lt y (order_by lt rows), id_among-order_by id lt rows)

id_among-absent :
    (id : Text) (q : OutboxRow → Bool) (rows : List OutboxRow)
    → All (λ (other : OutboxRow). text_eq other.id id ≡ false) rows
    → id_among id (select_where q rows) ≡ false
unfolding id_among select_where
id_among-absent id q [] h = refl
id_among-absent id q (row ∷ rows) h = ground (arith, id_among-absent id q rows h.1, h.0)

-- With a unique id, a row whose id was selected is itself a selected row.
selected_rows :
    (q : OutboxRow → Bool) (rows : List OutboxRow)
    → UniqueIds rows
    → All (λ (row : OutboxRow). id_among row.id (select_where q rows) ≡ true → q row ≡ true) rows
unfolding id_among select_where
selected_rows q [] u = tt
selected_rows q (row ∷ rows) u = (
  head_row,
  All-mono _ _ (λ other k. tail_row other k.0 k.1) rows
      (All-zip _ _ rows u.0 (selected_rows q rows u.1)),
)
  where
    head_row : id_among row.id (select_where q (row ∷ rows)) ≡ true → q row ≡ true
    head_row h = ground (arith, id_among-absent row.id q rows u.0)

    tail_row :
        (other : OutboxRow)
        → text_eq other.id row.id ≡ false
        → (id_among other.id (select_where q rows) ≡ true → q other ≡ true)
        → id_among other.id (select_where q (row ∷ rows)) ≡ true
        → q other ≡ true
    tail_row other apart ih h = elim (Bool-cases (q row)) [
      | inl hit ↦ ih (ground (arith, h, text_eq_sym row.id other.id))
      | inr miss ↦ ih (rw miss at h)
    ]

-- Every row that a claim takes was ready and not held by another transaction.
pub candidates_ready :
    (locked : Text → Bool) (now : Time) (limit : ℕ) (rows : List OutboxRow)
    → UniqueIds rows
    → All
        (λ (row : OutboxRow).
          id_among row.id (dispatch_candidates locked now limit rows) ≡ true
          → (is_ready now row && not (locked row.id)) ≡ true)
        rows
unfolding dispatch_candidates
candidates_ready locked now limit rows u =
    let q = λ (row : OutboxRow). is_ready now row && not (locked row.id) in
    All-mono _ _
      (λ row k h. k (
        sym (id_among-order_by row.id dispatch_before (select_where q rows))
        ∙ id_among-take row.id limit _ h))
      rows (selected_rows q rows u)
