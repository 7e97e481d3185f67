-- ===== src/Service/Idempotency.antt =====
-- An identity, which is a tenant, a scope and an idempotency key, is answered once.
use kokoro_scheduler.Base.{
  ℕ, ◌≡◌, refl, sym, ap, subst, ◌∙◌, ◌≢◌, inl, inr, true, false, not, Option, none, some, ◌∷◌,
  arith, Text, ok, err, idempotency_conflict, text_eq→eq, text_eq, Bool-cases, ok-injective,
  >>=-eq-ok, text_eq_refl,
}
use kokoro_scheduler.Store.Table.{first_row, select_where, exists_where}
use kokoro_scheduler.Store.Commands.{
  find_command_receipt, insert_command_receipt, scan_receipt, is_receipt,
}
use kokoro_scheduler.Store.Rows.{CommandReceipt, Db, CommandResult, within_tx, within_tx-ok}
use kokoro_scheduler.Domain.Time.{Time, normalize_instant, normalize_instant_idem}
use kokoro_scheduler.Recurrence.{Recurrence}
use kokoro_scheduler.Service.Command.{
  Command, execute_found, apply, new_receipt, execute, execute_tx,
}

-- Two commands with the same identity.
pub record IsSameIdentity (c c' : Command) : Type 0 where
  pub same_tenant : c'.tenant_id ≡ c.tenant_id
  pub same_scope : c'.command_scope ≡ c.command_scope
  pub same_key : c'.idempotency_key ≡ c.idempotency_key

-- The receipt of an identity, as `Execute` looks it up.
abbrev pub receipt_of : Command → Db → Option CommandReceipt
receipt_of c db = find_command_receipt c.tenant_id c.command_scope c.idempotency_key db

-- A receipt that stands first for its identity is found.
find_first :
    (c : Command) (receipt : CommandReceipt) (db : Db)
    → is_receipt c.tenant_id c.command_scope c.idempotency_key receipt ≡ true
    → receipt_of c (record db { receipts = receipt ∷ db.receipts }) ≡ some (scan_receipt receipt)
unfolding find_command_receipt first_row select_where
find_first c receipt db own = rw own

find_inserted :
    (c : Command) (at : Time) (result : CommandResult) (db : Db) {u : Unit {0}} {db' : Db}
    → insert_command_receipt (new_receipt c (normalize_instant at) result) db ≡ ok (u, db')
    → receipt_of c db' ≡ some (new_receipt c (normalize_instant at) result)
unfolding insert_command_receipt scan_receipt
find_inserted c at result db {u} {db'} h =
    let receipt = new_receipt c (normalize_instant at) result in
    let own : is_receipt c.tenant_id c.command_scope c.idempotency_key receipt ≡ true = ground (
      arith,
      text_eq_refl c.tenant_id,
      text_eq_refl c.command_scope,
      text_eq_refl c.idempotency_key,
    ) in
    elim (Bool-cases
      (exists_where (is_receipt c.tenant_id c.command_scope c.idempotency_key) db.receipts)) [
        | inl taken ↦ cc (rw taken at h)
        | inr free ↦
            subst (λ (o : Unit {0} × Db). receipt_of c o.1 ≡ some receipt)
              (ok-injective (rw free at h))
              (find_first c receipt db own
                ∙ ap (λ (t : Time). some (new_receipt c t result)) (normalize_instant_idem at))
      ]

module _ (r : Recurrence) (uuid : ℕ → Text) (applied_at received_at : Time) where
  execute_found-receipt :
      (c : Command) (found : Option CommandReceipt) (db : Db) {receipt : CommandReceipt} {db' : Db}
      → receipt_of c db ≡ found
      → execute_found r uuid applied_at received_at c found db ≡ ok (receipt, db')
      → (receipt_of c db' ≡ some receipt) × (text_eq receipt.request_digest c.request_digest ≡ true)
  unfolding execute_found
  execute_found-receipt c (some prior) db e h =
      elim (Bool-cases (not (text_eq prior.request_digest c.request_digest))) [
        | inl differs ↦ cc (rw differs at h)
        | inr same ↦
            subst
              (λ (o : CommandReceipt × Db).
                (receipt_of c o.1 ≡ some o.0)
                × (text_eq o.0.request_digest c.request_digest ≡ true))
              (ok-injective (rw same at h)) (e, ground arith)
      ]
  execute_found-receipt c none db e h =
      let (out, applied, rest) = >>=-eq-ok (apply r uuid applied_at received_at c db) _ h in
      let (done, inserted, final) = >>=-eq-ok (insert_command_receipt _ out.1) _ rest in
      subst
        (λ (o : CommandReceipt × Db).
          (receipt_of c o.1 ≡ some o.0) × (text_eq o.0.request_digest c.request_digest ≡ true))
        (ok-injective final)
        (find_inserted c received_at out.0 out.1 inserted, text_eq_refl c.request_digest)

module _ (r : Recurrence) (uuid : ℕ → Text) (applied_at received_at : Time) (c : Command) where
  -- After a command has succeeded its receipt is found, and has the command's digest.
  execute-receipt :
      (db : Db) {receipt : CommandReceipt} {db' : Db}
      → execute r uuid applied_at received_at c db ≡ (ok receipt, db')
      → (receipt_of c db' ≡ some receipt) × (text_eq receipt.request_digest c.request_digest ≡ true)
  unfolding execute execute_tx
  execute-receipt db h =
      execute_found-receipt r uuid applied_at received_at c (receipt_of c db) db refl
        (within_tx-ok (execute_tx r uuid applied_at received_at c) db h)

receipt_of-same :
    (c c' : Command) (db : Db) → IsSameIdentity c c' → receipt_of c' db ≡ receipt_of c db
receipt_of-same c c' db s = rw (s.same_tenant, s.same_scope, s.same_key)

-- A command that is sent again with the same identity and digest, at any later time, gets the receipt
-- of the first one and changes nothing; whatever its operation and schedule say by then.
pub execute-replay :
    (r : Recurrence) (uuid : ℕ → Text) (applied_at received_at applied_again received_again : Time)
    (c c' : Command) (db : Db) {receipt : CommandReceipt} {db' : Db}
    → execute r uuid applied_at received_at c db ≡ (ok receipt, db')
    → IsSameIdentity c c'
    → c'.request_digest ≡ c.request_digest
    → execute r uuid applied_again received_again c' db' ≡ (ok receipt, db')
unfolding execute execute_tx execute_found within_tx
execute-replay r uuid applied_at received_at applied_again received_again c c' db {receipt} {db'} h
      s d =
    let (found, digest) = execute-receipt r uuid applied_at received_at c db h in
    let found' = receipt_of-same c c' db' s ∙ found in
    let same : not (text_eq receipt.request_digest c'.request_digest) ≡ false =
      rw d (ground (arith, digest)) in
    rw (found', same, within_tx)

-- The same identity with another digest is refused as a conflict, and changes nothing.
pub execute-conflict :
    (r : Recurrence) (uuid : ℕ → Text) (applied_at received_at applied_again received_again : Time)
    (c c' : Command) (db : Db) {receipt : CommandReceipt} {db' : Db}
    → execute r uuid applied_at received_at c db ≡ (ok receipt, db')
    → IsSameIdentity c c'
    → c'.request_digest ≢ c.request_digest
    → execute r uuid applied_again received_again c' db' ≡ (err idempotency_conflict, db')
unfolding execute execute_tx execute_found within_tx
execute-conflict r uuid applied_at received_at applied_again received_again c c' db {receipt} {db'}
      h s d =
    let (found, digest) = execute-receipt r uuid applied_at received_at c db h in
    let found' = receipt_of-same c c' db' s ∙ found in
    let own = text_eq→eq receipt.request_digest c.request_digest digest in
    let differs : not (text_eq receipt.request_digest c'.request_digest) ≡ true =
      elim (Bool-cases (text_eq receipt.request_digest c'.request_digest)) [
        | inl equal ↦
            absurd (d (sym (text_eq→eq receipt.request_digest c'.request_digest equal) ∙ own))
        | inr apart ↦ rw apart
      ] in
    rw (found', differs, within_tx)
