-- ===== src/Planner/Replay.antt =====
-- Planning an instant again adds nothing.
use kokoro_scheduler.Base.{
  ℕ, ◌≤◌, ◌≡◌, refl, sym, ap, subst, ◌∙◌, ◌⊎◌, inl, inr, Bool, true, false, not, Option, none, some,
  List, [], ◌∷◌, arith, Text, ok, text_eq_refl, >>=-eq-ok, ok-injective, All, count_if, Bool-cases,
}
use kokoro_scheduler.Planner.Overlap.{insert_dispatch_outbox-length}
use kokoro_scheduler.Store.Table.{exists_where}
use kokoro_scheduler.Domain.Time.{Time}
use kokoro_scheduler.Store.Rows.{Db}
use kokoro_scheduler.Store.Due.{
  insert_occurrence, is_occurrence_at, new_occurrence, insert_dispatch_outbox,
}
use kokoro_scheduler.Domain.Occurrence.{OccurrencePlan}
use kokoro_scheduler.Planner.Materialize.{
  insert_plan, block_overlap, insert_plans, dispatch_inserted,
}
use kokoro_scheduler.Domain.Schedule.{Schedule}

-- The occurrence of a plan is in the store.
abbrev pub IsRecorded : Schedule → Db → OccurrencePlan → Type 0
IsRecorded schedule db plan =
    exists_where (is_occurrence_at schedule plan.scheduled_at) db.occurrences ≡ true

-- No two occurrences have the same tenant, schedule and instant.
abbrev pub HasUniqueKeys : Db → Type 0
HasUniqueKeys db =
    (schedule : Schedule) (at : Time) → count_if (is_occurrence_at schedule at) db.occurrences ≤ 1

block_overlap-scheduled_at :
    (open_ : Bool) (plan : OccurrencePlan)
    → (block_overlap open_ plan).scheduled_at ≡ plan.scheduled_at
unfolding block_overlap
block_overlap-scheduled_at open_ plan = ground arith

module _ (uuid : ℕ → Text) (schedule : Schedule) where
  insert_plan-recorded :
      (plan : OccurrencePlan) (open_ : Bool) (db : Db)
      → IsRecorded schedule db plan
      → insert_plan uuid schedule plan open_ db ≡ ok (open_, db)
  unfolding insert_plan insert_occurrence dispatch_inserted
  insert_plan-recorded plan open_ db h = rw (block_overlap-scheduled_at open_ plan, h)

  insert_plans-recorded :
      (plans : List OccurrencePlan) (open_ : Bool) (db : Db)
      → All (IsRecorded schedule db) plans
      → insert_plans uuid schedule plans open_ db ≡ ok (tt, db)
  unfolding insert_plans
  insert_plans-recorded [] open_ db h = refl
  insert_plans-recorded (plan ∷ plans) open_ db h =
      rw (insert_plan-recorded plan open_ db h.0) (insert_plans-recorded plans open_ db h.1)

  dispatch_inserted-occurrences :
      (plan : OccurrencePlan) (open_ : Bool) (found : Option Text) (db : Db) {open' : Bool}
      {db' : Db}
      → dispatch_inserted uuid schedule plan open_ found db ≡ ok (open', db')
      → db'.occurrences ≡ db.occurrences
  unfolding dispatch_inserted
  dispatch_inserted-occurrences plan open_ none db h = ground arith
  dispatch_inserted-occurrences plan open_ (some id) db h = elim (Bool-cases (not plan.dispatch)) [
    | inl off ↦ ap (λ (r : Bool × Db). r.1.occurrences) (sym (ok-injective (rw off at h)))
    | inr on ↦
        let (out, added, rest) =
          >>=-eq-ok (insert_dispatch_outbox uuid schedule id plan db) _ (rw on at h) in
        ap (λ (r : Bool × Db). r.1.occurrences) (sym (ok-injective rest))
        ∙ (insert_dispatch_outbox-length uuid schedule id plan db added).1
  ]

  insert_occurrence-cases :
      (plan : OccurrencePlan) (db : Db) {found : Option Text} {db' : Db}
      → insert_occurrence uuid schedule plan db ≡ ok (found, db')
      → ((exists_where (is_occurrence_at schedule plan.scheduled_at) db.occurrences ≡ true)
          × (db'.occurrences ≡ db.occurrences))
        ⊎ ((exists_where (is_occurrence_at schedule plan.scheduled_at) db.occurrences ≡ false)
            × (db'.occurrences ≡ new_occurrence (uuid db.issued) schedule plan ∷ db.occurrences))
  unfolding insert_occurrence
  insert_occurrence-cases plan db h = ground arith

  -- The occurrences after a round: those before it, and the new one unless its key was taken.
  pub insert_plan-occurrences :
      (plan : OccurrencePlan) (open_ : Bool) (db : Db) {open' : Bool} {db' : Db}
      → insert_plan uuid schedule plan open_ db ≡ ok (open', db')
      → let plan' = block_overlap open_ plan in
        ((exists_where (is_occurrence_at schedule plan'.scheduled_at) db.occurrences ≡ true)
          × (db'.occurrences ≡ db.occurrences))
        ⊎ ((exists_where (is_occurrence_at schedule plan'.scheduled_at) db.occurrences ≡ false)
            × (db'.occurrences ≡ new_occurrence (uuid db.issued) schedule plan' ∷ db.occurrences))
  unfolding insert_plan
  insert_plan-occurrences plan open_ db h =
      let plan' = block_overlap open_ plan in
      let (out, e, rest) = >>=-eq-ok (insert_occurrence uuid schedule plan' db) _ h in
      let same = dispatch_inserted-occurrences plan' open_ out.0 out.1 rest in
      elim (insert_occurrence-cases plan' db e) [
        | inl (taken, kept) ↦ inl (taken, same ∙ kept)
        | inr (free, added) ↦ inr (free, same ∙ added)
      ]

  new_occurrence-key :
      (id : Text) (plan : OccurrencePlan)
      → is_occurrence_at schedule plan.scheduled_at (new_occurrence id schedule plan) ≡ true
  unfolding new_occurrence
  new_occurrence-key id plan =
      ground (arith, text_eq_refl schedule.tenant_id, text_eq_refl schedule.id)

  -- A round records its plan, and forgets none.
  insert_plan-IsRecorded :
      (plan other : OccurrencePlan) (open_ : Bool) (db : Db) {open' : Bool} {db' : Db}
      → insert_plan uuid schedule plan open_ db ≡ ok (open', db')
      → IsRecorded schedule db' plan
        × (IsRecorded schedule db other → IsRecorded schedule db' other)
  unfolding exists_where
  insert_plan-IsRecorded plan other open_ db h =
      let same = block_overlap-scheduled_at open_ plan in
      let key = new_occurrence-key (uuid db.issued) (block_overlap open_ plan) in
      elim (insert_plan-occurrences plan open_ db h) [
        | inl (taken, kept) ↦ (rw (kept, ← same) taken, λ r. rw kept r)
        | inr (free, added) ↦
            (rw (added, ← same) (ground (arith, key)), λ r. rw added (ground (arith, r)))
      ]

  insert_plans-keeps :
      (plans : List OccurrencePlan) (other : OccurrencePlan) (open_ : Bool) (db : Db) {u : Unit {0}}
      {db' : Db}
      → insert_plans uuid schedule plans open_ db ≡ ok (u, db')
      → IsRecorded schedule db other
      → IsRecorded schedule db' other
  unfolding insert_plans
  insert_plans-keeps [] other open_ db h r =
      subst (λ (o : Unit {0} × Db). IsRecorded schedule o.1 other) (ok-injective h) r
  insert_plans-keeps (plan ∷ plans) other open_ db h r =
      let (out, e, rest) = >>=-eq-ok (insert_plan uuid schedule plan open_ db) _ h in
      insert_plans-keeps plans other out.0 out.1 rest
        ((insert_plan-IsRecorded plan other open_ db e).1 r)

  insert_plans-IsRecorded :
      (plans : List OccurrencePlan) (open_ : Bool) (db : Db) {u : Unit {0}} {db' : Db}
      → insert_plans uuid schedule plans open_ db ≡ ok (u, db')
      → All (IsRecorded schedule db') plans
  unfolding insert_plans
  insert_plans-IsRecorded [] open_ db h = tt
  insert_plans-IsRecorded (plan ∷ plans) open_ db h =
      let (out, e, rest) = >>=-eq-ok (insert_plan uuid schedule plan open_ db) _ h in
      (
        insert_plans-keeps plans plan out.0 out.1 rest
            (insert_plan-IsRecorded plan plan open_ db e).0,
        insert_plans-IsRecorded plans out.0 out.1 rest,
      )

-- Once the plans of a pass are in the store, inserting them again changes nothing, whether or not an
-- occurrence is open by then: a repeated pass adds neither an occurrence nor a dispatch.
pub insert_plans-twice :
    (uuid : ℕ → Text) (schedule : Schedule) (plans : List OccurrencePlan) (open_ open' : Bool)
    (db : Db) {db' : Db}
    → insert_plans uuid schedule plans open_ db ≡ ok (tt, db')
    → insert_plans uuid schedule plans open' db' ≡ ok (tt, db')
insert_plans-twice uuid schedule plans open_ open' db {db'} h =
    insert_plans-recorded uuid schedule plans open' db'
      (insert_plans-IsRecorded uuid schedule plans open_ db h)
