-- ===== src/Planner/Order.antt =====
-- The instants that the planner plans are in order, due, and before the next due instant.
use kokoro_scheduler.Domain.Schedule.{skip, fire_once, catch_up_bounded, Schedule, MisfirePolicy}
use kokoro_scheduler.Base.{
  ℕ, zero, suc, ◌≤◌, ◌<◌, ◌≡◌, refl, inl, inr, List, [], ◌∷◌, ◌++◌, arith, Text, ok, Bool-cases,
  >>=-eq-ok, All, All-append, subst, ok-injective, ltb→lt, ◌≢◌, ◌||◌, false, ◌==◌, ==_iff, not,
}
use kokoro_scheduler.Domain.Time.{Time, normalize_instant, after, normalize_instant_idem, is_zero}
use kokoro_scheduler.Domain.Occurrence.{OccurrencePlan}
use kokoro_scheduler.Recurrence.{Recurrence, IsLawful, InReach}
use kokoro_scheduler.Planner.Plan.{
  Planned, dispatch_plan, skip_plan, catch_up_loop, close_catch_up, plan_schedule, plan_misfire,
  plan_due, bounded_catch_up,
}

-- Planned instants rise from `low` on and stay below `high`.
abbrev pub Rising : Time → List OccurrencePlan → Time → Type 0
Rising low [] high = low ≤ high
Rising low (p ∷ ps) high = (low ≤ p.scheduled_at) × Rising (suc p.scheduled_at) ps high

Rising-le : (low high : Time) (ps : List OccurrencePlan) → Rising low ps high → low ≤ high
Rising-le low high [] h = h
Rising-le low high (p ∷ ps) h = omega (arith, h.0, Rising-le (suc p.scheduled_at) high ps h.1)

pub Rising-snoc :
    (low high : Time) (ps : List OccurrencePlan) (p : OccurrencePlan) (high' : Time)
    → Rising low ps high
    → high ≤ p.scheduled_at
    → p.scheduled_at < high'
    → Rising low (ps ++ p ∷ []) high'
Rising-snoc low high [] p high' h a b = (omega arith, b)
Rising-snoc low high (q ∷ ps) p high' h a b =
    (h.0, Rising-snoc (suc q.scheduled_at) high ps p high' h.1 a b)

-- A plan of a run at `now`: it is due, and carries the instant of the run.
abbrev pub IsDue : Time → OccurrencePlan → Type 0
IsDue now p = (p.scheduled_at ≤ now) × (p.observed_at ≡ now)

-- What a planning pass gives: plans that are due and rise from `due` to `high`.
pub record IsOrdered (now due : Time) (ps : List OccurrencePlan) (high : Time) : Type 0 where
  pub rising : Rising due ps high
  pub all_due : All (IsDue now) ps
  pub aligned : normalize_instant high ≡ high

IsOrdered-snoc :
    (now due high : Time) (ps : List OccurrencePlan) (p : OccurrencePlan) (high' : Time)
    → IsOrdered now due ps high
    → p.scheduled_at ≡ high
    → IsDue now p
    → high < high'
    → normalize_instant high' ≡ high'
    → IsOrdered now due (ps ++ p ∷ []) high'
IsOrdered-snoc now due high ps p high' v e d h a = record {
  rising = Rising-snoc due high ps p high' v.rising (omega arith) (omega arith);
  all_due = All-append (IsDue now) ps (p ∷ []) v.all_due (d, tt);
  aligned = a;
}

module _ (r : Recurrence) (lawful : IsLawful r) (now : Time)
    (now_whole : normalize_instant now ≡ now) where
  catch_up_loop-IsOrdered :
      (rule timezone : Text) (due : Time) (n : ℕ) (ps : List OccurrencePlan) (c : Time)
      {out : Planned}
      → IsOrdered now due ps c
      → catch_up_loop r rule timezone now n ps c ≡ ok out
      → IsOrdered now due out.0 out.1
  unfolding catch_up_loop dispatch_plan
  catch_up_loop-IsOrdered rule timezone due zero ps c v h =
      subst (λ o. IsOrdered now due o.0 o.1) (ok-injective h) v
  catch_up_loop-IsOrdered rule timezone due (suc n) ps c {out} v h =
      elim (Bool-cases (after c now)) [
        | inl late ↦ subst (λ o. IsOrdered now due o.0 o.1) (ok-injective (rw late at h)) v
        | inr early ↦
            let (t, e, rest) = >>=-eq-ok (r.next rule timezone c) _ (rw early at h) in
            catch_up_loop-IsOrdered rule timezone due n (ps ++ dispatch_plan c now ∷ []) t
              (IsOrdered-snoc now due c ps _ t v v.aligned (ground (arith, v.aligned), now_whole)
                (lawful.next_later rule timezone c t e) (lawful.next_aligned rule timezone c t e))
              rest
      ]

  close_catch_up-IsOrdered :
      (rule timezone : Text) (due : Time) (ps : List OccurrencePlan) (c : Time) {out : Planned}
      → IsOrdered now due ps c
      → InReach c now
      → close_catch_up r rule timezone now ps c ≡ ok out
      → IsOrdered now due out.0 out.1 × (now < out.1)
  unfolding close_catch_up skip_plan
  close_catch_up-IsOrdered rule timezone due ps c {out} v reach h =
      elim (Bool-cases (after c now)) [
        | inl late ↦
            subst (λ o. IsOrdered now due o.0 o.1 × (now < o.1)) (ok-injective (rw late at h))
              (v, ltb→lt now c late)
        | inr early ↦
            let (t, e, rest) = >>=-eq-ok (r.next_after rule timezone c now) _ (rw early at h) in
            let later : now < t =
              lawful.next_after_later rule timezone c now t v.aligned now_whole reach e in
            subst (λ o. IsOrdered now due o.0 o.1 × (now < o.1)) (ok-injective rest)
              (
                IsOrdered-snoc now due c ps _ t v refl (ground arith, refl) (ground arith)
                    (lawful.next_after_aligned rule timezone c now t e),
                later,
              )
      ]

  single-IsOrdered :
      (due : Time) (p : OccurrencePlan) (t : Time)
      → p.scheduled_at ≡ due
      → IsDue now p
      → due < t
      → normalize_instant t ≡ t
      → IsOrdered now due (p ∷ []) t
  single-IsOrdered due p t e d h a = record {
    rising = (omega arith, omega arith);
    all_due = (d, tt);
    aligned = a;
  }

  -- What each late policy plans.
  plan_misfire-IsOrdered :
      (m : MisfirePolicy) (s : Schedule) (due : Time) {out : Planned}
      → normalize_instant due ≡ due
      → due ≤ now
      → InReach due now
      → plan_misfire r m s due now ≡ ok out
      → IsOrdered now due out.0 out.1 × (now < out.1)
  unfolding plan_misfire bounded_catch_up dispatch_plan skip_plan
  plan_misfire-IsOrdered skip s due a le reach h =
      let (t, e, rest) = >>=-eq-ok (r.next_after s.rule s.timezone due now) _ h in
      let later : now < t =
        lawful.next_after_later s.rule s.timezone due now t a now_whole reach e in
      subst (λ o. IsOrdered now due o.0 o.1 × (now < o.1)) (ok-injective rest)
        (
          single-IsOrdered due _ t refl (le, refl) (omega arith)
              (lawful.next_after_aligned s.rule s.timezone due now t e),
          later,
        )
  plan_misfire-IsOrdered fire_once s due a le reach h =
      let (t, e, rest) = >>=-eq-ok (r.next_after s.rule s.timezone due now) _ h in
      let later : now < t =
        lawful.next_after_later s.rule s.timezone due now t a now_whole reach e in
      subst (λ o. IsOrdered now due o.0 o.1 × (now < o.1)) (ok-injective rest)
        (
          single-IsOrdered due _ t a (ground (arith, a), now_whole) (omega arith)
              (lawful.next_after_aligned s.rule s.timezone due now t e),
          later,
        )
  plan_misfire-IsOrdered catch_up_bounded s due a le reach h =
      let (o, e, rest) = >>=-eq-ok (catch_up_loop r s.rule s.timezone now _ [] due) _ h in
      let looped =
        catch_up_loop-IsOrdered s.rule s.timezone due _ [] due
          (record { rising = omega arith; all_due = tt; aligned = a }) e in
      let later = Rising-le due o.1 o.0 looped.rising in
      close_catch_up-IsOrdered s.rule s.timezone due o.0 o.1 looped (omega (arith, reach, later))
        rest
  plan_misfire-IsOrdered (MisfirePolicy.other t) s due a le reach h = cc

  plan_due-IsOrdered :
      (s : Schedule) (due : Time) {out : Planned}
      → normalize_instant due ≡ due
      → due ≢ 0
      → due ≤ now
      → InReach due now
      → s.run_at ≡ 0
      → plan_due r s now due ≡ ok out
      → IsOrdered now due out.0 out.1 × (now < out.1)
  unfolding plan_due dispatch_plan
  plan_due-IsOrdered s due {out} a nonzero le reach recurring h = elim (Bool-cases (due == now)) [
    | inl on_time ↦
        let (t, e, rest) =
          >>=-eq-ok (r.next s.rule s.timezone due) _ (rw (is_due, every, on_time) at h) in
        let later = lawful.next_later s.rule s.timezone due t e in
        let same = (==_iff due now).0 on_time in
        subst (λ o. IsOrdered now due o.0 o.1 × (now < o.1)) (ok-injective rest)
          (
            single-IsOrdered due _ t a (ground (arith, a), now_whole) later
                (lawful.next_aligned s.rule s.timezone due t e),
            omega (arith, same, later),
          )
    | inr late ↦
        plan_misfire-IsOrdered s.misfire_policy s due a le reach (rw (is_due, every, late) at h)
  ]
    where
      is_due : (is_zero due || after due now) ≡ false
      is_due = ground arith

      every : not (is_zero s.run_at) ≡ false
      every = ground arith

-- For a recurring schedule that is due and within reach, under a lawful recurrence: the planned
-- instants rise strictly from the due instant on, none lies behind the instant of the run, each plan
-- carries that instant, and the next due instant lies behind both the run and every planned instant.
pub plan_schedule-IsOrdered :
    (r : Recurrence) (s : Schedule) (now : Time) {out : Planned}
    → IsLawful r
    → s.run_at ≡ 0
    → normalize_instant s.next_due_at ≢ 0
    → normalize_instant s.next_due_at ≤ normalize_instant now
    → InReach (normalize_instant s.next_due_at) (normalize_instant now)
    → plan_schedule r s now ≡ ok out
    → IsOrdered (normalize_instant now) (normalize_instant s.next_due_at) out.0 out.1
      × (normalize_instant now < out.1)
unfolding plan_schedule
plan_schedule-IsOrdered r s now lawful recurring nonzero le reach h =
    plan_due-IsOrdered r lawful (normalize_instant now) (normalize_instant_idem now) s
      (normalize_instant s.next_due_at) (normalize_instant_idem s.next_due_at) nonzero le reach
      recurring h
