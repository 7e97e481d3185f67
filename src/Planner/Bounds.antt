-- ===== src/Planner/Bounds.antt =====
-- How many occurrences one planning pass makes, and in which states.
use kokoro_scheduler.Domain.Time.{Time, normalize_instant, is_zero, after, normalize_instant_idem}
use kokoro_scheduler.Recurrence.{Recurrence}
use kokoro_scheduler.Planner.Plan.{
  plan_once, plan_schedule, plan_due, dispatch_plan, plan_misfire, bounded_catch_up, skip_plan,
  close_catch_up, Planned, catch_up_loop,
}
use kokoro_scheduler.Domain.Occurrence.{
  OccurrencePlan, pending, no_code, skipped, misfire_skipped, misfire_bound_exceeded,
}
use kokoro_scheduler.Base.{
  ℕ, zero, suc, ◌+◌, ◌≤◌, ◌<◌, ◌≡◌, refl, subst, ◌≢◌, ◌↔◌, ◌⊎◌, inl, inr, Bool, true, false, not,
  ◌||◌, List, [], ◌∷◌, ◌++◌, arith, ◌==◌, Text, ok, All, length, count_if, ok-injective, Bool-cases,
  pos_part, >>=-eq-ok, count_if-le-length, All-append, length-append, count_if-append,
}
use kokoro_scheduler.Domain.Schedule.{skip, fire_once, catch_up_bounded, MisfirePolicy, Schedule}

-- A plan is dispatched and pending, or recorded as skipped with a misfire code.
abbrev pub IsWellFormed : OccurrencePlan → Type 0
IsWellFormed p =
    ((p.dispatch ≡ true) × (p.status ≡ pending) × (p.outcome_code ≡ no_code) × (p.missed_count ≡ 1))
    ⊎ ((p.dispatch ≡ false)
        × (p.status ≡ skipped)
        × ((p.outcome_code ≡ misfire_skipped) ⊎ (p.outcome_code ≡ misfire_bound_exceeded))
        × (p.missed_count ≡ 1))

abbrev is_dispatched : OccurrencePlan → Bool
is_dispatched p = p.dispatch

-- At most `limit` dispatches and one more plan.
pub record IsBounded (limit : ℕ) (ps : List OccurrencePlan) : Type 0 where
  pub formed : All IsWellFormed ps
  pub few : length ps ≤ suc limit
  pub few_dispatched : count_if is_dispatched ps ≤ limit

module _ (r : Recurrence) (rule timezone : Text) (now : Time) where
  catch_up_loop-formed :
      (n : ℕ) (ps : List OccurrencePlan) (c : Time) {out : Planned}
      → All IsWellFormed ps
      → catch_up_loop r rule timezone now n ps c ≡ ok out
      → All IsWellFormed out.0 × (length out.0 ≤ length ps + n)
  unfolding catch_up_loop dispatch_plan
  catch_up_loop-formed zero ps c v h =
      subst (λ (o : Planned). All IsWellFormed o.0 × (length o.0 ≤ length ps + 0)) (ok-injective h)
        (v, omega arith)
  catch_up_loop-formed (suc n) ps c v h = elim (Bool-cases (after c now)) [
    | inl late ↦
        subst (λ (o : Planned). All IsWellFormed o.0 × (length o.0 ≤ length ps + suc n))
          (ok-injective (rw late at h)) (v, omega arith)
    | inr early ↦
        let (t, next, rest) = >>=-eq-ok (r.next rule timezone c) _ (rw early at h) in
        let plan = dispatch_plan c now in
        let (formed, few) =
          catch_up_loop-formed n (ps ++ plan ∷ []) t
            (All-append IsWellFormed ps (plan ∷ []) v (inl (refl, refl, refl, refl), tt)) rest in
        (formed, omega (arith, few, length-append ps (plan ∷ [])))
  ]

  close_catch_up-IsBounded :
      (limit : ℕ) (ps : List OccurrencePlan) (c : Time) {out : Planned}
      → All IsWellFormed ps
      → length ps ≤ limit
      → close_catch_up r rule timezone now ps c ≡ ok out
      → IsBounded limit out.0
  unfolding close_catch_up skip_plan
  close_catch_up-IsBounded limit ps c v few h = elim (Bool-cases (after c now)) [
    | inl late ↦
        subst (λ (o : Planned). IsBounded limit o.0) (ok-injective (rw late at h))
          (record {
            formed = v;
            few = omega (arith, few);
            few_dispatched = omega (arith, few, count_if-le-length is_dispatched ps);
          })
    | inr early ↦
        let (t, next, rest) = >>=-eq-ok (r.next_after rule timezone c now) _ (rw early at h) in
        let plan = skip_plan c now misfire_bound_exceeded in
        subst (λ (o : Planned). IsBounded limit o.0) (ok-injective rest)
          (record {
            formed =
                All-append IsWellFormed ps (plan ∷ []) v (inr (refl, refl, inr refl, refl), tt);
            few = omega (arith, few, length-append ps (plan ∷ []));
            few_dispatched = omega (
              arith,
              few,
              count_if-append is_dispatched ps (plan ∷ []),
              count_if-le-length is_dispatched ps,
            );
          })
  ]

single-IsBounded :
    (limit : ℕ) (p : OccurrencePlan) → 1 ≤ limit → IsWellFormed p → IsBounded limit (p ∷ [])
single-IsBounded limit p h w = record {
  formed = (w, tt);
  few = omega arith;
  few_dispatched = ground arith;
}

plan_misfire-IsBounded :
    (r : Recurrence) (m : MisfirePolicy) (s : Schedule) (due now : Time) {out : Planned}
    → 1 ≤ pos_part s.catch_up_limit
    → plan_misfire r m s due now ≡ ok out
    → IsBounded (pos_part s.catch_up_limit) out.0
unfolding plan_misfire bounded_catch_up skip_plan dispatch_plan
plan_misfire-IsBounded r skip s due now h e =
    let (t, next, rest) = >>=-eq-ok (r.next_after s.rule s.timezone due now) _ e in
    subst (λ (o : Planned). IsBounded (pos_part s.catch_up_limit) o.0) (ok-injective rest)
      (single-IsBounded _ _ h (inr (refl, refl, inl refl, refl)))
plan_misfire-IsBounded r fire_once s due now h e =
    let (t, next, rest) = >>=-eq-ok (r.next_after s.rule s.timezone due now) _ e in
    subst (λ (o : Planned). IsBounded (pos_part s.catch_up_limit) o.0) (ok-injective rest)
      (single-IsBounded _ _ h (inl (refl, refl, refl, refl)))
plan_misfire-IsBounded r catch_up_bounded s due now h e =
    let (o, loop, rest) =
      >>=-eq-ok (catch_up_loop r s.rule s.timezone now (pos_part s.catch_up_limit) [] due) _ e in
    let (formed, few) = catch_up_loop-formed r s.rule s.timezone now _ [] due tt loop in
    close_catch_up-IsBounded r s.rule s.timezone now (pos_part s.catch_up_limit) o.0 o.1 formed
      (omega (arith, few)) rest
plan_misfire-IsBounded r (MisfirePolicy.other t) s due now h e = cc

plan_once-IsWellFormed : (m : MisfirePolicy) (due now : Time) → IsWellFormed (plan_once m due now)
unfolding plan_once dispatch_plan
plan_once-IsWellFormed skip due now = ground arith
plan_once-IsWellFormed fire_once due now = inl (refl, refl, refl, refl)
plan_once-IsWellFormed catch_up_bounded due now = inl (refl, refl, refl, refl)
plan_once-IsWellFormed (MisfirePolicy.other t) due now = inl (refl, refl, refl, refl)

-- The one plan of a schedule that runs once.
plan_once_lem :
    (m : MisfirePolicy) (due now : Time)
    → normalize_instant due ≡ due
    → normalize_instant now ≡ now
    → ((plan_once m due now).scheduled_at ≡ due)
      × ((plan_once m due now).observed_at ≡ now)
      × (((plan_once m due now).dispatch ≡ false) ↔ ((m ≡ skip) × (due < now)))
unfolding plan_once dispatch_plan
plan_once_lem skip due now a b =
    (ground (arith, a), ground (arith, b), (λ h. ground arith, λ h. ground arith))
plan_once_lem fire_once due now a b = (a, b, (λ h. cc, λ h. cc h.0))
plan_once_lem catch_up_bounded due now a b = (a, b, (λ h. cc, λ h. cc h.0))
plan_once_lem (MisfirePolicy.other t) due now a b = (a, b, (λ h. cc, λ h. cc h.0))

plan_due-IsBounded :
    (r : Recurrence) (s : Schedule) (now due : Time) {out : Planned}
    → 1 ≤ pos_part s.catch_up_limit
    → plan_due r s now due ≡ ok out
    → IsBounded (pos_part s.catch_up_limit) out.0
unfolding plan_due
plan_due-IsBounded r s now due {out} h e = elim (Bool-cases (is_zero due || after due now)) [
  | inl idle ↦
      subst (λ (o : Planned). IsBounded limit o.0) (ok-injective (rw idle at e))
        (record { formed = tt; few = omega arith; few_dispatched = omega arith })
  | inr is_due ↦ elim (Bool-cases (not (is_zero s.run_at))) [
    | inl once ↦
        subst (λ (o : Planned). IsBounded limit o.0) (ok-injective (rw (is_due, once) at e))
          (single-IsBounded _ _ h (plan_once-IsWellFormed s.misfire_policy due now))
    | inr every ↦ elim (Bool-cases (due == now)) [
      | inl on_time ↦
          let (t, next, rest) =
            >>=-eq-ok (r.next s.rule s.timezone due) _ (rw (is_due, every, on_time) at e) in
          subst (λ (o : Planned). IsBounded limit o.0) (ok-injective rest)
            (single-IsBounded _ _ h (unfold dispatch_plan in inl (refl, refl, refl, refl)))
      | inr late ↦
          plan_misfire-IsBounded r s.misfire_policy s due now h (rw (is_due, every, late) at e)
    ]
  ]
]
  where
    limit : ℕ
    limit = pos_part s.catch_up_limit

-- Every plan of a pass is either pending and dispatched, without an outcome code, or skipped with a
-- misfire code, and counts one missed occurrence. A pass dispatches at most as many occurrences as
-- the catch-up limit, and plans at most one more, where that limit is positive.
pub plan_schedule-IsBounded :
    (r : Recurrence) (s : Schedule) (now : Time) {out : Planned}
    → 1 ≤ pos_part s.catch_up_limit
    → plan_schedule r s now ≡ ok out
    → IsBounded (pos_part s.catch_up_limit) out.0
unfolding plan_schedule
plan_schedule-IsBounded r s now h e = plan_due-IsBounded r s _ _ h e

-- A schedule with a single instant that is due is planned once, at that instant, and has no next due instant
-- afterwards. The occurrence is dispatched, unless it is late and the policy is to skip.
pub plan_schedule-once :
    (r : Recurrence) (s : Schedule) (now : Time)
    → s.run_at ≢ 0
    → normalize_instant s.next_due_at ≢ 0
    → normalize_instant s.next_due_at ≤ normalize_instant now
    → (p : OccurrencePlan) × (plan_schedule r s now ≡ ok (p ∷ [], 0))
      × (p.scheduled_at ≡ normalize_instant s.next_due_at)
      × (p.observed_at ≡ normalize_instant now)
      × ((p.dispatch ≡ false)
          ↔ ((s.misfire_policy ≡ skip) × (normalize_instant s.next_due_at < normalize_instant now)))
unfolding plan_schedule plan_due
plan_schedule-once r s now once nonzero le =
    let due = normalize_instant s.next_due_at in
    let now' = normalize_instant now in
    let is_due : (is_zero due || after due now') ≡ false = ground arith in
    let run_once : not (is_zero s.run_at) ≡ true = ground arith in
    let (at, seen, iff) =
      plan_once_lem s.misfire_policy due now' (normalize_instant_idem s.next_due_at)
        (normalize_instant_idem now) in
    (plan_once s.misfire_policy due now', rw (is_due, run_once), at, seen, iff)
