-- ===== src/Planner/Chain.antt =====
-- `boundedCatchUp` against its description: the recurrence followed from the due instant.
use kokoro_scheduler.Base.{
  zero, refl, ◌∙◌, false, Text, List, ℕ, length, ◌≤◌, ◌<◌, ◌⊎◌, ◌≡◌, ◌++◌, ◌+◌, ok, ◌∷◌, inl, arith,
  subst, [], ok-injective, lt→ltb, suc, ap, sym, Bool-cases, ltb→lt, inr, >>=-eq-ok, length-append,
  pos_part,
}
use kokoro_scheduler.Domain.Schedule.{Schedule}
use kokoro_scheduler.Domain.Occurrence.{OccurrencePlan, misfire_bound_exceeded}
use kokoro_scheduler.Domain.Time.{Time, after}
use kokoro_scheduler.Recurrence.{Recurrence}
use kokoro_scheduler.Planner.Plan.{
  bounded_catch_up, catch_up_loop, close_catch_up, Planned, skip_plan, dispatch_plan,
}

module _ (r : Recurrence) (rule timezone : Text) (now : Time) where
  -- Dispatches for `start` and the instants that the recurrence gives one after another, and the
  -- instant behind the last of them.
  abbrev pub Follows : Time → List OccurrencePlan → Time → Type 0
  Follows start [] end = start ≡ end
  Follows start (p ∷ ps) end =
      (p ≡ dispatch_plan start now)
      × ((t : Time) × (r.next rule timezone start ≡ ok t) × Follows t ps end)

  Follows-snoc :
      (start end t : Time) (ps : List OccurrencePlan)
      → Follows start ps end
      → r.next rule timezone end ≡ ok t
      → Follows start (ps ++ dispatch_plan end now ∷ []) t
  Follows-snoc start end t [] h e =
      (ap (λ (x : Time). dispatch_plan x now) (sym h), (t, rw h e, refl))
  Follows-snoc start end t (p ∷ ps) h e = (h.0, (h.1.0, h.1.1, Follows-snoc h.1.0 end t ps h.1.2 e))

  -- The dispatches follow the recurrence; there are fewer than the limit only if `now` was reached.
  abbrev IsFollowed : ℕ → Time → Planned → Type 0
  IsFollowed limit due o =
      Follows due o.0 o.1
      × (length o.0 ≤ limit)
      × ((now < o.1) ⊎ ((o.1 ≤ now) × (length o.0 ≡ limit)))

  catch_up_loop-IsFollowed :
      (limit : ℕ) (due : Time) (n : ℕ) (ps : List OccurrencePlan) (c : Time) {out : Planned}
      → Follows due ps c
      → length ps + n ≡ limit
      → catch_up_loop r rule timezone now n ps c ≡ ok out
      → IsFollowed limit due out
  unfolding catch_up_loop
  catch_up_loop-IsFollowed limit due zero ps c v e h =
      subst (IsFollowed limit due) (ok-injective h) (v, omega (arith, e), reached)
    where
      reached : (now < c) ⊎ ((c ≤ now) × (length ps ≡ limit))
      reached = ground arith
  catch_up_loop-IsFollowed limit due (suc n) ps c {out} v e h = elim (Bool-cases (after c now)) [
    | inl late ↦
        subst (IsFollowed limit due) (ok-injective (rw late at h))
          (v, omega (arith, e), inl (ltb→lt now c late))
    | inr early ↦
        let (t, next, rest) = >>=-eq-ok (r.next rule timezone c) _ (rw early at h) in
        catch_up_loop-IsFollowed limit due n (ps ++ dispatch_plan c now ∷ []) t
          (Follows-snoc due c t ps v next)
          (omega (arith, e, length-append ps (dispatch_plan c now ∷ []))) rest
  ]

  -- Nothing was left out, or the first instant left out is recorded and the rest is jumped over.
  abbrev pub Closed : ℕ → List OccurrencePlan → Time → Planned → Type 0
  Closed limit ps c out =
      ((now < c) × (out.0 ≡ ps) × (out.1 ≡ c))
      ⊎ ((c ≤ now)
          × (length ps ≡ limit)
          × (out.0 ≡ ps ++ skip_plan c now misfire_bound_exceeded ∷ [])
          × (r.next_after rule timezone c now ≡ ok out.1))

  close_catch_up-Closed :
      (limit : ℕ) (ps : List OccurrencePlan) (c : Time) {out : Planned}
      → (now < c) ⊎ ((c ≤ now) × (length ps ≡ limit))
      → close_catch_up r rule timezone now ps c ≡ ok out
      → Closed limit ps c out
  unfolding close_catch_up
  close_catch_up-Closed limit ps c {out} (inl late) h =
      let e = ok-injective (rw (lt→ltb now c late) at h) in
      inl (late, ap (λ (o : Planned). o.0) (sym e), ap (λ (o : Planned). o.1) (sym e))
  close_catch_up-Closed limit ps c {out} (inr (early, full)) h =
      let early' : after c now ≡ false = ground arith in
      let (t, next, rest) = >>=-eq-ok (r.next_after rule timezone c now) _ (rw early' at h) in
      let e = ok-injective rest in
      inr (early, full, ap (λ (o : Planned). o.0) (sym e), next ∙ ap (λ (o : Planned). ok o.1) e)

-- A bounded catch-up dispatches the due instant and those that the recurrence gives after it, at most
-- as many as the limit. Either it reaches the present, and the schedule is due at the next instant;
-- or it stops at the limit, one more instant is recorded as skipped with the code for an exceeded
-- bound, and the next due instant is the one that `NextAfter` gives for the present.
pub bounded_catch_up-Follows :
    (r : Recurrence) (s : Schedule) (due now : Time) {out : Planned}
    → bounded_catch_up r s due now ≡ ok out
    → (ps : List OccurrencePlan) × (c : Time) × Follows r s.rule s.timezone now due ps c
      × (length ps ≤ pos_part s.catch_up_limit)
      × Closed r s.rule s.timezone now (pos_part s.catch_up_limit) ps c out
unfolding bounded_catch_up
bounded_catch_up-Follows r s due now h =
    let limit = pos_part s.catch_up_limit in
    let (o, e, rest) = >>=-eq-ok (catch_up_loop r s.rule s.timezone now limit [] due) _ h in
    let v =
      catch_up_loop-IsFollowed r s.rule s.timezone now limit due limit [] due refl (omega arith)
        e in
    (o.0, o.1, v.0, v.1, close_catch_up-Closed r s.rule s.timezone now limit o.0 o.1 v.2 rest)
