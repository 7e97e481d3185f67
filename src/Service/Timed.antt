-- ===== src/Service/Timed.antt =====
-- The due instant that a creation or an update gives its schedule.
use kokoro_scheduler.Base.{
  ℕ, ◌≤◌, ◌≡◌, refl, sym, ap, subst, ◌∙◌, inl, inr, true, false, not, ◌&&◌, ◌||◌, Option, none,
  some, arith, if◌then◌else◌, ◌==◌, Text, ok, length, Bool-cases, >>=-eq-ok, map_error, join,
  invalid_command, ok-injective,
}
use kokoro_scheduler.Store.Rows.{ScheduleRow}
use kokoro_scheduler.Store.Scan.{scan_instant, scan_schedule}
use kokoro_scheduler.Service.Ready.{map_error-ok}
use kokoro_scheduler.Domain.Acceptable.{IsStorable}
use kokoro_scheduler.Service.Command.{trigger_schedule, stamped, replacement}
use kokoro_scheduler.Recurrence.{Recurrence, IsLawful}
use kokoro_scheduler.Domain.Normalized.{Environment, is_known_status}
use kokoro_scheduler.Domain.Time.{Time, normalize_instant, is_zero, after, normalize_instant_idem}
use kokoro_scheduler.Domain.Schedule.{Schedule, ScheduleStatus, is_exhausted, exhausted}
use kokoro_scheduler.Service.Stored.{IsStored, IsDue, IsTriggered, unclaimed_schedule}

-- A storable schedule with another due instant and status.
abbrev timed : Schedule → Time → ScheduleStatus → Time → Schedule
timed s t status_ now = record s {
  next_due_at = t;
  status = status_;
  created_at = now;
  updated_at = now;
}

normalize_zero : normalize_instant 0 ≡ 0
unfolding normalize_instant
normalize_zero = refl

timed-IsStorable :
    (env : Environment) (s : Schedule) (t : Time) (status_ : ScheduleStatus) (now : Time)
    → IsStorable env s
    → normalize_instant t ≡ t
    → is_known_status status_ ≡ true
    → (is_exhausted status_ && (is_zero s.run_at || not (is_zero t))) ≡ false
    → (not (is_zero s.run_at) && not (is_zero t) && not (s.run_at == t)) ≡ false
    → IsStorable env (unclaimed_schedule (timed s t status_ now))
timed-IsStorable env s t status_ now v whole known once same = record {
  tenant_low = v.tenant_low;
  tenant_high = v.tenant_high;
  name = v.name;
  one_trigger = v.one_trigger;
  rule_short = v.rule_short;
  timezone_given = v.timezone_given;
  method = v.method;
  payload = v.payload;
  retry = v.retry;
  catch_up = v.catch_up;
  overlap = v.overlap;
  status = known;
  exhausted_once = once;
  unclaimed = ground arith;
  once_due = same;
  whole_run_at = v.whole_run_at;
  whole_next_due_at = whole;
}

module _ (env : Environment) (r : Recurrence) (lawful : IsLawful r) (now : Time) where
  pub trigger_schedule-IsDue :
      (uuid : ℕ → Text) (s : Schedule) {out : Schedule}
      → IsStorable env s
      → is_exhausted s.status ≡ false
      → length s.timezone ≤ 128
      → trigger_schedule r uuid now s ≡ ok out
      → IsDue env (stamped r uuid now out) × (is_exhausted out.status ≡ false)
  unfolding trigger_schedule
  trigger_schedule-IsDue uuid s {out} v live short h = elim (Bool-cases (is_zero s.run_at)) [
    | inl recurring ↦
        let (t, found, last) =
          >>=-eq-ok (map_error (join invalid_command) (r.next s.rule s.timezone now)) _
            (rw recurring at h) in
        let found' = map_error-ok (join invalid_command) (r.next s.rule s.timezone now) found in
        let later = lawful.next_later s.rule s.timezone now t found' in
        subst (λ (o : Schedule). IsDue env (stamped r uuid now o) × (is_exhausted o.status ≡ false))
          (ok-injective last)
          (
            record {
              storable =
                  timed-IsStorable env s t s.status now v
                    (lawful.next_aligned s.rule s.timezone now t found') v.status
                    (ground (arith, live)) (ground (arith, recurring));
              due = ground (arith, later, live);
              timezone_short = short;
            },
            live,
          )
    | inr single ↦ elim (Bool-cases (after s.run_at now)) [
      | inl later ↦
          subst
            (λ (o : Schedule). IsDue env (stamped r uuid now o) × (is_exhausted o.status ≡ false))
            (ok-injective (rw (single, later) at h))
            (
              record {
                storable =
                    timed-IsStorable env s s.run_at s.status now v v.whole_run_at v.status
                      (ground (arith, live)) (ground arith);
                due = ground (arith, single, live);
                timezone_short = short;
              },
              live,
            )
      | inr past ↦ cc (rw (single, past) at h)
    ]
  ]

  -- A replacement for the instant that the schedule has already.
  kept-IsDue :
      (s : Schedule) (rule : Option Text) (run_at next_due : Option Time) (status_ : ScheduleStatus)
      → IsStorable env s
      → is_exhausted s.status ≡ false
      → length s.timezone ≤ 128
      → IsTriggered rule run_at next_due status_
      → is_zero s.run_at ≡ false
      → s.run_at ≡ scan_instant run_at
      → IsDue env (
          timed s
            (normalize_instant (scan_instant next_due))
            (if is_exhausted status_ then exhausted else s.status)
            now)
  unfolding scan_instant
  kept-IsDue s rule none next_due status_ v live short old runs same = ground (arith, runs, same)
  kept-IsDue s rule (some t) none status_ v live short old runs same =
      let d = old.due in
      let over : is_exhausted status_ ≡ true = ground (arith, d) in
      rw (over, normalize_zero)
        (record {
          storable =
              timed-IsStorable env s 0 exhausted now v normalize_zero refl (ground (arith, runs))
                (ground arith);
          due = refl;
          timezone_short = short;
        })
  kept-IsDue s rule (some t) (some due) status_ v live short old runs same =
      let d = old.due in
      let open_ : is_exhausted status_ ≡ false = ground (arith, d) in
      let e : normalize_instant (normalize_instant due) ≡ s.run_at =
        normalize_instant_idem due ∙ ap normalize_instant old.on_time ∙ sym same in
      rw (open_, e)
        (record {
          storable =
              timed-IsStorable env s s.run_at s.status now v v.whole_run_at v.status
                (ground (arith, live)) (ground arith);
          due = ground (arith, runs, live);
          timezone_short = short;
        })

  pub replacement-IsDue :
      (uuid : ℕ → Text) (s : Schedule) (row : ScheduleRow) {out : Schedule}
      → IsStorable env s
      → is_exhausted s.status ≡ false
      → length s.timezone ≤ 128
      → IsStored env row
      → replacement r uuid now (scan_schedule row) s ≡ ok out
      → IsDue env (stamped r uuid now out)
  unfolding replacement scan_schedule
  replacement-IsDue uuid s row {out} v live short old h =
      let repeated = not (is_zero s.run_at) && (s.run_at == (scan_schedule row).run_at) in
      elim (Bool-cases repeated) [
        | inl again ↦
            subst (λ (o : Schedule). IsDue env (stamped r uuid now o))
              (ok-injective (rw again at h))
              (kept-IsDue s row.schedule_rule row.run_at row.next_due_at row.status v live short
                old.triggered (ground (arith, again)) (ground (arith, again)))
        | inr fresh ↦ (trigger_schedule-IsDue uuid s v live short (rw fresh at h)).0
      ]
