-- ===== src/Service/Stored.antt =====
-- The rows of scheduler_schedule keep the CHECK constraints of database/schema.sql under commands.
use kokoro_scheduler.Base.{
  Option-cases, ◌≤◌, ◌≡◌, refl, ap, subst, ◌⊎◌, inl, inr, true, false, not, ◌&&◌, Option, none,
  some, [], ◌∷◌, arith, Text, is_empty, length, Bool-cases, is_some,
}
use kokoro_scheduler.Domain.Schedule.{is_active, Schedule, is_exhausted, ScheduleStatus}
use kokoro_scheduler.Domain.Retry.{IsValidPolicy}
use kokoro_scheduler.Domain.Identity.{is_valid_name}
use kokoro_scheduler.Store.Rows.{ScheduleRow}
use kokoro_scheduler.Domain.Normalized.{
  Environment, is_known_method, is_object_payload, is_known_overlap, is_known_status,
}
use kokoro_scheduler.Store.Scan.{nullable_instant, nullable_string}
use kokoro_scheduler.Domain.Time.{Time, is_zero, normalize_instant}
use kokoro_scheduler.Store.Commands.{new_schedule, replace_row, status_row, coalesce}
use kokoro_scheduler.Domain.Acceptable.{IsStorable, IsCatchUp}

-- A one-time schedule is due at its instant.
abbrev pub IsOnTime : Option Time → Option Time → Type 0
IsOnTime (some t) (some due) = due ≡ t
IsOnTime (some t) none = Unit
IsOnTime none due = Unit

abbrev pub IsRule : Option Text → Type 0
IsRule none = Unit
IsRule (some rule) = (is_empty rule ≡ false) × (length rule ≤ 256)

-- An instant that is not the zero time, in whole milliseconds.
abbrev pub IsInstant : Option Time → Type 0
IsInstant none = Unit
IsInstant (some t) = (is_zero t ≡ false) × (normalize_instant t ≡ t)

-- The constraints on the trigger, the due instant and the status.
pub record IsTriggered (rule : Option Text) (run_at next_due : Option Time)
    (status_ : ScheduleStatus) : Type 0 where
  pub one_trigger : is_some rule ≡ not (is_some run_at)
  pub rule_short : IsRule rule
  pub known : is_known_status status_ ≡ true
  pub due : is_some next_due ≡ not (is_exhausted status_)
  pub once : (is_exhausted status_ && not (is_some run_at)) ≡ false
  pub on_time : IsOnTime run_at next_due
  pub instant : IsInstant run_at

-- The constraints on one row, with the limit on the time zone.
pub record IsStored (env : Environment) (row : ScheduleRow) : Type 0 where
  pub tenant_low : 1 ≤ length row.tenant_id
  pub tenant_high : length row.tenant_id ≤ 128
  pub name : is_valid_name row.name ≡ true
  pub triggered : IsTriggered row.schedule_rule row.run_at row.next_due_at row.status
  pub timezone_given : is_empty row.timezone ≡ false
  pub timezone_short : length row.timezone ≤ 128
  pub method : is_known_method row.target_method ≡ true
  pub payload : is_object_payload env.codec row.payload ≡ true
  pub retry : IsValidPolicy row.retry
  pub catch_up : IsCatchUp row.misfire_policy row.catch_up_limit
  pub overlap : is_known_overlap row.overlap_policy ≡ true
  pub claimed_active : (is_some row.claim_owner && not (is_active row.status)) ≡ false
  pub whole_claim : is_some row.claim_owner ≡ is_some row.claim_expires_at

-- A schedule as it is written: its claim is not, and it is due unless it is exhausted.
abbrev pub unclaimed_schedule : Schedule → Schedule
unclaimed_schedule s = record s { claim_owner = []; claim_expires_at = 0 }

pub record IsDue (env : Environment) (s : Schedule) : Type 0 where
  pub storable : IsStorable env (unclaimed_schedule s)
  pub due : is_zero s.next_due_at ≡ is_exhausted s.status
  pub timezone_short : length s.timezone ≤ 128

nullable_string-IsRule : (rule : Text) → length rule ≤ 256 → IsRule (nullable_string rule)
unfolding nullable_string
nullable_string-IsRule [] h = tt
nullable_string-IsRule (c ∷ rule) h = (refl, h)

is_some-nullable_string : (rule : Text) → is_some (nullable_string rule) ≡ not (is_empty rule)
unfolding nullable_string
is_some-nullable_string [] = refl
is_some-nullable_string (c ∷ rule) = refl

nullable_instant-cases :
    (t : Time)
    → normalize_instant t ≡ t
    → ((is_zero t ≡ true) × (nullable_instant t ≡ none))
      ⊎ ((is_zero t ≡ false) × (nullable_instant t ≡ some t))
unfolding nullable_instant
nullable_instant-cases t whole = elim (Bool-cases (is_zero t)) [
  | inl zero_time ↦ inl (zero_time, rw zero_time refl)
  | inr later ↦ inr (later, rw later (ap some whole))
]

written-IsTriggered :
    (env : Environment) (s : Schedule)
    → IsDue env s
    → IsTriggered
        (nullable_string s.rule)
        (nullable_instant s.run_at)
        (nullable_instant s.next_due_at)
        s.status
written-IsTriggered env s v =
    let w = v.storable in
    let given = is_some-nullable_string s.rule in
    let short = nullable_string-IsRule s.rule w.rule_short in
    let one = w.one_trigger in
    let last = w.exhausted_once in
    let same = w.once_due in
    let d = v.due in
    elim (nullable_instant-cases s.run_at w.whole_run_at) [
      | inl (no_run, e) ↦ elim (nullable_instant-cases s.next_due_at w.whole_next_due_at) [
        | inl (no_due, e') ↦
            rw (e, e')
              (record {
                one_trigger = ground (arith, given, one, no_run);
                rule_short = short;
                known = w.status;
                due = ground (arith, d, no_due);
                once = ground (arith, last, no_run);
                on_time = tt;
                instant = tt;
              })
        | inr (is_due, e') ↦
            rw (e, e')
              (record {
                one_trigger = ground (arith, given, one, no_run);
                rule_short = short;
                known = w.status;
                due = ground (arith, d, is_due);
                once = ground (arith, last, no_run);
                on_time = tt;
                instant = tt;
              })
      ]
      | inr (runs, e) ↦ elim (nullable_instant-cases s.next_due_at w.whole_next_due_at) [
        | inl (no_due, e') ↦
            rw (e, e')
              (record {
                one_trigger = ground (arith, given, one, runs);
                rule_short = short;
                known = w.status;
                due = ground (arith, d, no_due);
                once = ground (arith);
                on_time = tt;
                instant = (runs, w.whole_run_at);
              })
        | inr (is_due, e') ↦
            rw (e, e')
              (record {
                one_trigger = ground (arith, given, one, runs);
                rule_short = short;
                known = w.status;
                due = ground (arith, d, is_due);
                once = ground (arith);
                on_time = ground (arith, same, runs, is_due);
                instant = (runs, w.whole_run_at);
              })
      ]
    ]

pub new_schedule-IsStored :
    (env : Environment) (id : Text) (s : Schedule)
    → IsDue env s
    → is_exhausted s.status ≡ false
    → IsStored env (new_schedule id s)
unfolding new_schedule
new_schedule-IsStored env id s v live =
    let w = v.storable in
    let kept : nullable_instant s.next_due_at ≡ some s.next_due_at =
      elim (nullable_instant-cases s.next_due_at w.whole_next_due_at) [
        | inl (no_due, e) ↦ ground (arith, v.due, live, no_due)
        | inr (is_due, e) ↦ e
      ] in
    record {
      tenant_low = w.tenant_low;
      tenant_high = w.tenant_high;
      name = w.name;
      triggered =
          subst
            (λ (due : Option Time).
              IsTriggered (nullable_string s.rule) (nullable_instant s.run_at) due s.status)
            kept (written-IsTriggered env s v);
      timezone_given = w.timezone_given;
      timezone_short = v.timezone_short;
      method = w.method;
      payload = w.payload;
      retry = w.retry;
      catch_up = w.catch_up;
      overlap = w.overlap;
      claimed_active = refl;
      whole_claim = refl;
    }

pub replace_row-IsStored :
    (env : Environment) (s : Schedule) (row : ScheduleRow)
    → IsDue env s
    → IsStored env row
    → IsStored env (replace_row s row)
unfolding replace_row
replace_row-IsStored env s row v old =
    let w = v.storable in
    record {
      tenant_low = old.tenant_low;
      tenant_high = old.tenant_high;
      name = old.name;
      triggered = written-IsTriggered env s v;
      timezone_given = w.timezone_given;
      timezone_short = v.timezone_short;
      method = w.method;
      payload = w.payload;
      retry = w.retry;
      catch_up = w.catch_up;
      overlap = w.overlap;
      claimed_active = refl;
      whole_claim = refl;
    }

pub status_row-IsStored :
    (env : Environment) (status_ : ScheduleStatus) (t now : Time) (row : ScheduleRow)
    → is_known_status status_ ≡ true
    → is_exhausted status_ ≡ false
    → is_exhausted row.status ≡ false
    → IsOnTime row.run_at (coalesce (nullable_instant t) row.next_due_at)
    → IsStored env row
    → IsStored env (status_row status_ t now row)
unfolding status_row
status_row-IsStored env status_ t now row known live open_ on_time old =
    let v = old.triggered in
    let d = v.due in
    record {
      tenant_low = old.tenant_low;
      tenant_high = old.tenant_high;
      name = old.name;
      triggered = record {
        one_trigger = v.one_trigger;
        rule_short = v.rule_short;
        known = known;
        due = elim (Option-cases (nullable_instant t)) [
          | inl e ↦ rw e (ground (arith, d, open_, live))
          | inr (x, e) ↦ rw e (ground (arith, live))
        ];
        once = ground (arith, live);
        on_time = on_time;
        instant = v.instant;
      };
      timezone_given = old.timezone_given;
      timezone_short = old.timezone_short;
      method = old.method;
      payload = old.payload;
      retry = old.retry;
      catch_up = old.catch_up;
      overlap = old.overlap;
      claimed_active = refl;
      whole_claim = refl;
    }
