-- ===== src/Service/Ready.antt =====
-- What a prepared command is.
use kokoro_scheduler.Base.{
  fail_if-ok, ◌≤◌, ◌≡◌, subst, ◌⊎◌, false, Result, ok, err, fail_if, Error, map_error, >>=-eq-ok,
  join, invalid_command, ok-injective,
}
use kokoro_scheduler.Domain.Schedule.{is_exhausted, Schedule}
use kokoro_scheduler.Domain.Time.{millisecond}
use kokoro_scheduler.Domain.Acceptable.{IsStorable, normalized-IsStorable}
use kokoro_scheduler.Recurrence.{Recurrence}
use kokoro_scheduler.Domain.Normalized.{Environment, normalized}
use kokoro_scheduler.Service.Prepare.{
  prepare, trimmed, prepare_operation, prepare_schedule, check_command, check_recurring,
}
use kokoro_scheduler.Store.Table.{Empty}
use kokoro_scheduler.Service.Command.{
  CommandOperation, Command, create, update, delete, pause, resume,
}
use kokoro_scheduler.Json.{IsLawful}

-- A creation or an update that passed `prepare`: its schedule meets what `IsStorable` lists of the
-- schema, is not exhausted, and has a rule that the recurrence accepts, or an instant.
pub record IsReady (env : Environment) (r : Recurrence) (c : Command) : Type 0 where
  pub storable : IsStorable env c.schedule
  pub live : is_exhausted c.schedule.status ≡ false
  pub accepted : check_recurring env r c.schedule ≡ ok tt

-- Pausing, resuming and deleting take no schedule.
abbrev pub IsPrepared : Environment → Recurrence → CommandOperation → Command → Type 0
IsPrepared env r create c = IsReady env r c
IsPrepared env r update c = IsReady env r c
IsPrepared env r delete c = Unit
IsPrepared env r pause c = Unit
IsPrepared env r resume c = Unit
IsPrepared env r (CommandOperation.other t) c = Empty

abbrev pub HasInstants : Schedule → Type 0
HasInstants s =
    ((s.run_at ≡ 0) ⊎ (millisecond ≤ s.run_at))
    × ((s.next_due_at ≡ 0) ⊎ (millisecond ≤ s.next_due_at))

pub map_error-ok :
    {A : Type 0} (f : Error → Error) (m : Result A) {a : A} → map_error f m ≡ ok a → m ≡ ok a
map_error-ok f (ok a) h = h
map_error-ok f (err e) h = cc

module _ (env : Environment) (r : Recurrence) (lawful : IsLawful env.codec) where
  prepare_schedule-IsReady :
      (c : Command) {out : Command}
      → HasInstants c.schedule
      → prepare_schedule env r c ≡ ok out
      → IsReady env r out
  unfolding prepare_schedule
  prepare_schedule-IsReady c {out} instants h =
      let owned = record c.schedule { tenant_id = c.tenant_id; name = c.name } in
      let (s, made, rest) =
        >>=-eq-ok (map_error (join invalid_command) (normalized env owned)) _ h in
      let (u, live, rest') = >>=-eq-ok (fail_if (is_exhausted s.status) invalid_command) _ rest in
      let (u', accepted, last) = >>=-eq-ok (check_recurring env r s) _ rest' in
      subst (IsReady env r) (ok-injective last) (record {
        storable =
            normalized-IsStorable env owned lawful instants.0 instants.1
              (map_error-ok (join invalid_command) (normalized env owned) made);
        live = fail_if-ok (is_exhausted s.status) invalid_command live;
        accepted = accepted;
      })

  prepare_operation-IsPrepared :
      (operation : CommandOperation) (c : Command) {out : Command}
      → HasInstants c.schedule
      → prepare_operation env r operation c ≡ ok out
      → IsPrepared env r operation out
  unfolding prepare_operation
  prepare_operation-IsPrepared create c instants h = prepare_schedule-IsReady c instants h
  prepare_operation-IsPrepared update c instants h = prepare_schedule-IsReady c instants h
  prepare_operation-IsPrepared delete c instants h = tt
  prepare_operation-IsPrepared pause c instants h = tt
  prepare_operation-IsPrepared resume c instants h = tt
  prepare_operation-IsPrepared (CommandOperation.other t) c instants h = cc

-- A command that `prepare` accepts has a known operation; a creation or an update carries a schedule
-- that satisfies what `IsStorable` lists, is not exhausted, and has a rule that the recurrence accepts
-- or an instant. `IsStorable` lists the CHECK constraints of scheduler_schedule but for three: that
-- the time zone has at most 128 characters, which the code does not test; that a schedule that is
-- not exhausted has a due instant, which `Apply` computes later; and the claim of a schedule that is
-- not exhausted, which creation and update write as NULL. The JSON codec is lawful, and the instants of the command are
-- zero or at least a millisecond.
pub prepare-IsPrepared :
    (env : Environment) (r : Recurrence) (c : Command) {out : Command}
    → IsLawful env.codec
    → HasInstants c.schedule
    → prepare env r c ≡ ok out
    → IsPrepared env r c.operation out
unfolding prepare trimmed
prepare-IsPrepared env r c {out} lawful instants h =
    let (u, checked, rest) = >>=-eq-ok (check_command env r (trimmed c)) _ h in
    prepare_operation-IsPrepared env r lawful c.operation (trimmed c) instants rest
