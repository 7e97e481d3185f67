-- ===== src/Planner/Run.antt =====
-- internal/application/planner.go, `Run`, and internal/application/processor.go: one pass of the
-- planner over the due schedules, and one cycle of planner and dispatcher. An error is kept without
-- the text that names the schedule.
use kokoro_scheduler.Planner.Materialize.{materialize}
use kokoro_scheduler.Domain.Schedule.{Schedule}
use kokoro_scheduler.Store.Due.{claim_due_schedules}
use kokoro_scheduler.Domain.Time.{Time, Duration, normalize_instant, add_duration}
use kokoro_scheduler.Recurrence.{Recurrence}
use kokoro_scheduler.Store.Rows.{Db, within_tx}
use kokoro_scheduler.Base.{ℕ, Bool, List, [], ◌∷◌, ◌++◌, Text, Result, ok, err, Error}

abbrev pub plan_errors : Result (Unit {0}) → List Error
plan_errors (ok u) = []
plan_errors (err e) = e ∷ []

module _ (r : Recurrence) (uuid : ℕ → Text) (worker : Text) (now : Time) where
  unfoldable pub materialize_all : List Schedule → Db → List Error × Db
  materialize_all [] db = ([], db)
  materialize_all (schedule ∷ schedules) db =
      let (out, db₁) = materialize r uuid worker schedule now db in
      let (errors, db₂) = materialize_all schedules db₁ in (plan_errors out ++ errors, db₂)

  unfoldable pub materialize_claimed : Result (List Schedule) × Db → List Error × Db
  materialize_claimed (err e, db) = (e ∷ [], db)
  materialize_claimed (ok schedules, db) = materialize_all schedules db

-- `Planner.Run`.
unfoldable pub run_planner :
    Recurrence
    → (ℕ → Text)
    → (locked : Text → Bool) → Text
    → Time
    → Duration
    → ℕ
    → Db
    → List Error × Db
run_planner r uuid locked worker clock claim_ttl batch_size db =
    let now = normalize_instant clock in
    materialize_claimed r uuid worker now
      (within_tx (claim_due_schedules locked now worker (add_duration now claim_ttl) batch_size) db)

-- `Processor.RunCycle`: the dispatcher runs whether or not the planner had errors.
unfoldable pub run_cycle : (Db → List Error × Db) → (Db → List Error × Db) → Db → List Error × Db
run_cycle plan dispatch db =
    let (plan_failures, db₁) = plan db in
    let (dispatch_failures, db₂) = dispatch db₁ in (plan_failures ++ dispatch_failures, db₂)
