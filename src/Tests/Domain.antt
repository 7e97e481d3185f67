-- ===== src/Tests/Domain.antt =====
-- The theorem on the identity of a dispatch, at the tests' report.
use kokoro_scheduler.Domain.Time.{second}
use kokoro_scheduler.Planner.Plan.{dispatch_plan}
use kokoro_scheduler.Store.Identity.{new_dispatch-occurrence_identity}
use kokoro_scheduler.Domain.Occurrence.{OccurrencePlan}
use kokoro_scheduler.Tests.{report}
use kokoro_scheduler.Store.Due.{new_dispatch}
use kokoro_scheduler.Store.Scan.{scan_dispatch}
use kokoro_scheduler.Domain.Identity.{occurrence_identity, schedule_snapshot}
use kokoro_scheduler.Base.{◌*◌, ◌≡◌, [], ◌∷◌, codes}

abbrev first_plan : OccurrencePlan
first_plan = dispatch_plan (10 * second) (15 * second)

-- A digest that shows what is digested, and a format that keeps the number.
new_dispatch-occurrence_identity_example :
    occurrence_identity
      (λ text. text)
      (λ t. t ∷ [])
      (schedule_snapshot
        (scan_dispatch (new_dispatch (codes "dispatch") report (codes "occurrence") first_plan)))
      (scan_dispatch
        (new_dispatch (codes "dispatch") report (codes "occurrence") first_plan)).scheduled_at
    ≡ occurrence_identity (λ text. text) (λ t. t ∷ []) report first_plan.scheduled_at
new_dispatch-occurrence_identity_example =
    new_dispatch-occurrence_identity (λ text. text) (λ t. t ∷ []) (codes "dispatch")
      (codes "occurrence") report first_plan
