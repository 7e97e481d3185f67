-- ===== src/Store/Identity.antt =====
-- The identity under which a queued dispatch calls its target.
use kokoro_scheduler.Domain.Occurrence.{OccurrencePlan}
use kokoro_scheduler.Domain.Schedule.{Schedule}
use kokoro_scheduler.Domain.Time.{Time, normalize_instant_idem}
use kokoro_scheduler.Store.Due.{new_dispatch}
use kokoro_scheduler.Store.Scan.{scan_dispatch}
use kokoro_scheduler.Domain.Identity.{
  occurrence_identity, schedule_snapshot, identity_of, identity_seed,
}
use kokoro_scheduler.Base.{◌≡◌, Text}

-- What is sent for a queued dispatch is identified as the schedule's own instant is: the request id,
-- the idempotency key and the trace id do not depend on the outbox row, its identifiers or the
-- instant at which the planner saw the occurrence.
pub new_dispatch-occurrence_identity :
    (hex_digest : Text → Text) (format : Time → Text) (id occurrence_id : Text)
    (schedule : Schedule) (plan : OccurrencePlan)
    → occurrence_identity hex_digest format
        (schedule_snapshot (scan_dispatch (new_dispatch id schedule occurrence_id plan)))
        (scan_dispatch (new_dispatch id schedule occurrence_id plan)).scheduled_at
      ≡ occurrence_identity hex_digest format schedule plan.scheduled_at
unfolding occurrence_identity schedule_snapshot scan_dispatch new_dispatch identity_of identity_seed
new_dispatch-occurrence_identity hex_digest format id occurrence_id schedule plan =
    rw (normalize_instant_idem plan.scheduled_at)
