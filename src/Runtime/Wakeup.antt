-- ===== src/Runtime/Wakeup.antt =====
-- internal/adapters/gocron/wakeup.go. The library's scheduler is an argument: what `NewScheduler`,
-- `NewJob` and `ShutdownWithContext` answer.
use kokoro_scheduler.Base.{
  ℕ, ◌+◌, Bool, true, false, not, if◌then◌else◌, Result, ok, err, ◌>>◌, fail_if, pos, invalid,
  leb_ℤ, wakeup_callback, wakeup_interval,
}
use kokoro_scheduler.Domain.Time.{Duration}

pub record Wakeup : Type 0 where
  pub interval : Duration
  pub started : Bool
  -- The jobs that were given to the library.
  pub jobs : ℕ

abbrev pub Answer : Type 0
Answer = Result (Unit {0})

-- `NewWakeup`.
unfoldable pub new_wakeup : Duration → (new_scheduler : Answer) → Result Wakeup
new_wakeup interval new_scheduler =
    fail_if (leb_ℤ interval (pos 0)) (invalid wakeup_interval)
    >> (new_scheduler >> ok record { interval = interval; started = false; jobs = 0 })

abbrev pub schedule_job : Wakeup → Wakeup
schedule_job w = record w { jobs = w.jobs + 1; started = true }

unfoldable pub job_added : Wakeup → Answer → Answer × Wakeup
job_added w (err e) = (err e, w)
job_added w (ok u) = (ok tt, schedule_job w)

-- `Start`, which holds the lock throughout; `has_callback` is `run != nil`.
unfoldable pub start : (has_callback : Bool) → (new_job : Answer) → Wakeup → Answer × Wakeup
start has_callback new_job w =
    if not has_callback
    then (err (invalid wakeup_callback), w)
    else if w.started
    then (ok tt, w)
    else job_added w new_job

-- `Stop`: the flag is cleared under the lock, the shutdown comes after it.
unfoldable pub stop : (shutdown : Answer) → Wakeup → Answer × Wakeup
stop shutdown w = if not w.started then (ok tt, w) else (shutdown, record w { started = false })
