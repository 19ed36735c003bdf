-- ===== src/Job/Times.antt =====
-- The order in which a job's times are set.
use gobjfs.Base.{ℕ, ◌+◌, ◌-◌, ◌≤◌, ◌<◌, ◌≡◌, arith, fault, Fault, ◌>>=◌, Returns}
use gobjfs.Job.{Timing, set_submit_time, set_wait_time, set_service_time}

-- Submitted, dequeued and served, at three clock readings that rise: no assertion fails if time has
-- passed before the dequeue, and the wait time and the service time add up to the time in between.
pub times_add_up :
    (t : Timing) (submit dequeue finish : ℕ)
    → t.wait_time ≡ 0
    → t.service_time ≡ 0
    → submit < dequeue
    → dequeue ≤ finish
    → Returns
        (do
          t1 ← set_submit_time submit t
          t2 ← set_wait_time dequeue t1
          set_service_time finish t2)
        λ u.
          (u.wait_time ≡ dequeue - submit)
          × (u.service_time ≡ finish - dequeue)
          × (u.wait_time + u.service_time ≡ finish - submit)
unfolding set_submit_time set_wait_time set_service_time
times_add_up t submit dequeue finish w s h k = ground arith

-- A job whose wait time was never set cannot be finished: the assertion of `set_service_time` fails.
pub set_service_time_unset :
    (t : Timing) (now : ℕ) → t.wait_time ≡ 0 → set_service_time now t ≡ fault Fault.assert_failed
unfolding set_service_time
set_service_time_unset t now h = ground arith
