-- ===== src/Tests/WorkQueues.antt =====
-- The work queue of the server on concrete requests.
use gobjfs.Base.{◌+◌, ◌<◌, ◌≤◌, ◌≡◌, refl, max, [], ◌∷◌, some, arith, ◌⊎◌}
use gobjfs.Server.WorkQueue.{
  WorkQueue, no_threads, new_work_queue, work_schedule, Reached, made, next, schedules, goes_on,
  from_top,
}
use gobjfs.Server.WorkQueue.Pools.{Reached-served}
use gobjfs.Server.WorkQueue.Growth.{Later, now_on, after, Later-nr_threads}

-- A work queue of one worker on a machine with one core.
abbrev one_worker : WorkQueue
one_worker = record no_threads { nr_threads = 1; at_top = 1 }

one_worker_made : new_work_queue ([] ∷ []) 1 1 ≡ some one_worker
unfolding new_work_queue
one_worker_made = refl

-- One request is queued, and one worker was notified or is at the top.
abbrev one_queued : WorkQueue
one_queued = work_schedule 1 0 0 one_worker

one_scheduled : Reached 1 1 one_queued
one_scheduled = next (made ([] ∷ []) 1 one_worker_made) (schedules 0 0 one_worker)

served_example :
    (0 < one_queued.nr_threads)
    × (one_queued.nr_threads ≤ max 1 1)
    × (one_queued.nr_threads
        ≡ one_queued.at_top + one_queued.sleeping + one_queued.woken + one_queued.busy)
    × ((one_queued.queue ≡ 0) ⊎ (one_queued.sleeping < one_queued.nr_threads))
served_example = Reached-served 1 1 (omega arith) one_scheduled

one_queued-lem : (one_queued.nr_queued_work ≡ 1) × (0 < one_queued.at_top)
unfolding work_schedule
one_queued-lem = (refl, omega arith)

-- The worker takes the request.
one_taken-Later : Later 1 one_queued 0 (from_top 9000 one_queued)
one_taken-Later = after now_on (goes_on 9000 one_queued one_queued-lem.1)

idle_example :
    let q = from_top 9000 one_queued in
    (one_queued.nr_threads ≤ q.nr_threads) × (q.nr_queued_work ≡ one_queued.nr_queued_work + 0)
idle_example =
    Later-nr_threads 1 1 0 (omega arith) one_scheduled (omega (arith, one_queued-lem.0))
      (omega (arith, one_queued-lem.0)) one_taken-Later
