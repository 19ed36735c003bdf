-- ===== src/Server/WorkQueue/Growth.antt =====
-- The count of queued work, by which the pool of workers grows and shrinks.
use gobjfs.Base.{ℕ, ◌+◌, ◌-◌, ◌*◌, ◌/◌, ◌<◌, ◌≤◌, ◌≡◌, ◌^◌, u64, false, ltb, arith, max}
use gobjfs.Server.WorkQueue.{
  WorkQueue, create_workqueue_threads, need_to_grow, need_to_shrink, work_schedule, grow, retry,
  from_top, from_wait, finish_work, Step, schedules, goes_on, wakes, finishes, Reached, next,
}
use gobjfs.Server.WorkQueue.Pools.{IsManned, Reached-IsManned, start_threads_lem}

-- How many requests a step schedules.
abbrev pub scheduled_by : {hardware : ℕ} {q r : WorkQueue} → Step hardware q r → ℕ
scheduled_by (schedules now room q) = 1
scheduled_by (goes_on now q h) = 0
scheduled_by (wakes q h) = 0
scheduled_by (finishes q h) = 0

-- Steps from a state on, with the number of requests that they schedule.
pub data Later (hardware : ℕ) (q : WorkQueue) : ℕ → WorkQueue → Type 0 where
  now_on : Later hardware q 0 q
  after :
      {n : ℕ} {r s : WorkQueue}
      → Later hardware q n r
      → (st : Step hardware r s) → Later hardware q (scheduled_by st + n) s

Later-Reached :
    {hardware cores : ℕ} {q : WorkQueue} {n : ℕ} {r : WorkQueue}
    → Reached hardware cores q
    → Later hardware q n r
    → Reached hardware cores r
Later-Reached h now_on = h
Later-Reached h (after l st) = next (Later-Reached h l) st

-- From one state to another the pool did not shrink, and some requests were counted.
abbrev Grows : ℕ → WorkQueue → WorkQueue → Type 0
Grows n q r = (q.nr_threads ≤ r.nr_threads) × (r.nr_queued_work ≡ q.nr_queued_work + n)

grow-Grows : (hardware now room : ℕ) (q : WorkQueue) → Grows 0 q (grow hardware now room q)
unfolding grow need_to_grow create_workqueue_threads
grow-Grows hardware now room q = ground (
  arith,
  start_threads_lem (q.nr_threads * 2 - q.nr_threads) room (record q { life_end = now + 5000 }),
)

work_schedule-Grows :
    (hardware now room : ℕ) (q : WorkQueue)
    → q.nr_queued_work + 1 < 2 ^ 64
    → Grows 1 q (work_schedule hardware now room q)
unfolding work_schedule
work_schedule-Grows hardware now room q small =
    ground (
      arith,
      grow-Grows hardware now room (record q { nr_queued_work = u64 (q.nr_queued_work + 1) }),
    )

-- With as much queued work as half of the workers, no worker leaves.
from_top-Grows :
    (now : ℕ) (q : WorkQueue)
    → ltb q.nr_queued_work (q.nr_threads / 2) ≡ false
    → Grows 0 q (from_top now q)
unfolding from_top need_to_shrink retry
from_top-Grows now q h = ground arith

from_wait-Grows : (q : WorkQueue) → q.stopping ≡ false → Grows 0 q (from_wait q)
unfolding from_wait retry
from_wait-Grows q h = ground arith

Step-Grows :
    (hardware bound : ℕ) {q r : WorkQueue}
    → IsManned bound q
    → bound ≤ 2 * q.nr_queued_work + 1
    → (st : Step hardware q r) → q.nr_queued_work + scheduled_by st < 2 ^ 64
    → Grows (scheduled_by st) q r
unfolding finish_work
Step-Grows hardware bound v h (schedules now room q) small =
    work_schedule-Grows hardware now room q small
Step-Grows hardware bound v h (goes_on now q k) small =
    from_top-Grows now q (ground (arith, v.bounded))
Step-Grows hardware bound v h (wakes q k) small = from_wait-Grows q v.runs
Step-Grows hardware bound v h (finishes q k) small = (omega arith, omega arith)

-- The count of queued work counts all requests that were ever scheduled, modulo 2^64, since nothing takes
-- it down. Once it has come to half of the larger of the two numbers of cores, and until it wraps, no
-- worker ends any more, however idle the queue is, as long as the queue is not stopped; and each request
-- that is scheduled is added to the count.
pub Later-nr_threads :
    (hardware cores : ℕ) {q : WorkQueue} (n : ℕ) {r : WorkQueue}
    → 0 < cores
    → Reached hardware cores q
    → max cores hardware ≤ 2 * q.nr_queued_work + 1
    → q.nr_queued_work + n < 2 ^ 64
    → Later hardware q n r
    → (q.nr_threads ≤ r.nr_threads) × (r.nr_queued_work ≡ q.nr_queued_work + n)
Later-nr_threads hardware cores _ k h enough small now_on = (omega arith, omega arith)
Later-nr_threads hardware cores _ k h enough small (after {n} {r} l st) =
    let before = Later-nr_threads hardware cores n k h enough (omega (arith, small)) l in
    let v = Reached-IsManned hardware cores k (Later-Reached h l) in
    let more =
      Step-Grows hardware (max cores hardware) v (omega (arith, before.1)) st
        (omega (arith, before.1, small)) in
    (omega (arith, before.0, more.0), omega (arith, before.1, more.1))
