-- ===== src/Server/WorkQueue.antt =====
-- src/networkxio/NetworkXioWorkQueue.h: the queue of requests and its pool of worker threads, which grows
-- and shrinks.
-- The threads are counted by the point at which they stand; a step takes one from a point where it holds
-- no lock to the next.
pub mod Pools
pub mod Growth
use gobjfs.Base.{
  ℕ, zero, suc, ◌+◌, ◌-◌, ◌*◌, ◌/◌, ◌<◌, ◌≡◌, ℤ, pos, neg, Bool, true, false, Option, none, some,
  ltb, leb, ◌==◌, ◌&&◌, if◌then◌else◌, is_negative, List, [], ◌∷◌, u64,
}

-- `at_top` are the workers before the lock at the top of `worker_routine`, `sleeping` those in
-- `inflight_cond.wait`, `woken` those that a notification ended the wait of, and `busy` those with a
-- request. `queue` is the length of `inflight_queue`, and `life_end` is `thread_life_period_` in
-- milliseconds.
pub record WorkQueue : Type 0 where
  pub nr_threads : ℕ
  pub nr_queued_work : ℕ
  pub queue : ℕ
  pub life_end : ℕ
  pub stopping : Bool
  pub at_top : ℕ
  pub sleeping : ℕ
  pub woken : ℕ
  pub busy : ℕ

abbrev pub protection_period : ℕ
protection_period = 5000

-- The loop of `create_workqueue_threads` for the threads that are missing; the system has room for
-- `room` more.
unfoldable pub start_threads : ℕ → ℕ → WorkQueue → ℤ × WorkQueue
start_threads zero room q = (pos 0, q)
start_threads (suc missing) zero q = (neg 1, q)
start_threads (suc missing) (suc room) q =
    start_threads missing room (record q { nr_threads = q.nr_threads + 1; at_top = q.at_top + 1 })

unfoldable pub create_workqueue_threads : ℕ → ℕ → WorkQueue → ℤ × WorkQueue
unfolding start_threads
create_workqueue_threads requested room q = start_threads (requested - q.nr_threads) room q

abbrev pub no_threads : WorkQueue
no_threads = record {
  nr_threads = 0;
  nr_queued_work = 0;
  queue = 0;
  life_end = 0;
  stopping = false;
  at_top = 0;
  sleeping = 0;
  woken = 0;
  busy = 0;
}

-- `hardware` is the number of cores, which `get_max_wq_depth` gives.
unfoldable pub need_to_grow : ℕ → ℕ → WorkQueue → Bool × WorkQueue
need_to_grow hardware now q =
    if ltb q.nr_threads q.nr_queued_work && leb (q.nr_threads * 2) hardware
    then (true, record q { life_end = now + protection_period })
    else (false, q)

unfoldable pub need_to_shrink : ℕ → WorkQueue → Bool × WorkQueue
need_to_shrink now q =
    if ltb q.nr_queued_work (q.nr_threads / 2)
    then (leb q.life_end now, q)
    else (false, record q { life_end = now + protection_period })

abbrev pub notify_one : WorkQueue → WorkQueue
notify_one q =
    if q.sleeping == 0 then q else record q { sleeping = q.sleeping - 1; woken = q.woken + 1 }

-- The growing in `work_schedule`.
pub grow : ℕ → ℕ → ℕ → WorkQueue → WorkQueue
unfolding need_to_grow create_workqueue_threads
grow hardware now room q =
    let (needed, q1) = need_to_grow hardware now q in
    if needed then (create_workqueue_threads (q1.nr_threads * 2) room q1).1 else q1

unfoldable pub work_schedule : ℕ → ℕ → ℕ → WorkQueue → WorkQueue
unfolding grow
work_schedule hardware now room q =
    let q1 = grow hardware now room (record q { nr_queued_work = u64 (q.nr_queued_work + 1) }) in
    notify_one (record q1 { queue = q1.queue + 1 })

-- `retry:`, for a worker that holds the lock and is counted nowhere: it sleeps, or takes a request.
unfoldable pub retry : WorkQueue → WorkQueue
retry q =
    if q.queue == 0
    then record q { sleeping = q.sleeping + 1 }
    else record q { queue = q.queue - 1; busy = q.busy + 1 }

-- A worker at the top of the loop leaves, or goes on to `retry`.
unfoldable pub from_top : ℕ → WorkQueue → WorkQueue
unfolding need_to_shrink retry
from_top now q =
    let (shrink, q1) = need_to_shrink now (record q { at_top = q.at_top - 1 }) in
    if shrink then record q1 { nr_threads = q1.nr_threads - 1 } else retry q1

-- Workers that go on from the top of the loop, at some times.
unfoldable pub run_tops : List ℕ → WorkQueue → WorkQueue
unfolding from_top
run_tops [] q = q
run_tops (now ∷ nows) q = run_tops nows (if q.at_top == 0 then q else from_top now q)

abbrev pub add_worker : WorkQueue → WorkQueue
add_worker q = record q { nr_threads = q.nr_threads + 1; at_top = q.at_top + 1 }

-- `create_workqueue_threads` without the lock, with what the workers that are there do before each test of
-- its loop; after the last of these, they do nothing until it ends.
unfoldable pub create_among : List (List ℕ) → ℕ → ℕ → WorkQueue → ℤ × WorkQueue
unfolding run_tops create_workqueue_threads
create_among [] requested room q = create_workqueue_threads requested room q
create_among (tops ∷ rest) requested room q =
    let q1 = run_tops tops q in
    elim (ltb q1.nr_threads requested) [
      | false ↦ (pos 0, q1)
      | true ↦ elim room [
        | zero ↦ (neg 1, q1)
        | suc room' ↦ create_among rest requested room' (add_worker q1)
      ]
    ]

-- The constructor, which holds no lock; `none` where it throws.
unfoldable pub new_work_queue : List (List ℕ) → ℕ → ℕ → Option WorkQueue
unfolding create_among
new_work_queue early cores room =
    let (ret, q) = create_among early cores room no_threads in
    if is_negative ret then none else some q

-- After the wait: a worker ends where the queue is stopping.
unfoldable pub from_wait : WorkQueue → WorkQueue
unfolding retry
from_wait q =
    let q1 = record q { woken = q.woken - 1 } in
    if q1.stopping then record q1 { nr_threads = q1.nr_threads - 1 } else retry q1

-- The request was handled, and the worker is back at the top.
unfoldable pub finish_work : WorkQueue → WorkQueue
finish_work q = record q { busy = q.busy - 1; at_top = q.at_top + 1 }

-- `shutdown` sets `stopping`, and notifies all workers until none is left.
unfoldable pub stop_queue : WorkQueue → WorkQueue
stop_queue q = record q { stopping = true; sleeping = 0; woken = q.woken + q.sleeping }

-- The steps of a queue that is not stopping, on a machine with `hardware` cores. The clock and the room
-- for threads are whatever they are at each step.
pub data Step (hardware : ℕ) : WorkQueue → WorkQueue → Type 0 where
  schedules : (now room : ℕ) (q : WorkQueue) → Step hardware q (work_schedule hardware now room q)
  goes_on : (now : ℕ) (q : WorkQueue) → 0 < q.at_top → Step hardware q (from_top now q)
  wakes : (q : WorkQueue) → 0 < q.woken → Step hardware q (from_wait q)
  finishes : (q : WorkQueue) → 0 < q.busy → Step hardware q (finish_work q)

pub data Reached (hardware cores : ℕ) : WorkQueue → Type 0 where
  made :
      {q : WorkQueue} (early : List (List ℕ)) (room : ℕ)
      → new_work_queue early cores room ≡ some q
      → Reached hardware cores q
  next : {q r : WorkQueue} → Reached hardware cores q → Step hardware q r → Reached hardware cores r
