-- ===== src/Server/WorkQueue/Pools.antt =====
-- The size of the pool of workers, and where they stand.
use gobjfs.Base.{
  ℕ, zero, suc, ◌+◌, ◌-◌, ◌*◌, ◌<◌, ◌≤◌, ◌≡◌, true, false, some, ◌==◌, is_negative, arith, max,
  Bool-cases, inl, inr, ◌⊎◌, List, [], ◌∷◌, u64, ℤ, subst, ltb, refl,
}
use gobjfs.Server.WorkQueue.{
  WorkQueue, start_threads, create_workqueue_threads, no_threads, new_work_queue, need_to_grow,
  need_to_shrink, notify_one, run_tops, add_worker, create_among, work_schedule, grow, retry,
  from_top, from_wait, finish_work, Step, schedules, goes_on, wakes, finishes, Reached, made, next,
}

-- Every worker is counted at one point; there is at least one, and no more than the bound; and a worker
-- sleeps only if those that were notified are enough for the queue.
pub record IsManned (bound : ℕ) (q : WorkQueue) : Type 0 where
  pub counted : q.nr_threads ≡ q.at_top + q.sleeping + q.woken + q.busy
  pub manned : 0 < q.nr_threads
  pub bounded : q.nr_threads ≤ bound
  pub runs : q.stopping ≡ false
  pub served : (q.queue ≤ q.woken) ⊎ (q.sleeping ≡ 0)

-- The threads that are started are at the top.
pub start_threads_lem :
    (missing room : ℕ) (q : WorkQueue)
    → let r = (start_threads missing room q).1 in
      (r.nr_threads ≤ q.nr_threads + missing)
      × (q.nr_threads ≤ r.nr_threads)
      × (r.nr_threads + q.at_top ≡ q.nr_threads + r.at_top)
      × (r.sleeping ≡ q.sleeping)
      × (r.woken ≡ q.woken)
      × (r.busy ≡ q.busy)
      × (r.queue ≡ q.queue)
      × (r.stopping ≡ q.stopping)
      × (r.nr_queued_work ≡ q.nr_queued_work)
unfolding start_threads
start_threads_lem zero room q = ground arith
start_threads_lem (suc missing) zero q = ground arith
start_threads_lem (suc missing) (suc room) q = ground (
  arith,
  start_threads_lem missing room
      (record q { nr_threads = q.nr_threads + 1; at_top = q.at_top + 1 }),
)

from_top-IsManned :
    (bound now : ℕ) (q : WorkQueue)
    → 0 < q.at_top
    → IsManned bound q
    → IsManned bound (from_top now q)
unfolding from_top need_to_shrink retry
from_top-IsManned bound now q h v = ground arith

from_wait-IsManned :
    (bound : ℕ) (q : WorkQueue) → 0 < q.woken → IsManned bound q → IsManned bound (from_wait q)
unfolding from_wait retry
from_wait-IsManned bound q h v = ground arith

finish_work-IsManned :
    (bound : ℕ) (q : WorkQueue) → 0 < q.busy → IsManned bound q → IsManned bound (finish_work q)
unfolding finish_work
finish_work-IsManned bound q h v = ground arith

notify_one-IsManned :
    (bound : ℕ) (q : WorkQueue)
    → IsManned bound q
    → IsManned bound (notify_one (record q { queue = q.queue + 1 }))
notify_one-IsManned bound q v = ground arith

grown-IsManned :
    (bound room : ℕ) (q : WorkQueue)
    → q.nr_threads * 2 ≤ bound
    → IsManned bound q
    → IsManned bound (create_workqueue_threads (q.nr_threads * 2) room q).1
unfolding create_workqueue_threads
grown-IsManned bound room q h v =
    ground (arith, start_threads_lem (q.nr_threads * 2 - q.nr_threads) room q)

need_to_grow-IsManned :
    (bound hardware now : ℕ) (q : WorkQueue)
    → IsManned bound q
    → IsManned bound (need_to_grow hardware now q).1
unfolding need_to_grow
need_to_grow-IsManned bound hardware now q v = ground arith

need_to_grow-room :
    (hardware now : ℕ) (q : WorkQueue)
    → (need_to_grow hardware now q).0 ≡ true
    → (need_to_grow hardware now q).1.nr_threads * 2 ≤ hardware
unfolding need_to_grow
need_to_grow-room hardware now q h = ground arith

grow-IsManned :
    (bound hardware now room : ℕ) (q : WorkQueue)
    → hardware ≤ bound
    → IsManned bound q
    → IsManned bound (grow hardware now room q)
unfolding grow
grow-IsManned bound hardware now room q h v = elim (Bool-cases ((need_to_grow hardware now q).0)) [
  | inr enough ↦ rw enough (need_to_grow-IsManned bound hardware now q v)
  | inl needed ↦
      let fits = need_to_grow-room hardware now q needed in
      rw needed (
        grown-IsManned bound room (need_to_grow hardware now q).1 (omega arith)
          (need_to_grow-IsManned bound hardware now q v))
]

queued-IsManned :
    (bound n : ℕ) (q : WorkQueue)
    → IsManned bound q
    → IsManned bound (record q { nr_queued_work = n })
queued-IsManned bound n q v = ground arith

work_schedule-IsManned :
    (bound hardware now room : ℕ) (q : WorkQueue)
    → hardware ≤ bound
    → IsManned bound q
    → IsManned bound (work_schedule hardware now room q)
unfolding work_schedule
work_schedule-IsManned bound hardware now room q h v = notify_one-IsManned bound _ (
    grow-IsManned bound hardware now room (record q { nr_queued_work = u64 (q.nr_queued_work + 1) })
      h (queued-IsManned bound (u64 (q.nr_queued_work + 1)) q v))

Step-IsManned :
    (bound hardware : ℕ) {q r : WorkQueue}
    → hardware ≤ bound
    → Step hardware q r
    → IsManned bound q
    → IsManned bound r
Step-IsManned bound hardware h (schedules now room q) v =
    work_schedule-IsManned bound hardware now room q h v
Step-IsManned bound hardware h (goes_on now q k) v = from_top-IsManned bound now q k v
Step-IsManned bound hardware h (wakes q k) v = from_wait-IsManned bound q k v
Step-IsManned bound hardware h (finishes q k) v = finish_work-IsManned bound q k v

-- Where every thread could be started.
pub started_all :
    (missing room : ℕ) (q : WorkQueue)
    → is_negative (start_threads missing room q).0 ≡ false
    → (start_threads missing room q).1.nr_threads ≡ q.nr_threads + missing
unfolding start_threads
started_all zero room q h = omega arith
started_all (suc missing) zero q h = cc
started_all (suc missing) (suc room) q h = omega (
  arith,
  started_all missing room (record q { nr_threads = q.nr_threads + 1; at_top = q.at_top + 1 }) h,
)

-- A queue whose workers are being made: there may be none yet.
record IsBuilt (bound : ℕ) (q : WorkQueue) : Type 0 where
  counted : q.nr_threads ≡ q.at_top + q.sleeping + q.woken + q.busy
  bounded : q.nr_threads ≤ bound
  runs : q.stopping ≡ false
  served : (q.queue ≤ q.woken) ⊎ (q.sleeping ≡ 0)

built-IsManned : (bound : ℕ) (q : WorkQueue) → 0 < q.nr_threads → IsBuilt bound q → IsManned bound q
built-IsManned bound q h v = record {
  counted = v.counted;
  manned = h;
  bounded = v.bounded;
  runs = v.runs;
  served = v.served;
}

manned-IsBuilt : (bound : ℕ) (q : WorkQueue) → IsManned bound q → IsBuilt bound q
manned-IsBuilt bound q v = record {
  counted = v.counted;
  bounded = v.bounded;
  runs = v.runs;
  served = v.served;
}

run_tops-IsBuilt :
    (bound : ℕ) (nows : List ℕ) (q : WorkQueue) → IsBuilt bound q → IsBuilt bound (run_tops nows q)
unfolding run_tops
run_tops-IsBuilt bound [] q v = v
run_tops-IsBuilt bound (now ∷ nows) q v = elim (Bool-cases (q.at_top == 0)) [
  | inl nobody ↦ rw (nobody, run_tops) (run_tops-IsBuilt bound nows q v)
  | inr somebody ↦
      let there : 0 < q.at_top = ground arith in
      let w = built-IsManned bound q (omega (arith, v.counted)) v in
      rw (somebody, run_tops)
        (run_tops-IsBuilt bound nows (from_top now q)
          (manned-IsBuilt bound (from_top now q) (from_top-IsManned bound now q there w)))
]

add_worker-IsBuilt :
    (bound : ℕ) (q : WorkQueue)
    → q.nr_threads < bound
    → IsBuilt bound q
    → IsBuilt bound (add_worker q)
add_worker-IsBuilt bound q h v = ground arith

-- What is made without an error: enough workers, in order.
abbrev IsMade : ℕ → ℕ → ℤ × WorkQueue → Type 0
IsMade bound requested r = IsBuilt bound r.1 × (requested ≤ r.1.nr_threads)

create_workqueue_threads-IsMade :
    (bound requested room : ℕ) (q : WorkQueue)
    → requested ≤ bound
    → IsBuilt bound q
    → is_negative (create_workqueue_threads requested room q).0 ≡ false
    → IsMade bound requested (create_workqueue_threads requested room q)
unfolding create_workqueue_threads
create_workqueue_threads-IsMade bound requested room q k v h = ground (
  arith,
  v,
  start_threads_lem (requested - q.nr_threads) room q,
  started_all (requested - q.nr_threads) room q,
)

create_among-IsMade :
    (early : List (List ℕ)) (bound requested room : ℕ) (q : WorkQueue)
    → requested ≤ bound
    → IsBuilt bound q
    → is_negative (create_among early requested room q).0 ≡ false
    → IsMade bound requested (create_among early requested room q)
unfolding create_among
create_among-IsMade [] bound requested room q k v =
    create_workqueue_threads-IsMade bound requested room q k v
create_among-IsMade (tops ∷ rest) bound requested zero q k v =
    let w = run_tops-IsBuilt bound tops q v in
    elim (Bool-cases (ltb (run_tops tops q).nr_threads requested)) [
      | inr enough ↦ rw (enough, create_among) (λ h. (w, ground arith))
      | inl fewer ↦ rw (fewer, create_among) (λ h. cc)
    ]
create_among-IsMade (tops ∷ rest) bound requested (suc room) q k v =
    let w = run_tops-IsBuilt bound tops q v in
    elim (Bool-cases (ltb (run_tops tops q).nr_threads requested)) [
      | inr enough ↦ rw (enough, create_among) (λ h. (w, ground arith))
      | inl fewer ↦
          rw (fewer, create_among)
            (create_among-IsMade rest bound requested room (add_worker (run_tops tops q)) k
              (add_worker-IsBuilt bound (run_tops tops q) (ground arith) w))
    ]

no_threads-IsBuilt : (bound : ℕ) → IsBuilt bound no_threads
no_threads-IsBuilt bound = record {
  counted = refl;
  bounded = omega arith;
  runs = refl;
  served = inr refl;
}

new_work_queue-IsManned :
    (early : List (List ℕ)) (cores room bound : ℕ) {q : WorkQueue}
    → 0 < cores
    → cores ≤ bound
    → new_work_queue early cores room ≡ some q
    → IsManned bound q
unfolding new_work_queue
new_work_queue-IsManned early cores room bound {q} h k e =
    let r = create_among early cores room no_threads in
    elim (Bool-cases (is_negative r.0)) [
      | inl failed ↦ absurd (ground (arith, e, failed))
      | inr fine ↦
          let made =
            create_among-IsMade early bound cores room no_threads k (no_threads-IsBuilt bound)
              fine in
          let same : r.1 ≡ q = ground (arith, e, fine) in
          subst (IsManned bound) same (built-IsManned bound r.1 (omega (arith, made.1)) made.0)
    ]

pub Reached-IsManned :
    (hardware cores : ℕ) {q : WorkQueue}
    → 0 < cores
    → Reached hardware cores q
    → IsManned (max cores hardware) q
Reached-IsManned hardware cores h (made early room e) =
    new_work_queue-IsManned early cores room (max cores hardware) h (omega arith) e
Reached-IsManned hardware cores h (next r st) =
    Step-IsManned (max cores hardware) hardware (omega arith) st
      (Reached-IsManned hardware cores h r)

-- A queue that was made for some cores and is not stopping has at least one worker and, however it grew,
-- no more than the larger of those cores and the machine's; each worker is at one point of its loop. While
-- a request waits in the queue, not all workers sleep.
pub Reached-served :
    (hardware cores : ℕ) {q : WorkQueue}
    → 0 < cores
    → Reached hardware cores q
    → (0 < q.nr_threads)
      × (q.nr_threads ≤ max cores hardware)
      × (q.nr_threads ≡ q.at_top + q.sleeping + q.woken + q.busy)
      × ((q.queue ≡ 0) ⊎ (q.sleeping < q.nr_threads))
Reached-served hardware cores {q} h r =
    let v = Reached-IsManned hardware cores h r in
    let some_awake : (q.queue ≡ 0) ⊎ (q.sleeping < q.nr_threads) =
      elim (Bool-cases (q.queue == 0)) [
        | inl empty ↦ inl (ground arith)
        | inr filled ↦ inr (ground (arith, v.served))
      ] in
    (v.manned, v.bounded, v.counted, some_awake)
