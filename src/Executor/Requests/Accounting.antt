-- ===== src/Executor/Requests/Accounting.antt =====
-- Serving the request queue, with a kernel that takes a whole batch or asks to try again.
use gobjfs.Base.{
  ℕ, suc, ◌+◌, ◌-◌, ◌<◌, ◌≡◌, refl, neg, List, [], ◌∷◌, ◌++◌, length, take, drop, min, arith, done,
  Returns, Returns-map, Returns->>=, ap, ◌∙◌, ◌⊎◌, inl, inr, ltb, einval, lt→ltb, Bool-cases,
}
use gobjfs.Job.{FilerJob}
use gobjfs.Executor.{Machine, Env, FilerCtx, Statistics, World, increment_num_available}
use gobjfs.Executor.Invariant.{Inv, IsRising, addrs, give_back, give_back_all, room_for_owed}
use gobjfs.Executor.Requests.{
  fail_all, return_slots, submit_rounds, fail_rest, submit_batch, process_request_queue, collect,
}
use gobjfs.Executor.Requests.Effects.{Collected, collect-Collected}
use gobjfs.Executor.Requests.Failing.{failures, FailedAll, fail_all-FailedAll}
use gobjfs.Executor.Requests.Launching.{IsSteady, Settled, submit_rounds-Settled}

pub return_slots_lem :
    (env : Env) (n : ℕ) (held : List FilerJob) (m : Machine)
    → Inv env n held m
    → return_slots env n m ≡ done (give_back n m)
unfolding return_slots increment_num_available give_back
return_slots_lem env n held m v = rw (room_for_owed env n held m v)

-- The jobs that are left over are answered with an error, and their slots come back.
pub record Refused (env : Env) (jobs : List FilerJob) (m m' : Machine) : Type 0 where
  pub accounts : Inv env 0 [] m'
  pub notified : m'.world.notified ≡ failures (neg einval) jobs m.world.notified
  pub flight_same : m'.in_flight ≡ m.in_flight
  pub requests_same : m'.request_queue ≡ m.request_queue
  pub queued_same : m'.stats.num_queued ≡ m.stats.num_queued

fail_rest-Refused :
    (env : Env) (jobs : List FilerJob) (m : Machine)
    → IsRising env
    → Inv env (length jobs) jobs m
    → Returns (fail_rest env jobs m) (Refused env jobs m)
unfolding fail_rest
fail_rest-Refused env [] m rising v = record {
  accounts = v;
  notified = refl;
  flight_same = refl;
  requests_same = refl;
  queued_same = refl;
}
fail_rest-Refused env (job ∷ jobs) m rising v =
    Returns->>= (fail_all env (neg einval) (job ∷ jobs) m) (return_slots env (suc (length jobs)))
      (FailedAll env (suc (length jobs)) (neg einval) (job ∷ jobs) m) _
      (fail_all-FailedAll env (suc (length jobs)) (neg einval) (job ∷ jobs) m rising v)
      λ m1 f. rw (return_slots_lem env (suc (length jobs)) [] m1 f.accounts) (
        unfold give_back in
        record {
          accounts = give_back_all env (suc (length jobs)) [] m1 f.accounts;
          notified = f.notified;
          flight_same = f.flight_same;
          requests_same = f.requests_same;
          queued_same = f.queued_same;
        })

-- What becomes of a batch of `jobs`, `n` of which were submitted: all are in flight, in their order
-- and behind those that were, or all are answered with an error.
pub record Served (env : Env) (jobs : List FilerJob) (m : Machine) (n : ℕ) (m' : Machine)
    : Type 0 where
  pub accounts : Inv env 0 [] m'
  pub outcome :
      ((n ≡ length jobs)
        × (m'.in_flight ≡ m.in_flight ++ jobs)
        × (m'.world.notified ≡ m.world.notified))
      ⊎ ((n ≡ 0)
          × (m'.in_flight ≡ m.in_flight)
          × (m'.world.notified ≡ failures (neg einval) jobs m.world.notified))
  pub requests_same : m'.request_queue ≡ m.request_queue
  pub queued_same : m'.stats.num_queued ≡ m.stats.num_queued

woken-Inv :
    (env : Env) (n : ℕ) (m : Machine)
    → Inv env 0 [] m
    → Inv env 0 [] (record m { request_space_wakeups = n })
woken-Inv env n m v = record {
  permits = v.permits;
  slots = v.slots;
  sized = v.sized;
  fd_sized = v.fd_sized;
  queued = v.queued;
  fd_queued = v.fd_queued;
  flying = v.flying;
  held_flying = v.held_flying;
  apart = v.apart;
  counted = v.counted;
}

Served-woken :
    (env : Env) (jobs : List FilerJob) (m : Machine) (n k : ℕ) (m' : Machine)
    → Served env jobs m n m'
    → Served env jobs m n (record m' { request_space_wakeups = k })
Served-woken env jobs m n k m' s = record {
  accounts = woken-Inv env k m' s.accounts;
  outcome = s.outcome;
  requests_same = s.requests_same;
  queued_same = s.queued_same;
}

Refused-Served :
    (env : Env) (jobs rest : List FilerJob) (m m1 m2 : Machine)
    → Settled env jobs m rest m1
    → Refused env rest m1 m2
    → Served env jobs m (length jobs - length rest) m2
Refused-Served env jobs rest m m1 m2 s r = record {
  accounts = r.accounts;
  outcome = elim s.outcome [
    | inl (none_left, flown) ↦ inl (
      omega (arith, ap (length {0}) none_left),
      r.flight_same ∙ flown,
      r.notified ∙ ap (λ l. failures (neg einval) l m1.world.notified) none_left ∙ s.notified_same,
    )
    | inr (all_left, same) ↦ inr (
      omega (arith, ap (length {0}) all_left),
      r.flight_same ∙ same,
      r.notified
          ∙ ap (λ l. failures (neg einval) l m1.world.notified) all_left
          ∙ ap (failures (neg einval) jobs) s.notified_same,
    )
  ];
  requests_same = r.requests_same ∙ s.requests_same;
  queued_same = r.queued_same ∙ s.queued_same;
}

submit_batch-Served :
    (env : Env) (jobs : List FilerJob) (m : Machine)
    → IsRising env
    → IsSteady env
    → Inv env (length jobs) jobs m
    → Returns (submit_batch env jobs m) λ r. Served env jobs m r.0 r.1
unfolding submit_batch
submit_batch-Served env [] m rising steady v = record {
  accounts = v;
  outcome = inr (refl, refl, refl);
  requests_same = refl;
  queued_same = refl;
}
submit_batch-Served env (job ∷ jobs) m rising steady v =
    Returns->>= (submit_rounds env 5 (job ∷ jobs) m) _ (λ a. Settled env (job ∷ jobs) m a.0 a.1) _
      (submit_rounds-Settled env 5 (job ∷ jobs) m steady (omega arith) v)
      λ a s.
        Returns->>= (fail_rest env a.0 a.1) _ (Refused env a.0 a.1) _
          (fail_rest-Refused env a.0 a.1 rising s.accounts)
          λ m2 r.
            let served = Refused-Served env (job ∷ jobs) a.0 m a.1 m2 s r in
            elim (Bool-cases (ltb m2.request_queue_size m2.config.max_request_queue_size)) [
              | inl room ↦
                  rw room
                    (Served-woken env (job ∷ jobs) m _ (suc m2.request_space_wakeups) m2 served)
              | inr full ↦ rw full served
            ]

-- The number of jobs that one service of the queue takes.
abbrev pub batch_size : Machine → ℕ
batch_size m = min m.ctx.num_available (length m.request_queue)

pub record QueueServed (env : Env) (m : Machine) (n : ℕ) (m' : Machine) : Type 0 where
  pub accounts : Inv env 0 [] m'
  pub jobs : List FilerJob
  pub from_front : addrs jobs ≡ addrs (take (batch_size m) m.request_queue)
  pub left : m'.request_queue ≡ drop (batch_size m) m.request_queue
  pub queued_same : m'.stats.num_queued ≡ m.stats.num_queued
  pub outcome :
      ((n ≡ batch_size m)
        × (m'.in_flight ≡ m.in_flight ++ jobs)
        × (m'.world.notified ≡ m.world.notified))
      ⊎ ((n ≡ 0)
          × (m'.in_flight ≡ m.in_flight)
          × (m'.world.notified ≡ failures (neg einval) jobs m.world.notified))

Collected-QueueServed :
    (env : Env) (m m0 m1 m2 : Machine) (b : List FilerJob) (n : ℕ)
    → m0.ctx ≡ m.ctx
    → m0.in_flight ≡ m.in_flight
    → m0.world ≡ m.world
    → m0.stats ≡ m.stats
    → Collected env m.request_queue [] m0 b m1
    → Served env b m1 n m2
    → QueueServed env m n m2
Collected-QueueServed env m m0 m1 m2 b n same_ctx same_flight same_world same_stats c s =
    let slots : m0.ctx.num_available ≡ m.ctx.num_available =
      ap (λ (x : FilerCtx). x.num_available) same_ctx in
    let notes : m1.world.notified ≡ m.world.notified =
      c.notified_same ∙ ap (λ (w : World). w.notified) same_world in
    let flight : m1.in_flight ≡ m.in_flight = c.flight_same ∙ same_flight in
    record {
      accounts = s.accounts;
      jobs = b;
      from_front = rw (← slots) c.in_order;
      left = rw (← slots) (s.requests_same ∙ c.left);
      queued_same =
          s.queued_same ∙ c.queued_same ∙ ap (λ (x : Statistics). x.num_queued) same_stats;
      outcome = elim s.outcome [
        | inl (k, f, w) ↦ inl (
          rw (← slots) (k ∙ c.added ∙ omega arith),
          f ∙ ap (λ (l : List FilerJob). l ++ b) flight,
          w ∙ notes,
        )
        | inr (k, f, w) ↦ inr (k, f ∙ flight, w ∙ ap (failures (neg einval) b) notes)
      ];
    }

pub repermitted-Inv :
    (env : Env) (m : Machine)
    → Inv env 0 [] m
    → 0 < m.ctx.num_available
    → Inv env 0 [] (record m { ctx_cond = m.ctx_cond - 1 + 1 })
repermitted-Inv env m v free = record {
  permits = omega (arith, v.permits);
  slots = v.slots;
  sized = v.sized;
  fd_sized = v.fd_sized;
  queued = v.queued;
  fd_queued = v.fd_queued;
  flying = v.flying;
  held_flying = v.held_flying;
  apart = v.apart;
  counted = v.counted;
}

-- Serving the request queue, with a rising clock, a steady kernel and a free slot, faults nowhere
-- and keeps the accounts. It takes as many jobs from the front of the queue, in order, as there are
-- free slots, and leaves the others. Those it took are all in flight, behind those that were, and
-- nobody is notified; or none is in flight, and each is answered with -EINVAL. The result is the
-- number of jobs that are in flight now and were not.
pub process_request_queue-QueueServed :
    (env : Env) (m : Machine)
    → IsRising env
    → IsSteady env
    → Inv env 0 [] m
    → 0 < m.ctx.num_available
    → Returns (process_request_queue env m) λ r. QueueServed env m r.0 r.1
unfolding process_request_queue
process_request_queue-QueueServed env m rising steady v free =
    let m0 : Machine = record m { ctx_cond = m.ctx_cond - 1 + 1 } in
    rw (lt→ltb 0 m.ctx_cond (omega (arith, v.permits))) (
      Returns->>= (collect env m.request_queue [] m0) _
        (λ r. Collected env m.request_queue [] m0 r.0 r.1) _
        (collect-Collected env m.request_queue [] m0 rising (repermitted-Inv env m v free))
        λ r c.
          Returns-map (submit_batch env r.0 r.1) _ _
            (submit_batch-Served env r.0 r.1 rising steady c.accounts)
            λ t s. Collected-QueueServed env m m0 r.1 t.1 r.0 t.0 refl refl refl refl c s)
