-- ===== src/Executor/Requests/Effects.antt =====
-- Filling the batch: the slots that are free, or the whole queue, whichever is less.
use gobjfs.Base.{
  ℕ, suc, ◌+◌, ◌-◌, ◌<◌, ◌≡◌, refl, List, [], ◌∷◌, ◌++◌, length, take, drop, min, All, All-append,
  arith, done, Returns, Returns-map, ap, ◌%◌, ◌^◌, ◌∙◌, sym, length-append, append_assoc,
  append-nil, ◌==◌, Bool-cases, inl, inr,
}
use gobjfs.Job.{FilerJob, prepare_callblock}
use gobjfs.Executor.{Machine, Env, decrement_num_available}
use gobjfs.Executor.Invariant.{
  Inv, Flying, IsOwned, Queued, IsRising, now_at, occurs-append, addrs, addrs-append, Queued-mono,
  FdQueued-mono,
}
use gobjfs.Executor.Requests.{take_slot, collect}

-- The job after `prepareCallblock`.
abbrev pub prepared : ℕ → FilerJob → FilerJob
prepared now job = record job {
  timing = record (job.timing) { wait_time = now - job.timing.begin; begin = now };
}

abbrev slot_taken : Env → Machine → Machine
slot_taken env m = record m {
  ctx = record (m.ctx) { num_available = m.ctx.num_available - 1 };
  ctx_cond = m.ctx_cond - 1;
  request_queue_size = m.request_queue_size - 1;
  world = record (m.world) { ticks = m.world.ticks + 1 };
}

take_slot_lem :
    (env : Env) (job : FilerJob) (m : Machine)
    → Queued (now_at env m) job
    → 0 < m.ctx.num_available
    → 0 < m.ctx_cond
    → 0 < m.request_queue_size
    → take_slot env job m ≡ done (prepared (now_at env m) job, slot_taken env m)
unfolding take_slot prepare_callblock decrement_num_available
take_slot_lem env job m q a b c = ground arith

slot_taken-Inv :
    (env : Env) (job : FilerJob) (queue batch : List FilerJob) (m : Machine)
    → IsRising env
    → 0 < m.ctx.num_available
    → Inv env (length batch) batch (record m { request_queue = job ∷ queue })
    → let held = batch ++ prepared (now_at env m) job ∷ [] in
      Inv env (length held) held (record (slot_taken env m) { request_queue = queue })
slot_taken-Inv env job queue batch m rising free v = record {
  permits = omega (arith, v.permits);
  slots = omega (arith, v.slots, length-append batch (prepared (now_at env m) job ∷ []));
  sized = omega (arith, v.sized);
  fd_sized = v.fd_sized;
  queued = Queued-mono _ _ queue (omega (arith, rising m.world.ticks)) v.queued.1;
  fd_queued = FdQueued-mono _ _ m.fd_queue (omega (arith, rising m.world.ticks)) v.fd_queued;
  flying = v.flying;
  held_flying =
      All-append Flying batch (prepared (now_at env m) job ∷ []) v.held_flying
        ((v.queued.0.0, v.queued.0.1, omega (arith, v.queued.0.4), v.queued.0.3), tt);
  apart = λ a. omega (arith, v.apart a, occurs-append a batch (prepared (now_at env m) job ∷ []));
  counted =
      v.counted
      ∙ ap (λ (n : ℕ). n % 2 ^ 64)
          (omega (arith, length-append batch (prepared (now_at env m) job ∷ [])));
}

-- The batch is what was there and the first jobs of the queue, in order; the rest of the queue stays.
pub record Collected (env : Env) (queue batch : List FilerJob) (m : Machine) (b : List FilerJob)
    (m' : Machine) : Type 0 where
  pub accounts : Inv env (length b) b m'
  pub added : length b ≡ length batch + min m.ctx.num_available (length queue)
  pub in_order :
      addrs b ≡ addrs batch ++ addrs (take (min m.ctx.num_available (length queue)) queue)
  pub left : m'.request_queue ≡ drop (min m.ctx.num_available (length queue)) queue
  pub flight_same : m'.in_flight ≡ m.in_flight
  pub notified_same : m'.world.notified ≡ m.world.notified
  pub freed_same : m'.world.freed ≡ m.world.freed
  pub queued_same : m'.stats.num_queued ≡ m.stats.num_queued
  pub owned : All IsOwned queue → All IsOwned batch → All IsOwned b

nothing_taken :
    (env : Env) (queue batch : List FilerJob) (m : Machine)
    → Inv env (length batch) batch (record m { request_queue = queue })
    → min m.ctx.num_available (length queue) ≡ 0
    → Collected env queue batch m batch (record m { request_queue = queue })
nothing_taken env queue batch m v e = record {
  accounts = v;
  added = omega (arith, e);
  in_order = rw e (sym (append-nil (addrs batch)));
  left = rw e;
  flight_same = refl;
  notified_same = refl;
  freed_same = refl;
  queued_same = refl;
  owned = λ q b. b;
}

one_taken :
    (env : Env) (job j : FilerJob) (queue batch b : List FilerJob) (m m1 m' : Machine)
    → j.addr ≡ job.addr
    → j.can_be_freed ≡ job.can_be_freed
    → 0 < m.ctx.num_available
    → m1.ctx.num_available ≡ m.ctx.num_available - 1
    → m1.in_flight ≡ m.in_flight
    → m1.world.notified ≡ m.world.notified
    → m1.world.freed ≡ m.world.freed
    → m1.stats.num_queued ≡ m.stats.num_queued
    → Collected env queue (batch ++ j ∷ []) m1 b m'
    → Collected env (job ∷ queue) batch m b m'
one_taken env job j queue batch b m m1 m' same own free less f n w s c =
    let k : min m.ctx.num_available (suc (length queue))
        ≡ suc (min m1.ctx.num_available (length queue)) =
      omega (arith, less) in
    record {
      accounts = c.accounts;
      added = omega (arith, c.added, k, length-append batch (j ∷ []));
      in_order = rw k (
          c.in_order
          ∙ ap (λ (l : List ℕ). l ++ addrs (take (min m1.ctx.num_available (length queue)) queue))
              (addrs-append batch (j ∷ []))
          ∙ simp (append_assoc, same));
      left = rw k c.left;
      flight_same = c.flight_same ∙ f;
      notified_same = c.notified_same ∙ n;
      freed_same = c.freed_same ∙ w;
      queued_same = c.queued_same ∙ s;
      owned = λ q o. c.owned q.1 (All-append IsOwned batch (j ∷ []) o (own ∙ q.0, tt));
    }

pub collect-Collected :
    (env : Env) (queue batch : List FilerJob) (m : Machine)
    → IsRising env
    → Inv env (length batch) batch (record m { request_queue = queue })
    → Returns (collect env queue batch m) λ r. Collected env queue batch m r.0 r.1
unfolding collect
collect-Collected env [] batch m rising v = nothing_taken env [] batch m v (omega arith)
collect-Collected env (job ∷ queue) batch m rising v =
    elim (Bool-cases (m.ctx.num_available == 0)) [
      | inl full ↦ rw full (nothing_taken env (job ∷ queue) batch m v (ground arith))
      | inr free ↦
          rw
            (
              free,
              take_slot_lem env job m v.queued.0 (ground arith) (ground (arith, v.permits))
                  (ground (arith, v.sized)),
            )
            (Returns-map
              (collect env queue (batch ++ prepared (now_at env m) job ∷ []) (slot_taken env m)) _ _
              (collect-Collected env queue (batch ++ prepared (now_at env m) job ∷ [])
                (slot_taken env m) rising
                (slot_taken-Inv env job queue batch m rising (ground arith) v))
              λ r c.
                one_taken env job (prepared (now_at env m) job) queue batch r.0 m (slot_taken env m)
                  r.1 refl refl (ground arith) refl refl refl refl refl c)
    ]
