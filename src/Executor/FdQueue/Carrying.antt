-- ===== src/Executor/FdQueue/Carrying.antt =====
-- One job of the fd queue, from its dequeue to its answer.
use gobjfs.Base.{
  ℕ, suc, ◌+◌, ◌-◌, ◌≤◌, ◌≡◌, refl, ℤ, List, [], ◌∷◌, length, arith, Returns, Returns->>=, All,
  subst, ap, ◌∙◌, sym, true, inl, inr, Bool-cases, leb, if◌then◌else◌, done, u64, lt→ltb,
}
use gobjfs.Job.{FilerJob, FileOp, set_wait_time}
use gobjfs.Executor.{Machine, Env, FilerCtx}
use gobjfs.Executor.Post.{do_post_processing_of_job, count}
use gobjfs.Executor.Invariant.{
  Inv, IsRising, FdQueued, is_fd_job, occurs, now_at, FdQueued-mono, Queued-mono,
}
use gobjfs.Executor.Invariant.Posting.{Ripe, Posted, do_post_processing_of_job-Posted}
use gobjfs.Executor.FdQueue.{carry_out, consume, delete_code, write_code}

-- The return code of a delete or of an unaligned write.
abbrev pub fd_code : Env → FilerJob → ℤ
fd_code env job = elim job.op [ FileOp.delete ↦ delete_code env job | _ ↦ write_code env job ]

-- The job as it is finished: dequeued at the time of the round, with its code.
abbrev pub carried : Env → FilerJob → Machine → FilerJob
carried env job m = record job {
  timing = record (job.timing) {
    wait_time = now_at env m - job.timing.begin;
    begin = now_at env m;
  };
  retcode = fd_code env job;
}

abbrev pub begun : List FilerJob → Machine → Machine
begun queue m = record m {
  fd_queue = queue;
  stats = record (m.stats) { num_submitted = u64 (m.stats.num_submitted + 1) };
  world = record (m.world) { ticks = m.world.ticks + 1 };
}

pub carry_out_lem :
    (env : Env) (job : FilerJob) (queue : List FilerJob) (m : Machine)
    → is_fd_job job.op ≡ true
    → job.timing.wait_time ≡ 0
    → job.timing.service_time ≡ 0
    → carry_out env job.op job (record m { fd_queue = queue })
      ≡ done (carried env job m, begun queue m)
unfolding carry_out set_wait_time
carry_out_lem env job queue m op w s = ground arith

-- One round: the job at the front is finished with its code, and the next are left.
pub record Carried (env : Env) (job : FilerJob) (queue : List FilerJob) (m m' : Machine)
    : Type 0 where
  pub accounts : Inv env 0 [] m'
  pub notified :
      m'.world.notified
      ≡ record {
        completion_fd = job.completion_fd;
        completion_id = job.completion_id;
        error_code = fd_code env job;
      }
        ∷ m.world.notified
  pub left : m'.fd_queue ≡ queue
  pub permits_same : m'.fd_queue_cond ≡ m.fd_queue_cond
  pub ctx_same : m'.ctx ≡ m.ctx
  pub state_same : m'.state ≡ m.state
  pub completed : m'.stats.num_completed ≡ u64 (m.stats.num_completed + 1)

abbrev pub sized_down : Machine → ℕ → Machine
sized_down posted size =
    let m' = record posted { fd_queue_size = size } in
    if leb m'.config.max_request_queue_size size
    then record m' { fd_space_wakeups = suc m'.fd_space_wakeups }
    else m'

pub later_le : (env : Env) (i : ℕ) → IsRising env → env.clock i ≤ env.clock (i + 1 + 1)
later_le env i rising = omega (arith, rising i, rising (i + 1))

pub carried-Inv :
    (env : Env) (job : FilerJob) (queue : List FilerJob) (m posted : Machine) (wakeups : ℕ)
    → IsRising env
    → Inv env 0 [] m
    → m.fd_queue ≡ job ∷ queue
    → Posted env (carried env job m) (begun queue m) posted
    → Inv env 0 []
        (record posted { fd_queue_size = posted.fd_queue_size - 1; fd_space_wakeups = wakeups })
carried-Inv env job queue m posted wakeups rising v e p = record {
  permits = p.permits_same ∙ v.permits ∙ sym (ap (λ (c : FilerCtx). c.num_available) p.ctx_same);
  slots = rw (p.ctx_same, p.flight_same) v.slots;
  sized = rw (p.size_same, p.requests_same) v.sized;
  fd_sized = rw (p.fd_size_same, p.fd_same) (omega (arith, v.fd_sized, ap length e));
  queued =
      rw (p.requests_same, p.ticks)
        (Queued-mono _ _ m.request_queue (later_le env m.world.ticks rising) v.queued);
  fd_queued =
      rw (p.fd_same, p.ticks)
        (FdQueued-mono _ _ queue (later_le env m.world.ticks rising)
          (subst (All (FdQueued (now_at env m))) e v.fd_queued).1);
  flying = rw p.flight_same v.flying;
  held_flying = tt;
  apart = λ a.
      rw (p.flight_same, p.requests_same, p.fd_same, p.freed)
        (ground (arith, v.apart a, ap (occurs a) e));
  counted =
      rw (p.queued_same, p.completed, p.flight_same, p.requests_same, p.fd_same)
        (omega (arith, v.counted, ap length e));
}

pub carried-Ripe :
    (env : Env) (job : FilerJob) (m : Machine)
    → FdQueued (now_at env m) job
    → Ripe (carried env job m)
carried-Ripe env job m q =
    ((λ r. ground (arith, q.0), λ r. ground (arith, q.0), q.1), omega (arith, q.4), q.3)

pub carried-Carried :
    (env : Env) (job : FilerJob) (queue : List FilerJob) (m posted : Machine) (wakeups : ℕ)
    → IsRising env
    → Inv env 0 [] m
    → m.fd_queue ≡ job ∷ queue
    → Posted env (carried env job m) (begun queue m) posted
    → Carried env job queue m
        (record posted { fd_queue_size = posted.fd_queue_size - 1; fd_space_wakeups = wakeups })
carried-Carried env job queue m posted wakeups rising v e p = record {
  accounts = carried-Inv env job queue m posted wakeups rising v e p;
  notified = p.notified;
  left = p.fd_same;
  permits_same = p.fd_permits_same;
  ctx_same = p.ctx_same;
  state_same = p.state_same;
  completed = p.completed;
}

pub consume-Carried :
    (env : Env) (job : FilerJob) (queue : List FilerJob) (m : Machine)
    → IsRising env
    → Inv env 0 [] m
    → m.fd_queue ≡ job ∷ queue
    → Returns (consume env (job ∷ queue) m) λ r. (r.0 ≡ true) × Carried env job queue m r.1
unfolding consume
consume-Carried env job queue m rising v e =
    let q = (subst (All (FdQueued (now_at env m))) e v.fd_queued).0 in
    let fresh : count job.addr m.world.freed ≡ 0 =
      ground (arith, v.apart job.addr, ap (occurs job.addr) e) in
    rw (carry_out_lem env job queue m q.0 q.2 q.3) (
      Returns->>= (do_post_processing_of_job env (carried env job m) (begun queue m)) _
        (Posted env (carried env job m) (begun queue m)) _
        (do_post_processing_of_job-Posted env (carried env job m) (begun queue m)
          (carried-Ripe env job m q) fresh)
        λ posted p.
          rw
            (lt→ltb 0 posted.fd_queue_size (omega (arith, p.fd_size_same, v.fd_sized, ap length e)))
            (elim (Bool-cases
              (leb posted.config.max_request_queue_size (posted.fd_queue_size - 1))) [
                | inl room ↦ rw room (
                  refl,
                  carried-Carried env job queue m posted (suc posted.fd_space_wakeups) rising v e p,
                )
                | inr over ↦ rw over (
                  refl,
                  carried-Carried env job queue m posted posted.fd_space_wakeups rising v e p,
                )
              ]))
