-- ===== src/Executor/Submit/Pushing.antt =====
-- A new job at the end of one of the two queues.
use gobjfs.Base.{
  ◌+◌, ◌<◌, ◌≡◌, [], ◌∷◌, ◌++◌, All-append, length-append, arith, done, true, some, u64,
}
use gobjfs.Util.Stats.{assign_max}
use gobjfs.Job.{FilerJob, set_submit_time, is_read_or_write}
use gobjfs.Executor.{Machine, Env}
use gobjfs.Executor.Post.{count}
use gobjfs.Executor.Invariant.{
  Inv, Queued, FdQueued, IsRising, is_fd_job, now_at, occurs, occurs-append, Queued-mono,
  FdQueued-mono,
}
use gobjfs.Executor.Submit.{enqueue_fd, push_request}

-- A job that the executor has not seen: it has no times, a size, and an address of its own.
pub record IsNew (job : FilerJob) (m : Machine) : Type 0 where
  pub sized : 0 < job.size
  pub not_waited : job.timing.wait_time ≡ 0
  pub not_served : job.timing.service_time ≡ 0
  pub fresh :
      occurs job.addr m.in_flight
        + occurs job.addr m.request_queue
        + occurs job.addr m.fd_queue
        + count job.addr m.world.freed
      ≡ 0

abbrev pub stamped : Env → FilerJob → Machine → FilerJob
stamped env job m = record job {
  timing = record (job.timing) { begin = now_at env m };
  executor = some m.core;
}

abbrev pub pushed : Env → FilerJob → Machine → Machine
pushed env job m = record m {
  request_queue_size = m.request_queue_size + 1;
  stats = record (m.stats) {
    num_queued = u64 (m.stats.num_queued + 1);
    max_request_queue_size = assign_max m.stats.max_request_queue_size (m.request_queue_size + 1);
  };
  world = record (m.world) { ticks = m.world.ticks + 1 };
  request_queue = m.request_queue ++ stamped env job m ∷ [];
}

abbrev pub fd_pushed : Env → FilerJob → Machine → Machine
fd_pushed env job m = record m {
  fd_queue_size = m.fd_queue_size + 1;
  stats = record (m.stats) {
    num_queued = u64 (m.stats.num_queued + 1);
    max_fd_queue_size = assign_max m.stats.max_fd_queue_size (m.fd_queue_size + 1);
  };
  world = record (m.world) { ticks = m.world.ticks + 1 };
  fd_queue = m.fd_queue ++ stamped env job m ∷ [];
  fd_queue_cond = m.fd_queue_cond + 1;
}

pub push_request_lem :
    (env : Env) (job : FilerJob) (m : Machine)
    → IsNew job m
    → push_request env job m ≡ done (pushed env job m)
unfolding push_request set_submit_time
push_request_lem env job m new = ground arith

pub enqueue_fd_lem :
    (env : Env) (job : FilerJob) (m : Machine)
    → IsNew job m
    → enqueue_fd env job m ≡ done (fd_pushed env job m)
unfolding enqueue_fd set_submit_time
enqueue_fd_lem env job m new = ground arith

pub pushed-Inv :
    (env : Env) (job : FilerJob) (m : Machine)
    → IsRising env
    → Inv env 0 [] m
    → IsNew job m
    → is_read_or_write job.op ≡ true
    → Inv env 0 [] (pushed env job m)
pushed-Inv env job m rising v new rw_op =
    let later = rising m.world.ticks in
    record {
      permits = v.permits;
      slots = v.slots;
      sized = omega (arith, v.sized, length-append m.request_queue (stamped env job m ∷ []));
      fd_sized = v.fd_sized;
      queued =
          All-append (Queued (env.clock (m.world.ticks + 1))) m.request_queue
            (stamped env job m ∷ [])
            (Queued-mono _ _ m.request_queue (omega (arith, later)) v.queued)
            ((rw_op, new.sized, new.not_waited, new.not_served, later), tt);
      fd_queued = FdQueued-mono _ _ m.fd_queue (omega (arith, later)) v.fd_queued;
      flying = v.flying;
      held_flying = tt;
      apart = λ a.
          ground
            (arith, v.apart a, new.fresh, occurs-append a m.request_queue (stamped env job m ∷ []));
      counted = ground (arith, v.counted, length-append m.request_queue (stamped env job m ∷ []));
    }

pub fd_pushed-Inv :
    (env : Env) (job : FilerJob) (m : Machine)
    → IsRising env
    → Inv env 0 [] m
    → IsNew job m
    → is_fd_job job.op ≡ true
    → Inv env 0 [] (fd_pushed env job m)
fd_pushed-Inv env job m rising v new fd_op =
    let later = rising m.world.ticks in
    record {
      permits = v.permits;
      slots = v.slots;
      sized = v.sized;
      fd_sized = omega (arith, v.fd_sized, length-append m.fd_queue (stamped env job m ∷ []));
      queued = Queued-mono _ _ m.request_queue (omega (arith, later)) v.queued;
      fd_queued =
          All-append (FdQueued (env.clock (m.world.ticks + 1))) m.fd_queue (stamped env job m ∷ [])
            (FdQueued-mono _ _ m.fd_queue (omega (arith, later)) v.fd_queued)
            ((fd_op, λ _. new.sized, new.not_waited, new.not_served, later), tt);
      flying = v.flying;
      held_flying = tt;
      apart = λ a.
          ground (arith, v.apart a, new.fresh, occurs-append a m.fd_queue (stamped env job m ∷ []));
      counted = ground (arith, v.counted, length-append m.fd_queue (stamped env job m ∷ []));
    }
