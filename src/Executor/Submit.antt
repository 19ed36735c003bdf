-- ===== src/Executor/Submit.antt =====
-- `IOExecutor::submitTask` in src/IOExecutor.cpp.
-- A blocking call on a full queue pauses on a condition variable; when it is woken it goes on with
-- `enqueue_fd` or `enqueue_request`, without another look at the queue. The lock-free queues grow as
-- needed, so a push succeeds.
pub mod Pushing
pub mod Intake
pub mod Outcomes
use gobjfs.Base.{
  ℕ, suc, ◌+◌, ℤ, neg, Bool, true, false, some, List, [], ◌∷◌, ◌++◌, ltb, leb, ◌||◌, ◌&&◌,
  if◌then◌else◌, u32, u64, eagain, Outcome, done, ◌>>=◌,
}
use gobjfs.Util.Align.{is_direct_io_aligned}
use gobjfs.Util.Stats.{assign_max}
use gobjfs.Job.{FilerJob, FileOp, set_submit_time, is_read_or_write}
use gobjfs.Executor.{Machine, State, Env}
use gobjfs.Executor.Requests.{process_request_queue}

-- How a call ends: with 0, with an error code and the job as it was left, or asleep.
pub data Submission : Type 0 where
  accepted : Submission
  rejected : ℤ → FilerJob → Submission
  waits_for_fd_space waits_for_request_space : FilerJob → Submission

abbrev pub is_running : State → Bool
is_running State.running = true
is_running _ = false

abbrev is_write : FileOp → Bool
is_write FileOp.write = true
is_write _ = false

-- An unaligned write takes the slow path, and blocks.
abbrev pub reroutes : FilerJob → Bool
reroutes job = if is_direct_io_aligned job.user_size then false else is_write job.op

abbrev pub reroute : FilerJob → FilerJob
reroute job = if reroutes job then record job { op = FileOp.non_aligned_write } else job

abbrev pub is_fd_op : FileOp → Bool
is_fd_op FileOp.delete = true
is_fd_op FileOp.sync = true
is_fd_op FileOp.non_aligned_write = true
is_fd_op _ = false

abbrev pub count_full : Machine → Machine
count_full m = record m {
  stats = record (m.stats) { request_queue_full = u32 (m.stats.request_queue_full + 1) };
}

module _ (env : Env) where
  -- The submit time is set, and the job is counted as queued.
  abbrev pub stamp : FilerJob → Machine → Outcome (FilerJob × Machine)
  stamp job m = do
    t ← set_submit_time (env.clock m.world.ticks) job.timing
    done (
      record job { timing = t; executor = some m.core },
      record m {
        stats = record (m.stats) { num_queued = u64 (m.stats.num_queued + 1) };
        world = record (m.world) { ticks = m.world.ticks + 1 };
      },
    )

  unfoldable pub enqueue_fd : FilerJob → Machine → Outcome Machine
  unfolding set_submit_time assign_max
  enqueue_fd job m = do
    stamped ← stamp job m
    let n = stamped.1
    let size = n.fd_queue_size + 1
    done (record n {
      fd_queue_size = size;
      stats = record (n.stats) { max_fd_queue_size = assign_max n.stats.max_fd_queue_size size };
      fd_queue = n.fd_queue ++ stamped.0 ∷ [];
      fd_queue_cond = n.fd_queue_cond + 1;
    })

  -- The job is in the queue; the caller, if there is no submitter thread, then serves the queue.
  unfoldable pub push_request : FilerJob → Machine → Outcome Machine
  unfolding set_submit_time assign_max
  push_request job m = do
    let size = m.request_queue_size + 1
    stamped ← stamp job (record m {
      request_queue_size = size;
      stats = record (m.stats) {
        max_request_queue_size = assign_max m.stats.max_request_queue_size size;
      };
    })
    done (record (stamped.1) { request_queue = stamped.1.request_queue ++ stamped.0 ∷ [] })

  unfoldable pub serve : Machine → Outcome Machine
  serve n = process_request_queue env n >>= λ served. done served.1

  unfoldable pub enqueue_request : FilerJob → Machine → Outcome Machine
  unfolding serve
  enqueue_request job m = do
    n ← push_request job m
    if n.config.no_submitter_thread && leb n.min_submit_size n.request_queue_size
        then serve n
        else done n

  -- `ret = job->retcode_ = -EAGAIN`
  abbrev reject_full : FilerJob → Submission
  reject_full job = rejected (neg eagain) (record job { retcode = neg eagain })

  accept_by : Outcome Machine → Outcome (Submission × Machine)
  accept_by o = o >>= λ m. done (accepted, m)

  pub submit_fd : FilerJob → Bool → Machine → Outcome (Submission × Machine)
  unfolding accept_by
  submit_fd job blocking m =
      if ltb m.config.max_request_queue_size m.fd_queue_size
      then done (if blocking then (waits_for_fd_space job, count_full m) else (reject_full job, m))
      else accept_by (enqueue_fd job m)

  pub submit_request : FilerJob → Bool → Machine → Outcome (Submission × Machine)
  unfolding accept_by
  submit_request job blocking m =
      if ltb m.config.max_request_queue_size m.request_queue_size
      then done
          (if blocking then (waits_for_request_space job, count_full m) else (reject_full job, m))
      else accept_by (enqueue_request job m)

  pub dispatch : FilerJob → Bool → Machine → Outcome (Submission × Machine)
  unfolding submit_fd submit_request
  dispatch job blocking m =
      if is_fd_op job.op
      then submit_fd job blocking m
      else (if is_read_or_write job.op
          then submit_request job blocking m
          else done (rejected (neg eagain) job, m))

  unfoldable pub submit_task : FilerJob → Bool → Machine → Outcome (Submission × Machine)
  unfolding dispatch
  submit_task job blocking m =
      if is_running m.state
      then dispatch (reroute job) (reroutes job || blocking) m
      else done (rejected (neg eagain) job, m)
