-- ===== src/Executor.antt =====
-- src/Executor.h, src/IOExecutor.h and the small parts of src/IOExecutor.cpp: the state of an
-- executor, its configuration, its statistics and its asynchronous I/O context.
-- The three threads' functions are in the children. Each is a step on `Machine`: a call that a
-- thread makes while it holds what it needs. `in_flight` is what the kernel has taken and has not
-- given back; `world` is what the calls did outside.
pub mod Post
pub mod Requests
pub mod FdQueue
pub mod Submit
pub mod Submitter
pub mod Completions
pub mod Stop
pub mod Invariant
use gobjfs.Base.{
  ℕ, suc, ◌+◌, ◌-◌, ◌/◌, ℤ, Bool, true, List, [], ◌∷◌, leb, ltb, ◌==◌, not, if◌then◌else◌, u32, u64,
  Outcome, done, Fault, ◌>>=◌, ◌>>◌, assert, demand,
}
use gobjfs.Util.Stats.{assign_max}
use gobjfs.Job.{FilerJob, FileOp, Status, Timing}

pub data State : Type 0 where
  not_started running no_more_intake final_shutdown terminated : State

pub record Config : Type 0 where
  pub no_submitter_thread : Bool
  pub cpu_cores : List ℤ
  pub queue_depth : ℕ
  pub min_submit_size : ℕ
  pub max_request_queue_size : ℕ
  pub max_fd_queue_size : ℕ

unfoldable pub set_derived_param : Config → Config
set_derived_param c = record c {
  max_request_queue_size = c.queue_depth / 5;
  max_fd_queue_size = c.queue_depth;
}

-- `Config(queueDepth)`
unfoldable pub new_config : ℕ → Config
unfolding set_derived_param
new_config queue_depth = set_derived_param (record {
  no_submitter_thread = true;
  cpu_cores = [];
  queue_depth = queue_depth;
  min_submit_size = 16;
  max_request_queue_size = 0;
  max_fd_queue_size = 0;
})

-- The StatsCounter and the Histogram of a time are assigned the same samples: they are kept here as
-- the list of those, newest first.
pub record OpStats : Type 0 where
  pub num_ops : ℕ
  pub num_bytes : ℕ
  pub wait_times : List ℕ
  pub service_times : List ℕ

pub record Statistics : Type 0 where
  pub num_queued : ℕ
  pub num_submitted : ℕ
  pub num_completed : ℕ
  pub write : OpStats
  pub non_aligned_write : OpStats
  pub read : OpStats
  pub delete : OpStats
  pub max_request_queue_size : ℕ
  pub max_fd_queue_size : ℕ
  pub idle_loop : ℕ
  pub num_completion_events : ℕ
  pub request_queue_full : ℕ

abbrev pub no_ops : OpStats
no_ops = record { num_ops = 0; num_bytes = 0; wait_times = []; service_times = [] }

abbrev pub no_statistics : Statistics
no_statistics = record {
  num_queued = 0;
  num_submitted = 0;
  num_completed = 0;
  write = no_ops;
  non_aligned_write = no_ops;
  read = no_ops;
  delete = no_ops;
  max_request_queue_size = 0;
  max_fd_queue_size = 0;
  idle_loop = 0;
  num_completion_events = 0;
  request_queue_full = 0;
}

-- FilerCtx. The counter is signed in the source; here a decrement below 0, which is what its
-- assertion forbids, is the assertion's failure.
pub record FilerCtx : Type 0 where
  pub io_queue_depth : ℕ
  pub num_available : ℕ

-- `FilerCtx::isEmpty`: no slot is available.
abbrev pub is_empty : FilerCtx → Bool
is_empty c = c.num_available == 0

unfoldable pub increment_num_available : ℕ → FilerCtx → Outcome FilerCtx
increment_num_available count c =
    assert (leb (c.num_available + count) c.io_queue_depth)
    >> done (record c { num_available = c.num_available + count })

unfoldable pub decrement_num_available : ℕ → FilerCtx → Outcome FilerCtx
decrement_num_available count c =
    assert (leb count c.num_available)
    >> done (record c { num_available = c.num_available - count })

-- Writes to completion pipes, closed descriptors and freed jobs, newest first; and the number of
-- clock readings so far.
pub record World : Type 0 where
  pub notified : List Status
  pub closed : List ℤ
  pub freed : List ℕ
  pub ticks : ℕ

pub record Machine : Type 0 where
  pub config : Config
  pub state : State
  pub core : ℤ
  pub stats : Statistics
  pub ctx : FilerCtx
  pub ctx_cond : ℕ
  pub min_submit_size : ℕ
  pub request_queue : List FilerJob
  pub request_queue_size : ℕ
  pub request_space_wakeups : ℕ
  pub fd_queue : List FilerJob
  pub fd_queue_size : ℕ
  pub fd_queue_cond : ℕ
  pub fd_space_wakeups : ℕ
  pub in_flight : List FilerJob
  pub world : World

-- What the operating system answers. `io_submit` is asked with the tries that are left and the jobs
-- that remain, and takes a number of them or fails with an errno; `unlink` answers 0 or an errno;
-- `pwrite` answers the number of bytes written, and the errno that is read if that is not the size.
pub data Submitted : Type 0 where
  took : ℕ → Submitted
  failed : ℕ → Submitted

pub record Env : Type 0 where
  pub clock : ℕ → ℕ
  pub io_submit : ℕ → List FilerJob → Submitted
  pub unlink : List ℕ → ℕ
  pub pwrite : FilerJob → ℤ × ℕ

-- A new executor, whose threads have started.
unfoldable pub new_executor : ℤ → Config → Machine
new_executor core config = record {
  config = config;
  state = State.running;
  core = core;
  stats = no_statistics;
  ctx = record { io_queue_depth = config.queue_depth; num_available = config.queue_depth };
  ctx_cond = config.queue_depth;
  min_submit_size = 1;
  request_queue = [];
  request_queue_size = 0;
  request_space_wakeups = 0;
  fd_queue = [];
  fd_queue_size = 0;
  fd_queue_cond = 0;
  fd_space_wakeups = 0;
  in_flight = [];
  world = record { notified = []; closed = []; freed = []; ticks = 0 };
}

-- A size counter is decremented. They are signed in the source; at 0 it would become negative.
abbrev pub decrement_size : ℕ → Outcome ℕ
decrement_size n = demand (ltb 0 n) Fault.negative_size >> done (n - 1)

-- `sem_wait`: at 0 the thread waits for another one to post.
abbrev pub pause : ℕ → Outcome ℕ
pause n = demand (ltb 0 n) Fault.would_block >> done (n - 1)
