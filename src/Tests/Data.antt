-- ===== src/Tests/Data.antt =====
-- An environment, some jobs and some executors.
use gobjfs.Base.{
  ℕ, ◌+◌, ◌≡◌, refl, pos, true, false, List, [], ◌∷◌, length, arith, inr, enomem, none,
}
use gobjfs.Job.{FilerJob, FileOp}
use gobjfs.Executor.{Env, Machine, Config, State, took, failed, new_executor, no_statistics}
use gobjfs.Executor.Invariant.{Inv, IsRising}
use gobjfs.Executor.Requests.Launching.{IsSteady}

abbrev pub calm : Env
calm = record {
  clock = λ i. i + 1;
  io_submit = λ tries jobs. took (length jobs);
  unlink = λ name. 0;
  pwrite = λ job. (pos job.user_size, 0);
}

pub calm-IsRising : IsRising calm
calm-IsRising i = omega arith

pub calm-IsSteady : IsSteady calm
calm-IsSteady tries jobs = inr refl

-- A kernel that is out of memory.
abbrev pub starved : Env
starved = record calm { io_submit = λ tries jobs. failed enomem }

pub starved-IsRising : IsRising starved
starved-IsRising i = omega arith

abbrev pub job_at : ℕ → FileOp → ℕ → FilerJob
job_at addr op size = record {
  addr = addr;
  op = op;
  offset = 0;
  size = size;
  user_size = size;
  retcode = pos 0;
  buffer = 4096;
  can_be_freed = true;
  executor = none;
  fd = pos 7;
  close_file_handle = false;
  file_name = [];
  completion_fd = pos 9;
  completion_id = addr;
  timing = record { wait_time = 0; service_time = 0; begin = 0 };
}

abbrev pub read_job : FilerJob
read_job = job_at 1 FileOp.read 512

abbrev pub delete_job : FilerJob
delete_job = job_at 2 FileOp.delete 0

abbrev pub config : Config
config = record {
  no_submitter_thread = true;
  cpu_cores = [];
  queue_depth = 2;
  min_submit_size = 16;
  max_request_queue_size = 1;
  max_fd_queue_size = 2;
}

abbrev pub fresh : Machine
fresh = new_executor (pos 0) config

-- One read in the request queue and one delete in the fd queue.
abbrev pub loaded : Machine
loaded = record {
  config = config;
  state = State.running;
  core = pos 0;
  stats = record no_statistics { num_queued = 2 };
  ctx = record { io_queue_depth = 2; num_available = 2 };
  ctx_cond = 2;
  min_submit_size = 1;
  request_queue = read_job ∷ [];
  request_queue_size = 1;
  request_space_wakeups = 0;
  fd_queue = delete_job ∷ [];
  fd_queue_size = 1;
  fd_queue_cond = 1;
  fd_space_wakeups = 0;
  in_flight = [];
  world = record { notified = []; closed = []; freed = []; ticks = 3 };
}

pub loaded-Inv : (env : Env) → env.clock 3 ≡ 4 → Inv env 0 [] loaded
loaded-Inv env now = record {
  permits = refl;
  slots = omega arith;
  sized = refl;
  fd_sized = refl;
  queued = ((refl, omega arith, refl, refl, omega (arith, now)), tt);
  fd_queued = ((refl, λ e. cc, refl, refl, omega (arith, now)), tt);
  flying = tt;
  held_flying = tt;
  apart = λ a. ground arith;
  counted = refl;
}

abbrev pub flying_job : ℕ → FilerJob
flying_job addr = record (job_at addr FileOp.read 512) {
  timing = record { wait_time = 1; service_time = 0; begin = 2 };
}

-- Every slot is in flight.
abbrev pub full : Machine
full = record loaded {
  stats = record no_statistics { num_queued = 2 };
  ctx = record { io_queue_depth = 2; num_available = 0 };
  ctx_cond = 0;
  request_queue = [];
  request_queue_size = 0;
  fd_queue = [];
  fd_queue_size = 0;
  in_flight = flying_job 4 ∷ flying_job 5 ∷ [];
}

pub full-Inv : (env : Env) → Inv env 0 [] full
full-Inv env = record {
  permits = refl;
  slots = omega arith;
  sized = refl;
  fd_sized = refl;
  queued = tt;
  fd_queued = tt;
  flying = ((refl, omega arith, omega arith, refl), ((refl, omega arith, omega arith, refl), tt));
  held_flying = tt;
  apart = λ a. ground arith;
  counted = refl;
}

-- A batch of two that the executor holds.
abbrev pub batch : List FilerJob
batch = flying_job 4 ∷ flying_job 5 ∷ []

abbrev pub holding : Machine
holding = record full { in_flight = [] }

pub holding-Inv : (env : Env) → Inv env 2 batch holding
holding-Inv env = record {
  permits = refl;
  slots = omega arith;
  sized = refl;
  fd_sized = refl;
  queued = tt;
  fd_queued = tt;
  flying = tt;
  held_flying =
      ((refl, omega arith, omega arith, refl), ((refl, omega arith, omega arith, refl), tt));
  apart = λ a. ground arith;
  counted = refl;
}
