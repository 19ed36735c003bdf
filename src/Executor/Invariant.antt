-- ===== src/Executor/Invariant.antt =====
-- The accounts of an executor: every slot, permit and job is somewhere, and nowhere twice.
-- `held` is the batch that the running thread has in its hands, and `owed` the number of slots that
-- it has taken and not given back; between two calls both are empty.
pub mod Posting
use gobjfs.Base.{
  ℕ, suc, ◌+◌, ◌≤◌, ◌<◌, ◌≡◌, refl, Bool, true, false, List, [], ◌∷◌, ◌++◌, length, All, ◌==◌, leb,
  if◌then◌else◌, u64, arith, subst,
}
use gobjfs.Util.Align.{is_direct_io_aligned}
use gobjfs.Job.{FilerJob, FileOp, is_read_or_write}
use gobjfs.Executor.{Machine, Env, Config, new_executor}
use gobjfs.Executor.Post.{count}

-- How often the job at an address is in a list.
abbrev pub occurs : ℕ → List FilerJob → ℕ
occurs a [] = 0
occurs a (job ∷ jobs) = (if job.addr == a then 1 else 0) + occurs a jobs

abbrev pub addrs : List FilerJob → List ℕ
addrs [] = []
addrs (job ∷ jobs) = job.addr ∷ addrs jobs

pub addrs-append : (xs ys : List FilerJob) → addrs (xs ++ ys) ≡ addrs xs ++ addrs ys
addrs-append [] ys = refl
addrs-append (x ∷ xs) ys = rw (addrs-append xs ys)

pub occurs-append :
    (a : ℕ) (xs ys : List FilerJob) → occurs a (xs ++ ys) ≡ occurs a xs + occurs a ys
occurs-append a [] ys = omega arith
occurs-append a (x ∷ xs) ys = omega (arith, occurs-append a xs ys)

-- A read or write that waits in the request queue at the time `now`.
abbrev pub Queued : ℕ → FilerJob → Type 0
Queued now job =
    (is_read_or_write job.op ≡ true)
    × (0 < job.size)
    × (job.timing.wait_time ≡ 0)
    × (job.timing.service_time ≡ 0)
    × (job.timing.begin < now)

-- One that was prepared for the kernel.
abbrev pub Flying : FilerJob → Type 0
Flying job =
    (is_read_or_write job.op ≡ true)
    × (0 < job.size)
    × (0 < job.timing.wait_time)
    × (job.timing.service_time ≡ 0)

abbrev pub is_fd_job : FileOp → Bool
is_fd_job FileOp.delete = true
is_fd_job FileOp.non_aligned_write = true
is_fd_job _ = false

-- A delete or an unaligned write that waits in the fd queue.
abbrev pub FdQueued : ℕ → FilerJob → Type 0
FdQueued now job =
    (is_fd_job job.op ≡ true)
    × (job.op ≡ FileOp.non_aligned_write → 0 < job.size)
    × (job.timing.wait_time ≡ 0)
    × (job.timing.service_time ≡ 0)
    × (job.timing.begin < now)

-- A job that the executor frees when it is finished.
abbrev pub IsOwned : FilerJob → Type 0
IsOwned job = job.can_be_freed ≡ true

-- The clock rises from one reading to the next.
abbrev pub IsRising : Env → Type 0
IsRising env = (i : ℕ) → env.clock i < env.clock (i + 1)

abbrev pub now_at : Env → Machine → ℕ
now_at env m = env.clock m.world.ticks

pub record Inv (env : Env) (owed : ℕ) (held : List FilerJob) (m : Machine) : Type 0 where
  pub permits : m.ctx_cond ≡ m.ctx.num_available
  pub slots : m.ctx.num_available + owed + length m.in_flight ≡ m.ctx.io_queue_depth
  pub sized : m.request_queue_size ≡ length m.request_queue
  pub fd_sized : m.fd_queue_size ≡ length m.fd_queue
  pub queued : All (Queued (now_at env m)) m.request_queue
  pub fd_queued : All (FdQueued (now_at env m)) m.fd_queue
  pub flying : All Flying m.in_flight
  pub held_flying : All Flying held
  pub apart :
      (a : ℕ)
      → occurs a held
          + occurs a m.in_flight
          + occurs a m.request_queue
          + occurs a m.fd_queue
          + count a m.world.freed
        ≤ 1
  pub counted :
      m.stats.num_queued
      ≡ u64 (
          m.stats.num_completed
          + length held
          + length m.in_flight
          + length m.request_queue
          + length m.fd_queue)

pub Queued-mono :
    (now later : ℕ) (jobs : List FilerJob)
    → now ≤ later
    → All (Queued now) jobs
    → All (Queued later) jobs
Queued-mono now later [] h q = tt
Queued-mono now later (job ∷ jobs) h q =
    ((q.0.0, q.0.1, q.0.2, q.0.3, omega arith), Queued-mono now later jobs h q.1)

pub FdQueued-mono :
    (now later : ℕ) (jobs : List FilerJob)
    → now ≤ later
    → All (FdQueued now) jobs
    → All (FdQueued later) jobs
FdQueued-mono now later [] h q = tt
FdQueued-mono now later (job ∷ jobs) h q =
    ((q.0.0, q.0.1, q.0.2, q.0.3, omega arith), FdQueued-mono now later jobs h q.1)

-- A new executor has all its slots, and no jobs.
pub new_executor-Inv :
    (env : Env) (core : _) (config : Config) → Inv env 0 [] (new_executor core config)
unfolding new_executor
new_executor-Inv env core config = record {
  permits = refl;
  slots = omega arith;
  sized = refl;
  fd_sized = refl;
  queued = tt;
  fd_queued = tt;
  flying = tt;
  held_flying = tt;
  apart = λ a. omega arith;
  counted = refl;
}

-- Slots that are owed are given back, with as many permits.
unfoldable pub give_back : ℕ → Machine → Machine
give_back n m = record m {
  ctx = record (m.ctx) { num_available = m.ctx.num_available + n };
  ctx_cond = m.ctx_cond + n;
}

pub give_back-Inv :
    (env : Env) (owed n : ℕ) (held : List FilerJob) (m : Machine)
    → Inv env (owed + n) held m
    → Inv env owed held (give_back n m)
unfolding give_back
give_back-Inv env owed n held m v = record {
  permits = omega (arith, v.permits);
  slots = omega (arith, v.slots);
  sized = v.sized;
  fd_sized = v.fd_sized;
  queued = v.queued;
  fd_queued = v.fd_queued;
  flying = v.flying;
  held_flying = v.held_flying;
  apart = v.apart;
  counted = v.counted;
}

-- As much room is left in the context as is owed.
pub room_for_owed :
    (env : Env) (owed : ℕ) (held : List FilerJob) (m : Machine)
    → Inv env owed held m
    → leb (m.ctx.num_available + owed) m.ctx.io_queue_depth ≡ true
room_for_owed env owed held m v = ground (arith, v.slots)

pub give_back_all :
    (env : Env) (n : ℕ) (held : List FilerJob) (m : Machine)
    → Inv env n held m
    → Inv env 0 held (give_back n m)
give_back_all env n held m v =
    give_back-Inv env 0 n held m (subst (λ k. Inv env k held m) (omega arith) v)
