-- ===== src/Executor/Invariant/Posting.antt =====
-- A job that the running thread holds is finished: the accounts go on without it.
use gobjfs.Base.{
  ℕ, ◌+◌, ◌≤◌, ◌<◌, ◌≡◌, refl, List, ◌∷◌, u64, arith, Returns, Returns-done, ◌-◌, ◌∙◌, sym, ap,
  true, false, ◌==◌, if◌then◌else◌,
}
use gobjfs.Job.{FilerJob, FileOp}
use gobjfs.Executor.{Machine, Env, Statistics, FilerCtx}
use gobjfs.Executor.Post.{do_post_processing_of_job, increment_ops, count}
use gobjfs.Executor.Invariant.{Inv, Flying, IsRising, Queued-mono, FdQueued-mono}

-- What finishing a job does to the rest of the executor: it is notified once, with its return code,
-- counted as completed, freed if the executor owns it, and the rest is as it was.
pub record Posted (env : Env) (job : FilerJob) (m m' : Machine) : Type 0 where
  pub notified :
      m'.world.notified
      ≡ record {
        completion_fd = job.completion_fd;
        completion_id = job.completion_id;
        error_code = job.retcode;
      }
        ∷ m.world.notified
  pub freed :
      m'.world.freed ≡ (if job.can_be_freed then job.addr ∷ m.world.freed else m.world.freed)
  pub completed : m'.stats.num_completed ≡ u64 (m.stats.num_completed + 1)
  pub queued_same : m'.stats.num_queued ≡ m.stats.num_queued
  pub ticks : m'.world.ticks ≡ m.world.ticks + 1
  pub ctx_same : m'.ctx ≡ m.ctx
  pub permits_same : m'.ctx_cond ≡ m.ctx_cond
  pub requests_same : m'.request_queue ≡ m.request_queue
  pub size_same : m'.request_queue_size ≡ m.request_queue_size
  pub fd_same : m'.fd_queue ≡ m.fd_queue
  pub fd_size_same : m'.fd_queue_size ≡ m.fd_queue_size
  pub fd_permits_same : m'.fd_queue_cond ≡ m.fd_queue_cond
  pub flight_same : m'.in_flight ≡ m.in_flight
  pub state_same : m'.state ≡ m.state
  pub config_same : m'.config ≡ m.config

-- A job is ripe when it was begun, and its memory is there.
abbrev pub IsSized : FilerJob → Type 0
IsSized job =
    (job.op ≡ FileOp.read → 0 < job.size)
    × (job.op ≡ FileOp.write → 0 < job.size)
    × (job.op ≡ FileOp.non_aligned_write → 0 < job.size)

abbrev pub Ripe : FilerJob → Type 0
Ripe job = IsSized job × (0 < job.timing.wait_time) × (job.timing.service_time ≡ 0)

pub Flying-Ripe : (job : FilerJob) → Flying job → Ripe job
Flying-Ripe job f = ((λ _. f.1, λ _. f.1, λ _. f.1), f.2, f.3)

==-eq : {a b : ℕ} → a ≡ b → (a == b) ≡ true
==-eq e = ground arith

==-zero : {a : ℕ} → 0 < a → (a == 0) ≡ false
==-zero h = ground arith

increment_ops-counted :
    (job : FilerJob) (s : Statistics)
    → IsSized job
    → Returns
        (increment_ops job s)
        λ t. (t.num_completed ≡ u64 (s.num_completed + 1)) × (t.num_queued ≡ s.num_queued)
unfolding increment_ops
increment_ops-counted job s r = ground arith

pub do_post_processing_of_job-Posted :
    (env : Env) (job : FilerJob) (m : Machine)
    → Ripe job
    → count job.addr m.world.freed ≡ 0
    → Returns (do_post_processing_of_job env job m) (Posted env job m)
unfolding do_post_processing_of_job
do_post_processing_of_job-Posted env job m r h =
    let timed : FilerJob = record job {
      timing = record (job.timing) { service_time = env.clock m.world.ticks - job.timing.begin };
    } in
    let (t, e, counted) =
      Returns-done (increment_ops timed m.stats)
        (λ t.
          (t.num_completed ≡ u64 (m.stats.num_completed + 1)) × (t.num_queued ≡ m.stats.num_queued))
        (increment_ops-counted timed m.stats r.0) in
    rw (==-eq h) (
      rw (==-zero r.1) (
        rw (==-eq r.2) (
          rw e (record {
            notified = refl;
            freed = refl;
            completed = counted.0;
            queued_same = counted.1;
            ticks = refl;
            ctx_same = refl;
            permits_same = refl;
            requests_same = refl;
            size_same = refl;
            fd_same = refl;
            fd_size_same = refl;
            fd_permits_same = refl;
            flight_same = refl;
            state_same = refl;
            config_same = refl;
          }))))

now-le_later : (env : Env) (i : ℕ) → IsRising env → env.clock i ≤ env.clock (i + 1)
now-le_later env i rising = omega (arith, rising i)

-- The accounts go on without a job that was held and has been finished.
pub Posted-Inv :
    (env : Env) (owed : ℕ) (job done_job : FilerJob) (held : List FilerJob) (m m' : Machine)
    → IsRising env
    → Inv env owed (job ∷ held) m
    → done_job.addr ≡ job.addr
    → Posted env done_job m m'
    → Inv env owed held m'
Posted-Inv env owed job done_job held m m' rising v same p = record {
  permits = p.permits_same ∙ v.permits ∙ sym (ap (λ (c : FilerCtx). c.num_available) p.ctx_same);
  slots = rw (p.ctx_same, p.flight_same) v.slots;
  sized = rw (p.size_same, p.requests_same) v.sized;
  fd_sized = rw (p.fd_size_same, p.fd_same) v.fd_sized;
  queued =
      rw (p.requests_same, p.ticks)
        (Queued-mono _ _ m.request_queue (now-le_later env m.world.ticks rising) v.queued);
  fd_queued =
      rw (p.fd_same, p.ticks)
        (FdQueued-mono _ _ m.fd_queue (now-le_later env m.world.ticks rising) v.fd_queued);
  flying = rw p.flight_same v.flying;
  held_flying = v.held_flying.1;
  apart = λ a. rw (p.flight_same, p.requests_same, p.fd_same, p.freed) (ground (arith, v.apart a));
  counted =
      rw (p.queued_same, p.completed, p.flight_same, p.requests_same, p.fd_same)
        (omega (arith, v.counted));
}
