-- ===== src/Executor/FdQueue.antt =====
-- `IOExecutor::ProcessFdQueue` in src/IOExecutor.cpp: one round of the thread that deletes files and
-- writes unaligned data, one job at a time.
pub mod Carrying
pub mod Rounds
use gobjfs.Base.{
  ℕ, zero, suc, ◌+◌, ℤ, pos, neg, Bool, true, false, List, [], ◌∷◌, leb, if◌then◌else◌, u64, eq_ℤ,
  einval, Outcome, done, ◌>>=◌,
}
use gobjfs.Job.{FilerJob, FileOp, set_wait_time}
use gobjfs.Executor.{Machine, State, Env, decrement_size, pause}
use gobjfs.Executor.Post.{do_post_processing_of_job}

abbrev pub intake_over : State → Bool
intake_over State.no_more_intake = true
intake_over _ = false

module _ (env : Env) where
  -- `setWaitTime` and the count of a job that is carried out.
  abbrev begin_job : FilerJob → Machine → Outcome (FilerJob × Machine)
  begin_job job m = do
    t ← set_wait_time (env.clock m.world.ticks) job.timing
    done (
      record job { timing = t },
      record m {
        stats = record (m.stats) { num_submitted = u64 (m.stats.num_submitted + 1) };
        world = record (m.world) { ticks = m.world.ticks + 1 };
      },
    )

  abbrev pub delete_code : FilerJob → ℤ
  delete_code job = neg (env.unlink job.file_name)

  abbrev pub write_code : FilerJob → ℤ
  write_code job =
      let (written, errno) = env.pwrite job in
      if eq_ℤ written (pos job.user_size) then pos 0 else neg errno

  unfoldable pub carry_out : FileOp → FilerJob → Machine → Outcome (FilerJob × Machine)
  unfolding set_wait_time
  carry_out FileOp.delete job m = do
    begun ← begin_job job m
    done (record (begun.0) { retcode = delete_code job }, begun.1)
  carry_out FileOp.non_aligned_write job m = do
    begun ← begin_job job m
    done (record (begun.0) { retcode = write_code job }, begun.1)
  carry_out _ job m = done (record job { retcode = neg einval }, m)

  -- `consume_one`, and the end of the round.
  unfoldable pub consume : List FilerJob → Machine → Outcome (Bool × Machine)
  consume [] m = done (false, m)
  consume (job ∷ queue) m = do
    carried ← carry_out job.op job (record m { fd_queue = queue })
    posted ← do_post_processing_of_job env carried.0 carried.1
    size ← decrement_size posted.fd_queue_size
    let m' = record posted { fd_queue_size = size }
    done (
      true,
      if leb m'.config.max_request_queue_size size
          then record m' { fd_space_wakeups = suc m'.fd_space_wakeups }
          else m',
    )

  -- One pass of the loop; whether the thread goes on.
  unfoldable pub fd_round : Machine → Outcome (Bool × Machine)
  unfolding consume
  fd_round m = if intake_over m.state then done (false, m) else (do
    permits ← pause m.fd_queue_cond
    consume m.fd_queue (record m { fd_queue_cond = permits }))

  -- The loop, for as many rounds as are given.
  pub fd_rounds : ℕ → Machine → Outcome (Bool × Machine)
  unfolding fd_round
  fd_rounds zero m = done (true, m)
  fd_rounds (suc rounds) m =
      fd_round m >>= λ r. elim (r.0) [ true ↦ fd_rounds rounds r.1 | false ↦ done (false, r.1) ]
