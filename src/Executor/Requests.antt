-- ===== src/Executor/Requests.antt =====
-- `IOExecutor::ProcessRequestQueue` in src/IOExecutor.cpp: fill the free slots of the I/O context
-- from the request queue, hand the batch to the kernel in at most five tries, and return what the
-- kernel did not take as failed.
pub mod Effects
pub mod Failing
pub mod Launching
pub mod Accounting
pub mod Faults
pub mod Waits
use gobjfs.Base.{
  ℕ, zero, suc, ◌+◌, ◌-◌, ℤ, neg, Bool, true, false, List, [], ◌∷◌, ◌++◌, length, take, drop, ◌==◌,
  ltb, leb, ◌||◌, if◌then◌else◌, u64, eintr, eagain, einval, Outcome, done, fault, Fault, ◌>>=◌,
  ◌>>◌, assert, demand,
}
use gobjfs.Job.{FilerJob, prepare_callblock}
use gobjfs.Executor.{
  Machine, Env, Submitted, took, failed, is_empty, increment_num_available, decrement_num_available,
  decrement_size, pause,
}
use gobjfs.Executor.Post.{do_post_processing_of_job}

abbrev pub is_retry : ℕ → Bool
is_retry e = e == eintr || e == eagain

module _ (env : Env) where
  -- `consume_one` and what follows it: the job's control block is prepared, and a slot is taken.
  unfoldable pub take_slot : FilerJob → Machine → Outcome (FilerJob × Machine)
  take_slot job m = do
    prepared ← prepare_callblock (env.clock m.world.ticks) job
    ctx ← decrement_num_available 1 m.ctx
    permits ← pause m.ctx_cond
    size ← decrement_size m.request_queue_size
    done (
      prepared.1,
      record m {
        ctx = ctx;
        ctx_cond = permits;
        request_queue_size = size;
        world = record (m.world) { ticks = m.world.ticks + 1 };
      },
    )

  -- The loop that fills the batch. It has the queue as its argument, and puts back what it leaves.
  unfoldable pub collect :
      List FilerJob → List FilerJob → Machine → Outcome (List FilerJob × Machine)
  collect [] batch m = done (batch, record m { request_queue = [] })
  collect (job ∷ queue) batch m =
      let rest : Outcome (List FilerJob × Machine) = (do
        taken ← take_slot job m
        collect queue (batch ++ taken.0 ∷ []) taken.1) in
      if is_empty m.ctx then done (batch, record m { request_queue = job ∷ queue }) else rest

  -- `incrementNumAvailable(n); ctxCond_.wakeup(n);`
  pub return_slots : ℕ → Machine → Outcome Machine
  return_slots n m = do
    ctx ← increment_num_available n m.ctx
    done (record m { ctx = ctx; ctx_cond = m.ctx_cond + n })

  -- Each job of the list gets the return code and is finished.
  pub fail_all : ℤ → List FilerJob → Machine → Outcome Machine
  fail_all code [] m = done m
  fail_all code (job ∷ jobs) m = do
    m' ← do_post_processing_of_job env (record job { retcode = code }) m
    fail_all code jobs m'

  -- A call that failed for good: the jobs are finished and their slots given back. They remain in
  -- the batch, as in the source.
  pub abort : ℕ → List FilerJob → Machine → Outcome (List FilerJob × Machine)
  abort e remaining m = do
    aborted ← fail_all (neg e) remaining m
    m' ← return_slots (length remaining) aborted
    done (remaining, m')

  -- The kernel took `n` jobs: where some remain, `n` slots are given back. A kernel that claims more
  -- than it was given fails `assert(numRemaining == 0)`.
  unfoldable pub accept : ℕ → List FilerJob → Machine → Outcome Machine
  accept n remaining m =
      let m' = record m {
        stats = record (m.stats) { num_submitted = u64 (m.stats.num_submitted + n) };
        in_flight = m.in_flight ++ take n remaining;
      } in
      assert (leb n (length remaining))
      >> (if ltb n (length remaining) then return_slots n m' else done m')

  -- `while (numTries--)`, with what remains of the batch.
  unfoldable pub submit_rounds : ℕ → List FilerJob → Machine → Outcome (List FilerJob × Machine)
  submit_rounds zero remaining m = done (remaining, m)
  submit_rounds (suc tries) remaining m =
      assert (ltb 0 (length remaining)) >> elim (env.io_submit tries remaining) [
        | failed e ↦ elim (is_retry e) [
          | true ↦ submit_rounds tries remaining m
          | false ↦ abort e remaining m
        ]
        | took n ↦ accept n remaining m >>= λ m'. elim (ltb n (length remaining)) [
          | true ↦ submit_rounds tries (drop n remaining) m'
          | false ↦ done ([], m')
        ]
      ]

  -- What could not be submitted is returned as failed.
  unfoldable pub fail_rest : List FilerJob → Machine → Outcome Machine
  fail_rest [] m = done m
  fail_rest (job ∷ jobs) m = do
    m' ← fail_all (neg einval) (job ∷ jobs) m
    return_slots (suc (length jobs)) m'

  unfoldable pub submit_batch : List FilerJob → Machine → Outcome (ℕ × Machine)
  submit_batch [] m = done (0, m)
  submit_batch (job ∷ jobs) m = do
    answer ← submit_rounds 5 (job ∷ jobs) m
    m' ← fail_rest answer.0 answer.1
    done (
      suc (length jobs) - length answer.0,
      if ltb m'.request_queue_size m'.config.max_request_queue_size
          then record m' { request_space_wakeups = suc m'.request_space_wakeups }
          else m',
    )

  -- The first two lines wait until a slot is available, and give the permit back.
  unfoldable pub process_request_queue : Machine → Outcome (ℕ × Machine)
  process_request_queue m = do
    permits ← pause m.ctx_cond
    collected ← collect m.request_queue [] (record m { ctx_cond = permits + 1 })
    submit_batch collected.0 collected.1
