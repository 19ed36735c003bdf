-- ===== src/Executor/Submit/Intake.antt =====
-- What `submitTask` does with a job, on every branch.
use gobjfs.Base.{
  ◌+◌, ◌<◌, ◌≡◌, refl, neg, [], arith, Returns, Returns->>=, true, false, ◌∙◌, ◌⊎◌, inl, inr, Bool,
  Bool-cases, ltb, if◌then◌else◌, leb, ◌||◌, ◌&&◌, eagain, u64,
}
use gobjfs.Job.{FilerJob, FileOp, is_read_or_write}
use gobjfs.Executor.{Machine, Env}
use gobjfs.Executor.Invariant.{Inv, IsRising, is_fd_job}
use gobjfs.Executor.Requests.{process_request_queue}
use gobjfs.Executor.Requests.Accounting.{process_request_queue-QueueServed}
use gobjfs.Executor.Requests.Launching.{IsSteady}
use gobjfs.Executor.Submit.{
  Submission, accepted, rejected, waits_for_fd_space, waits_for_request_space, is_running, reroute,
  reroutes, is_fd_op, serve, enqueue_request, count_full,
}
use gobjfs.Executor.Submit.Pushing.{IsNew, pushed, push_request_lem, pushed-Inv}

-- The job was taken: it is counted, and the accounts are in order with it.
pub record Taken (env : Env) (m m' : Machine) : Type 0 where
  pub accounts : Inv env 0 [] m'
  pub counted : m'.stats.num_queued ≡ u64 (m.stats.num_queued + 1)

-- The operations that the two queues serve.
abbrev pub is_served : FileOp → Bool
is_served op = is_read_or_write op || is_fd_job op

-- The queue of the job is over its limit.
abbrev pub is_over : FilerJob → Machine → Bool
is_over job m =
    if is_read_or_write job.op
    then ltb m.config.max_request_queue_size m.request_queue_size
    else ltb m.config.max_request_queue_size m.fd_queue_size

-- What each answer means, for a job with the operation that it is given and a call that blocks or not.
abbrev pub Answers : Env → FilerJob → Bool → Machine → Submission × Machine → Type 0
Answers env job blocks m (accepted, m') =
    Taken env m m' × (is_running m.state ≡ true) × (is_over job m ≡ false)
Answers env job blocks m (rejected code j, m') =
    (code ≡ neg eagain)
    × (m' ≡ m)
    × ((is_running m.state ≡ false)
        ⊎ (is_served job.op ≡ false)
        ⊎ ((blocks ≡ false) × (is_over job m ≡ true)))
Answers env job blocks m (waits_for_fd_space j, m') =
    (blocks ≡ true)
    × (m' ≡ count_full m)
    × (is_running m.state ≡ true)
    × (is_fd_job job.op ≡ true)
    × (is_over job m ≡ true)
Answers env job blocks m (waits_for_request_space j, m') =
    (blocks ≡ true)
    × (m' ≡ count_full m)
    × (is_running m.state ≡ true)
    × (is_read_or_write job.op ≡ true)
    × (is_over job m ≡ true)

-- An unaligned write has another operation, and always blocks.
abbrev pub Verdict : Env → FilerJob → Bool → Machine → Submission × Machine → Type 0
Verdict env job blocking m = Answers env (reroute job) (reroutes job || blocking) m

serve-Taken :
    (env : Env) (m n : Machine)
    → IsRising env
    → IsSteady env
    → Inv env 0 [] n
    → 0 < n.ctx.num_available
    → n.stats.num_queued ≡ u64 (m.stats.num_queued + 1)
    → Returns (serve env n) (Taken env m)
unfolding serve
serve-Taken env m n rising steady v free c =
    Returns->>= (process_request_queue env n) _ _ _
      (process_request_queue-QueueServed env n rising steady v free)
      λ r q. record { accounts = q.accounts; counted = q.queued_same ∙ c }

pub enqueue_request-Taken :
    (env : Env) (job : FilerJob) (m : Machine)
    → IsRising env
    → IsSteady env
    → Inv env 0 [] m
    → 0 < m.ctx.num_available
    → IsNew job m
    → is_read_or_write job.op ≡ true
    → Returns (enqueue_request env job m) (Taken env m)
unfolding enqueue_request
enqueue_request-Taken env job m rising steady v free new rw_op =
    let n = pushed env job m in
    let w = pushed-Inv env job m rising v new rw_op in
    rw (push_request_lem env job m new)
      (elim (Bool-cases
        (n.config.no_submitter_thread && leb n.min_submit_size n.request_queue_size)) [
          | inl now ↦ rw now (serve-Taken env m n rising steady w free refl)
          | inr later ↦ rw later (record { accounts = w; counted = refl })
        ])

pub read_or_write_not_fd : (op : FileOp) → is_read_or_write op ≡ true → is_fd_op op ≡ false
read_or_write_not_fd op h = ground arith

pub fd_job_is_fd_op : (op : FileOp) → is_fd_job op ≡ true → is_fd_op op ≡ true
fd_job_is_fd_op op h = ground arith

pub reroute-IsNew : (job : FilerJob) (m : Machine) → IsNew job m → IsNew (reroute job) m
reroute-IsNew job m new = elim (Bool-cases (reroutes job)) [
  | inl other ↦ rw other (record {
    sized = new.sized;
    not_waited = new.not_waited;
    not_served = new.not_served;
    fresh = new.fresh;
  })
  | inr same ↦ rw same new
]

pub reroute_served :
    (job : FilerJob)
    → (is_read_or_write job.op || is_fd_job job.op) ≡ true
    → (is_read_or_write (reroute job).op || is_fd_job (reroute job).op) ≡ true
reroute_served job h = ground arith

pub reroute_straight :
    (job : FilerJob) → is_read_or_write (reroute job).op ≡ true → reroutes job ≡ false
reroute_straight job h = ground arith

abbrev pub is_sync : FileOp → Bool
is_sync FileOp.sync = true
is_sync _ = false
