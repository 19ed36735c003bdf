-- ===== src/Executor/Completions.antt =====
-- `IOExecutor::ProcessCallbacks` and `IOExecutor::ProcessCompletions` in src/IOExecutor.cpp.
pub mod Callbacks
pub mod Codes
pub mod Events
use gobjfs.Base.{
  ℕ, suc, ◌+◌, ℤ, pos, negsuc, neg, Bool, true, false, Option, none, some, List, [], ◌∷◌, length,
  ◌==◌, ltb, leb, ◌&&◌, ◌||◌, if◌then◌else◌, u32, eio, Outcome, done, fault, Fault, ◌>>=◌, ◌>>◌,
  assert,
}
use gobjfs.Job.{FilerJob}
use gobjfs.Executor.{Machine, State, Env, increment_num_available}
use gobjfs.Executor.Post.{do_post_processing_of_job}
use gobjfs.Executor.Requests.{process_request_queue}

-- An `io_event`: the job that its `data` points to, and its result.
pub record IoEvent : Type 0 where
  pub addr : ℕ
  pub res : ℤ

-- The kernel gives the job back.
unfoldable pub reap : ℕ → List FilerJob → Option (FilerJob × List FilerJob)
reap a [] = none
reap a (job ∷ jobs) =
    let rest = reap a jobs in
    if job.addr == a
    then some (job, jobs)
    else elim rest [ none ↦ none | some (found, others) ↦ some (found, job ∷ others) ]

-- The return code of a finished job: the kernel's error, or -EIO for a partial transfer.
unfoldable pub completion_code : ℤ → FilerJob → ℤ
completion_code (negsuc n) job = negsuc n
completion_code (pos n) job = if n == job.user_size || n == job.size then pos 0 else neg eio

-- What an epoll event is about.
pub data Event : Type 0 where
  abnormal unknown shutdown timer : Event
  completed : List IoEvent → Event

abbrev pub is_final : State → Bool
is_final State.final_shutdown = true
is_final _ = false

-- The condition under which the completion thread exits.
abbrev pub is_drained : Machine → Bool
is_drained m = is_final m.state && m.stats.num_queued == m.stats.num_completed

module _ (env : Env) where
  pub finish_job : ℤ → FilerJob → Machine → Outcome Machine
  unfolding completion_code
  finish_job res job m = do
    posted ← do_post_processing_of_job env (record job { retcode = completion_code res job }) m
    ctx ← increment_num_available 1 posted.ctx
    done (record posted { ctx = ctx; ctx_cond = posted.ctx_cond + 1 })

  pub process_event : IoEvent → Machine → Outcome Machine
  process_event e m = elim (reap e.addr m.in_flight) [
    | none ↦ fault Fault.use_after_free
    | some (job, others) ↦ finish_job e.res job (record m { in_flight = others })
  ]

  pub process_callbacks : List IoEvent → Machine → Outcome Machine
  process_callbacks [] m = done m
  process_callbacks (e ∷ es) m = process_event e m >>= λ m'. process_callbacks es m'

  -- At the final shutdown the jobs that are stuck in the request queue are processed.
  unfoldable pub serve_if_final : Machine → Outcome Machine
  serve_if_final m =
      if is_final m.state then (process_request_queue env m >>= λ served. done served.1) else done m

  unfoldable pub handle_event : Event → Machine → Outcome Machine
  handle_event abnormal m = done m
  handle_event unknown m = done m
  handle_event shutdown m = serve_if_final m
  -- `LOG(FATAL)` only logs.
  handle_event timer m = if m.config.no_submitter_thread then serve_if_final m else done m
  handle_event (completed events) m =
      assert (ltb 0 (length events) && leb (length events) m.ctx.io_queue_depth)
      >> process_callbacks events m

  pub handle_events : List Event → Machine → Outcome Machine
  handle_events [] m = done m
  handle_events (e ∷ es) m = handle_event e m >>= λ m'. handle_events es m'

  -- The loop, over the batches of events that epoll delivers; whether it came to its exit.
  pub process_completions : List (List Event) → Machine → Outcome (Bool × Machine)
  process_completions [] m = done (is_drained m, m)
  process_completions (batch ∷ batches) m =
      let rest : Outcome (Bool × Machine) =
        (handle_events batch (record m {
          stats = record (m.stats) {
            num_completion_events = u32 (m.stats.num_completion_events + length batch);
          };
        })
          >>= λ m'. process_completions batches m') in
      if is_drained m then done (true, m) else rest
