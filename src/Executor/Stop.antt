-- ===== src/Executor/Stop.antt =====
-- `IOExecutor::stop` in src/IOExecutor.cpp, and the executor as its callers, its two threads and
-- `stop` take steps on it. `stop` itself is three steps: it ends the intake and wakes the fd thread,
-- it waits for that thread and starts the final shutdown, and it waits for the completion thread.
-- There is no submitter thread, as in the configuration that the constructor makes.
pub mod Safety
pub mod Hangs
use gobjfs.Base.{
  ℕ, ◌-◌, ltb, leb, ◌&&◌, suc, ◌+◌, ◌≡◌, Bool, true, false, not, ℤ, ◌∷◌, [], List, ◌<◌, done,
  Outcome,
}
use gobjfs.Job.{FilerJob, is_read_or_write}
use gobjfs.Executor.{Machine, State, Config, Env, new_executor}
use gobjfs.Executor.FdQueue.{fd_round}
use gobjfs.Executor.Submit.{
  Submission, submit_task, enqueue_fd, enqueue_request, push_request, reroute, is_running,
}
use gobjfs.Executor.Requests.{process_request_queue}
use gobjfs.Executor.Submit.Intake.{is_served}
use gobjfs.Executor.Submit.Pushing.{IsNew}
use gobjfs.Executor.Invariant.{is_fd_job}
use gobjfs.Executor.Completions.Events.{IsDelivered}
use gobjfs.Executor.Completions.{Event, handle_event, is_drained}

-- `serving` are the callers of `submitTask` that pushed a job and are on their way into or wait in
-- `ProcessRequestQueue`.
pub record System : Type 0 where
  pub machine : Machine
  pub serving : ℕ
  pub fd_thread_over : Bool
  pub completion_thread_over : Bool

unfoldable pub start : ℤ → Config → System
unfolding new_executor
start core config = record {
  machine = new_executor core config;
  serving = 0;
  fd_thread_over = false;
  completion_thread_over = false;
}

-- `state_ = NO_MORE_INTAKE`, and `fdQueueCond_.wakeup()`.
unfoldable pub end_intake : Machine → Machine
end_intake m = record m { state = State.no_more_intake; fd_queue_cond = m.fd_queue_cond + 1 }

-- `state_ = FINAL_SHUTDOWN`; the message to the completion thread is the event `shutdown`.
unfoldable pub begin_final_shutdown : Machine → Machine
begin_final_shutdown m = record m { state = State.final_shutdown }

unfoldable pub terminate : Machine → Machine
terminate m = record m { state = State.terminated }

-- `submitTask` lets the job into the request queue.
abbrev pub lets_in : FilerJob → Machine → Bool
lets_in job m =
    is_running m.state
    && is_read_or_write (reroute job).op
    && not (ltb m.config.max_request_queue_size m.request_queue_size)

-- After the push: the caller serves the queue itself.
abbrev pub serves_now : Machine → Bool
serves_now m = m.config.no_submitter_thread && leb m.min_submit_size m.request_queue_size

-- A caller's `submitTask` that is not interrupted; a caller that slept on a full queue and goes on; a
-- caller, of either kind, that pushes its job and has yet to serve the queue, and one that then does;
-- a round of the fd thread; an event of the completion thread, and its exit; and the three steps of
-- `stop`. A thread takes a step where the call returns: a caller that waits for a slot in
-- `ProcessRequestQueue` stays in `serving`, with its job in the queue.
pub data Step (env : Env) : System → System → Type 0 where
  submits :
      {s : System} (job : FilerJob) (blocking : Bool) (verdict : Submission) {m : Machine}
      → IsNew job s.machine
      → is_served job.op ≡ true
      → submit_task env job blocking s.machine ≡ done (verdict, m)
      → Step env s (record s { machine = m })
  resumes_fd :
      {s : System} (job : FilerJob) {m : Machine}
      → IsNew job s.machine
      → is_fd_job job.op ≡ true
      → enqueue_fd env job s.machine ≡ done m
      → Step env s (record s { machine = m })
  resumes_request :
      {s : System} (job : FilerJob) {m : Machine}
      → IsNew job s.machine
      → is_read_or_write job.op ≡ true
      → enqueue_request env job s.machine ≡ done m
      → Step env s (record s { machine = m })
  pushes :
      {s : System} (job : FilerJob) {m : Machine}
      → IsNew job s.machine
      → lets_in job s.machine ≡ true
      → push_request env (reroute job) s.machine ≡ done m
      → serves_now m ≡ true
      → Step env s (record s { machine = m; serving = suc s.serving })
  resumes_pushing :
      {s : System} (job : FilerJob) {m : Machine}
      → IsNew job s.machine
      → is_read_or_write job.op ≡ true
      → push_request env job s.machine ≡ done m
      → serves_now m ≡ true
      → Step env s (record s { machine = m; serving = suc s.serving })
  serves_requests :
      {s : System} {n : ℕ} {m : Machine}
      → 0 < s.serving
      → process_request_queue env s.machine ≡ done (n, m)
      → Step env s (record s { machine = m; serving = s.serving - 1 })
  serves_fd :
      {s : System} {goes_on : Bool} {m : Machine}
      → s.fd_thread_over ≡ false
      → fd_round env s.machine ≡ done (goes_on, m)
      → Step env s (record s { machine = m; fd_thread_over = not goes_on })
  handles :
      {s : System} (event : Event) {m : Machine}
      → s.completion_thread_over ≡ false
      → IsDelivered event s.machine
      → handle_event env event s.machine ≡ done m
      → Step env s (record s { machine = m })
  exits :
      {s : System}
      → s.completion_thread_over ≡ false
      → is_drained s.machine ≡ true
      → Step env s (record s { completion_thread_over = true })
  stops :
      {s : System}
      → s.machine.state ≡ State.running
      → Step env s (record s { machine = end_intake s.machine })
  joins_fd :
      {s : System}
      → s.machine.state ≡ State.no_more_intake
      → s.fd_thread_over ≡ true
      → Step env s (record s { machine = begin_final_shutdown s.machine })
  joins_completion :
      {s : System}
      → s.machine.state ≡ State.final_shutdown
      → s.completion_thread_over ≡ true
      → Step env s (record s { machine = terminate s.machine })

-- The systems that an executor can come to.
pub data Reachable (env : Env) : System → Type 0 where
  starts : (core : ℤ) (config : Config) → Reachable env (start core config)
  goes : {s t : System} → Reachable env s → Step env s t → Reachable env t
