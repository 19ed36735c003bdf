-- ===== src/Tests/Runs.antt =====
-- An executor that is used, and one that is used and shut down.
use gobjfs.Base.{pos, Bool, true, false, Outcome, done, fault, ℕ}
use gobjfs.Job.{FilerJob, FileOp}
use gobjfs.Executor.{Machine, Config, new_executor}
use gobjfs.Executor.FdQueue.{fd_round}
use gobjfs.Executor.Requests.{process_request_queue}
use gobjfs.Executor.Submit.{push_request, enqueue_fd, reroute}
use gobjfs.Executor.Stop.{System, end_intake, begin_final_shutdown}
use gobjfs.Tests.Data.{calm, job_at, config, fresh}

abbrev left_by : Outcome Machine → Machine
left_by (done m) = m
left_by (fault e) = fresh

-- One slot, and callers serve the queue from one request on.
abbrev eager : Config
eager = record config { queue_depth = 1; min_submit_size = 1 }

abbrev waiting_read : FilerJob
waiting_read = job_at 3 FileOp.read 1024

abbrev pushed_machine : Machine
pushed_machine = left_by (push_request calm (reroute waiting_read) (new_executor (pos 0) eager))

-- A caller has pushed its job and is about to serve the queue.
abbrev one_waits : System
one_waits = record {
  machine = pushed_machine;
  serving = 1;
  fd_thread_over = false;
  completion_thread_over = false;
}

abbrev deletion : FilerJob
deletion = job_at 5 FileOp.delete 512

abbrev enqueued : Machine
enqueued = left_by (enqueue_fd calm deletion (new_executor (pos 0) config))

abbrev machine_of : Outcome (Bool × Machine) → Machine
machine_of (done r) = r.1
machine_of (fault e) = fresh

abbrev deleted : Machine
deleted = machine_of (fd_round calm enqueued)

abbrev of_machine : Machine → Bool → System
of_machine m over = record {
  machine = m;
  serving = 0;
  fd_thread_over = over;
  completion_thread_over = false;
}

-- The deletion was carried out, and then the executor was stopped.
abbrev used_up : System
used_up = of_machine (begin_final_shutdown (end_intake deleted)) true

abbrev counted_machine : Outcome (ℕ × Machine) → Machine
counted_machine (done r) = r.1
counted_machine (fault e) = fresh

abbrev launched : Machine
launched = counted_machine (process_request_queue calm pushed_machine)

-- The only slot is in flight, and the final shutdown has begun.
abbrev shutting : System
shutting = of_machine (begin_final_shutdown (end_intake launched)) true

abbrev late_read : FilerJob
late_read = job_at 6 FileOp.read 1024

abbrev crowded_machine : Machine
crowded_machine = left_by (push_request calm late_read shutting.machine)

-- A caller that slept on a full queue pushes its job.
abbrev crowded : System
crowded = record shutting { machine = crowded_machine; serving = 1 }
