-- ===== src/Tests/Executors.antt =====
-- The executor on concrete machines.
use gobjfs.Base.{
  ◌+◌, ◌-◌, ◌≡◌, refl, pos, true, List, [], ◌∷◌, length, arith, fault, Fault, Returns, ◌>>=◌, ◌==◌,
  if◌then◌else◌, enomem, some,
}
use gobjfs.Job.{FilerJob, FileOp, Timing, set_submit_time, set_wait_time, set_service_time}
use gobjfs.Executor.{Env, took, new_executor}
use gobjfs.Executor.Invariant.{Inv}
use gobjfs.Executor.Requests.{process_request_queue, submit_batch}
use gobjfs.Executor.Requests.Accounting.{QueueServed, process_request_queue-QueueServed}
use gobjfs.Executor.Requests.Faults.{
  Overcounted, Splits, process_request_queue-refused, submit_batch-split,
}
use gobjfs.Executor.Completions.{IoEvent, reap, process_callbacks}
use gobjfs.Executor.Completions.Callbacks.{Reapable, answers, process_callbacks-answers}
use gobjfs.Executor.FdQueue.{consume, fd_rounds}
use gobjfs.Executor.FdQueue.Rounds.{fd_answers, fd_rounds-drained, consume-sync}
use gobjfs.Job.Times.{times_add_up}
use gobjfs.Tests.Data.{
  calm, calm-IsRising, calm-IsSteady, starved, starved-IsRising, job_at, fresh, loaded, loaded-Inv,
  full, full-Inv, flying_job, batch, holding, holding-Inv,
}

abbrev new_read : FilerJob
new_read = job_at 3 FileOp.read 1024

process_request_queue_example :
    Returns (process_request_queue calm loaded) λ r. QueueServed calm loaded r.0 r.1
process_request_queue_example =
    process_request_queue-QueueServed calm loaded calm-IsRising calm-IsSteady (loaded-Inv calm refl)
      (omega arith)

-- The second job is finished first, and short.
abbrev events : List IoEvent
events = record { addr = 5; res = pos 100 } ∷ record { addr = 4; res = pos 512 } ∷ []

second_reaped : reap 5 full.in_flight ≡ some (flying_job 5, flying_job 4 ∷ [])
unfolding reap
second_reaped = refl

first_reaped : reap 4 (flying_job 4 ∷ []) ≡ some (flying_job 4, [])
unfolding reap
first_reaped = refl

abbrev reapable : Reapable events full.in_flight
reapable = (flying_job 5, flying_job 4 ∷ [], second_reaped, (flying_job 4, [], first_reaped, tt))

process_callbacks_example : Returns (process_callbacks calm events full) λ m'.
    Inv calm 0 [] m'
    × (m'.world.notified ≡ answers events full.in_flight reapable full.world.notified)
    × (m'.ctx.num_available ≡ full.ctx.num_available + length events)
    × (m'.request_queue ≡ full.request_queue)
process_callbacks_example =
    process_callbacks-answers calm events full calm-IsRising (full-Inv calm) reapable

fd_rounds_example : Returns (fd_rounds calm (length loaded.fd_queue) loaded) λ r.
    (r.0 ≡ true)
    × Inv calm 0 [] r.1
    × (r.1.fd_queue ≡ [])
    × (r.1.world.notified ≡ fd_answers calm loaded.fd_queue loaded.world.notified)
    × (r.1.ctx ≡ loaded.ctx)
fd_rounds_example =
    fd_rounds-drained calm loaded calm-IsRising (loaded-Inv calm refl) refl (omega arith)

refused_example : process_request_queue starved loaded ≡ fault Fault.use_after_free
refused_example =
    process_request_queue-refused starved enomem loaded starved-IsRising (λ tries jobs. refl) refl
      (loaded-Inv starved refl) (omega arith) (omega arith) (refl, tt)

-- A kernel that takes one job at first.
abbrev hesitant : Env
hesitant = record calm {
  io_submit = λ tries jobs. if tries == 4 then took 1 else took (length jobs);
}

hesitant-Splits : Splits hesitant 1
hesitant-Splits = (λ jobs. refl, λ jobs. refl)

split_example :
    Returns
      (submit_batch hesitant batch holding)
      λ r. (r.0 ≡ length batch) × Overcounted holding.ctx.io_queue_depth 1 batch holding r.1
split_example =
    submit_batch-split hesitant 1 batch holding hesitant-Splits (omega arith) (holding-Inv hesitant)

abbrev sync_job : FilerJob
sync_job = job_at 6 FileOp.sync 0

sync_example : consume calm (sync_job ∷ []) fresh ≡ fault Fault.assert_failed
unfolding new_executor
sync_example = consume-sync calm sync_job [] fresh refl refl refl

abbrev unset : Timing
unset = record { wait_time = 0; service_time = 0; begin = 0 }

times_example :
    Returns
      (do t1 ← set_submit_time 10 unset; t2 ← set_wait_time 14 t1; set_service_time 25 t2)
      λ u.
        (u.wait_time ≡ 14 - 10)
        × (u.service_time ≡ 25 - 14)
        × (u.wait_time + u.service_time ≡ 25 - 10)
times_example = times_add_up unset 10 14 25 refl refl (omega arith) (omega arith)
