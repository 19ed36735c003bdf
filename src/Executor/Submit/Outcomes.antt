-- ===== src/Executor/Submit/Outcomes.antt =====
-- What a call of `submitTask`, or one that was woken, leaves behind if it does not have to wait.
use gobjfs.Base.{
  ◌≡◌, [], arith, Ends, Ends->>=, true, false, inl, inr, Bool, Bool-cases, ltb, leb, if◌then◌else◌,
  ◌&&◌, ◌||◌, done,
}
use gobjfs.Job.{FilerJob, is_read_or_write}
use gobjfs.Executor.{Machine, Env}
use gobjfs.Executor.Invariant.{Inv, IsRising, is_fd_job}
use gobjfs.Executor.Requests.{process_request_queue}
use gobjfs.Executor.Requests.Launching.{IsSteady}
use gobjfs.Executor.Requests.Waits.{process_request_queue-Ends}
use gobjfs.Executor.Submit.{
  Submission, is_running, reroute, reroutes, count_full, serve, enqueue_fd, enqueue_request,
  submit_fd, submit_request, dispatch, submit_task, accept_by,
}
use gobjfs.Executor.Submit.Intake.{
  is_served, read_or_write_not_fd, fd_job_is_fd_op, reroute-IsNew, reroute_served,
}
use gobjfs.Executor.Submit.Pushing.{
  IsNew, pushed, push_request_lem, enqueue_fd_lem, pushed-Inv, fd_pushed-Inv,
}

pub enqueue_fd-Ends :
    (env : Env) (job : FilerJob) (m : Machine)
    → IsRising env
    → Inv env 0 [] m
    → IsNew job m
    → is_fd_job job.op ≡ true
    → Ends (enqueue_fd env job m) (Inv env 0 [])
enqueue_fd-Ends env job m rising v new fd_op =
    rw (enqueue_fd_lem env job m new) (fd_pushed-Inv env job m rising v new fd_op)

pub enqueue_request-Ends :
    (env : Env) (job : FilerJob) (m : Machine)
    → IsRising env
    → IsSteady env
    → Inv env 0 [] m
    → IsNew job m
    → is_read_or_write job.op ≡ true
    → Ends (enqueue_request env job m) (Inv env 0 [])
unfolding enqueue_request serve
enqueue_request-Ends env job m rising steady v new rw_op =
    let n = pushed env job m in
    let w = pushed-Inv env job m rising v new rw_op in
    rw (push_request_lem env job m new)
      (elim (Bool-cases
        (n.config.no_submitter_thread && leb n.min_submit_size n.request_queue_size)) [
          | inl now ↦ rw now (
              Ends->>= (process_request_queue env n) _ _ (Inv env 0 [])
                (process_request_queue-Ends env n rising steady w) λ r q. q)
          | inr later ↦ rw later w
        ])

full-Inv : (env : Env) (m : Machine) → Inv env 0 [] m → Inv env 0 [] (count_full m)
full-Inv env m v = record {
  permits = v.permits;
  slots = v.slots;
  sized = v.sized;
  fd_sized = v.fd_sized;
  queued = v.queued;
  fd_queued = v.fd_queued;
  flying = v.flying;
  held_flying = v.held_flying;
  apart = v.apart;
  counted = v.counted;
}

abbrev Kept : Env → Submission × Machine → Type 0
Kept env r = Inv env 0 [] r.1

over-Kept :
    (env : Env) (blocking : Bool) (waits fails : Submission) (m : Machine)
    → Inv env 0 [] m
    → Ends (done (if blocking then (waits, count_full m) else (fails, m))) (Kept env)
over-Kept env true waits fails m v = full-Inv env m v
over-Kept env false waits fails m v = v

submit_fd-Kept :
    (env : Env) (job : FilerJob) (b : Bool) (m : Machine)
    → IsRising env
    → Inv env 0 [] m
    → IsNew job m
    → is_fd_job job.op ≡ true
    → Ends (submit_fd env job b m) (Kept env)
unfolding submit_fd accept_by
submit_fd-Kept env job b m rising v new fd_op =
    elim (Bool-cases (ltb m.config.max_request_queue_size m.fd_queue_size)) [
      | inl over ↦ rw over (over-Kept env b _ _ m v)
      | inr room ↦ rw room (
          Ends->>= (enqueue_fd env job m) _ (Inv env 0 []) (Kept env)
            (enqueue_fd-Ends env job m rising v new fd_op) λ m' w. w)
    ]

submit_request-Kept :
    (env : Env) (job : FilerJob) (b : Bool) (m : Machine)
    → IsRising env
    → IsSteady env
    → Inv env 0 [] m
    → IsNew job m
    → is_read_or_write job.op ≡ true
    → Ends (submit_request env job b m) (Kept env)
unfolding submit_request accept_by
submit_request-Kept env job b m rising steady v new rw_op =
    elim (Bool-cases (ltb m.config.max_request_queue_size m.request_queue_size)) [
      | inl over ↦ rw over (over-Kept env b _ _ m v)
      | inr room ↦ rw room (
          Ends->>= (enqueue_request env job m) _ (Inv env 0 []) (Kept env)
            (enqueue_request-Ends env job m rising steady v new rw_op) λ m' w. w)
    ]

pub submit_task-Ends :
    (env : Env) (job : FilerJob) (blocking : Bool) (m : Machine)
    → IsRising env
    → IsSteady env
    → Inv env 0 [] m
    → IsNew job m
    → is_served job.op ≡ true
    → Ends (submit_task env job blocking m) λ r. Inv env 0 [] r.1
unfolding submit_task dispatch
submit_task-Ends env job blocking m rising steady v new served =
    let j = reroute job in
    let j_new = reroute-IsNew job m new in
    let j_served = reroute_served job served in
    elim (Bool-cases (is_running m.state)) [
      | inr over ↦ simp over v
      | inl running ↦ simp running (elim (Bool-cases (is_read_or_write j.op)) [
        | inl rw_op ↦
            simp (read_or_write_not_fd j.op rw_op, rw_op)
              (submit_request-Kept env j (reroutes job || blocking) m rising steady v j_new rw_op)
        | inr fd_op ↦
            let f : is_fd_job j.op ≡ true = ground arith in
            simp (fd_job_is_fd_op j.op f)
              (submit_fd-Kept env j (reroutes job || blocking) m rising v j_new f)
      ])
    ]
