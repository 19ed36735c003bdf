-- ===== src/Executor/FdQueue/Rounds.antt =====
-- What the thread of the fd queue does to the executor.
use gobjfs.Base.{
  ltb, Returns-map, ℕ, ◌-◌, ◌≤◌, ◌<◌, ◌≡◌, refl, List, [], ◌∷◌, length, arith, Returns, Ends,
  Returns-Ends, Returns->>=, Returns-map, subst, ap, ◌∙◌, sym, true, false, inl, inr, Bool-cases,
  lt→ltb, fault, Fault,
}
use gobjfs.Job.{FilerJob, FileOp, Status, reset}
use gobjfs.Executor.{Machine, Env}
use gobjfs.Executor.Post.{do_post_processing_of_job, count}
use gobjfs.Executor.Invariant.{Inv, IsRising}
use gobjfs.Executor.FdQueue.{carry_out, consume, fd_round, fd_rounds, intake_over}
use gobjfs.Executor.FdQueue.Carrying.{fd_code, Carried, consume-Carried}

-- The answers to jobs of the fd queue, the newest first, before those that were there.
abbrev pub fd_answers : Env → List FilerJob → List Status → List Status
fd_answers env [] before = before
fd_answers env (job ∷ jobs) before = fd_answers env jobs (
    record {
      completion_fd = job.completion_fd;
      completion_id = job.completion_id;
      error_code = fd_code env job;
    }
    ∷ before)

pub permitted-Inv :
    (env : Env) (n : ℕ) (m : Machine)
    → Inv env 0 [] m
    → Inv env 0 [] (record m { fd_queue_cond = n })
permitted-Inv env n m v = record {
  permits = v.permits;
  slots = v.slots;
  sized = v.sized;
  fd_sized = v.fd_sized;
  queued = v.queued;
  fd_queued = v.fd_queued;
  flying = v.flying;
  held_flying = v.held_flying;
  apart = v.apart;
  counted = v.counted;
}

fd_round-Carried :
    (env : Env) (job : FilerJob) (queue : List FilerJob) (m : Machine)
    → IsRising env
    → Inv env 0 [] m
    → intake_over m.state ≡ false
    → 0 < m.fd_queue_cond
    → m.fd_queue ≡ job ∷ queue
    → Returns (fd_round env m) λ r.
      (r.0 ≡ true) × Carried env job queue (record m { fd_queue_cond = m.fd_queue_cond - 1 }) r.1
unfolding fd_round
fd_round-Carried env job queue m rising v going permits e =
    let m0 : Machine = record m { fd_queue_cond = m.fd_queue_cond - 1 } in
    rw (going, lt→ltb 0 m.fd_queue_cond permits)
      (subst
        (λ jobs. Returns (consume env jobs m0) λ r. (r.0 ≡ true) × Carried env job queue m0 r.1)
        (sym e)
        (consume-Carried env job queue m0 rising (permitted-Inv env (m.fd_queue_cond - 1) m v) e))

fd_rounds-from :
    (env : Env) (jobs : List FilerJob) (m : Machine)
    → IsRising env
    → Inv env 0 [] m
    → intake_over m.state ≡ false
    → length jobs ≤ m.fd_queue_cond
    → m.fd_queue ≡ jobs
    → Returns (fd_rounds env (length jobs) m) λ r.
      (r.0 ≡ true)
      × Inv env 0 [] r.1
      × (r.1.fd_queue ≡ [])
      × (r.1.world.notified ≡ fd_answers env jobs m.world.notified)
      × (r.1.ctx ≡ m.ctx)
unfolding fd_rounds
fd_rounds-from env [] m rising v going permits e = (refl, v, e, refl, refl)
fd_rounds-from env (job ∷ jobs) m rising v going permits e =
    Returns->>= (fd_round env m) _ _ _
      (fd_round-Carried env job jobs m rising v going (omega arith) e)
      λ r c. rw c.0 (
        Returns-map (fd_rounds env (length jobs) r.1) _ _
          (fd_rounds-from env jobs r.1 rising c.1.accounts (ap intake_over c.1.state_same ∙ going)
            (omega (arith, c.1.permits_same)) c.1.left)
          λ s d. (d.0, d.1, d.2, d.3 ∙ ap (fd_answers env jobs) c.1.notified, d.4 ∙ c.1.ctx_same))

-- While the executor takes tasks, a fd queue with a permit for each of its jobs is served within as
-- many rounds as it has jobs: no round faults or waits, each job is answered once, in their order,
-- with 0 or the errno of its own unlink or pwrite, the queue is empty in the end, and no slot of the
-- I/O context is touched.
pub fd_rounds-drained :
    (env : Env) (m : Machine)
    → IsRising env
    → Inv env 0 [] m
    → intake_over m.state ≡ false
    → length m.fd_queue ≤ m.fd_queue_cond
    → Returns (fd_rounds env (length m.fd_queue) m) λ r.
      (r.0 ≡ true)
      × Inv env 0 [] r.1
      × (r.1.fd_queue ≡ [])
      × (r.1.world.notified ≡ fd_answers env m.fd_queue m.world.notified)
      × (r.1.ctx ≡ m.ctx)
fd_rounds-drained env m rising v going permits =
    fd_rounds-from env m.fd_queue m rising v going permits refl

-- A sync that is taken into the fd queue is never answered: when it is finished, with -EINVAL, its
-- wait time was not set, and the assertion of `setServiceTime` fails.
pub consume-sync :
    (env : Env) (job : FilerJob) (queue : List FilerJob) (m : Machine)
    → job.op ≡ FileOp.sync
    → job.timing.wait_time ≡ 0
    → count job.addr m.world.freed ≡ 0
    → consume env (job ∷ queue) m ≡ fault Fault.assert_failed
unfolding consume carry_out do_post_processing_of_job reset
consume-sync env job queue m op w h = ground arith

consume-Ends :
    (env : Env) (jobs : List FilerJob) (m : Machine)
    → IsRising env
    → Inv env 0 [] m
    → m.fd_queue ≡ jobs
    → Ends (consume env jobs m) λ r. Inv env 0 [] r.1
unfolding consume
consume-Ends env [] m rising v e = v
consume-Ends env (job ∷ queue) m rising v e =
    Returns-Ends (consume env (job ∷ queue) m) (λ r. Inv env 0 [] r.1)
      (Returns-map (consume env (job ∷ queue) m) _ _ (consume-Carried env job queue m rising v e)
        λ r c. c.1.accounts)

-- One round in any state keeps the accounts, if it does not wait.
pub fd_round-Ends :
    (env : Env) (m : Machine)
    → IsRising env
    → Inv env 0 [] m
    → Ends (fd_round env m) λ r. Inv env 0 [] r.1
unfolding fd_round
fd_round-Ends env m rising v = elim (Bool-cases (intake_over m.state)) [
  | inl over ↦ rw over v
  | inr going ↦ elim (Bool-cases (ltb 0 m.fd_queue_cond)) [
    | inl permit ↦
        let m0 : Machine = record m { fd_queue_cond = m.fd_queue_cond - 1 } in
        rw (going, permit)
          (consume-Ends env m.fd_queue m0 rising (permitted-Inv env (m.fd_queue_cond - 1) m v) refl)
    | inr none ↦ rw (going, none) tt
  ]
]
