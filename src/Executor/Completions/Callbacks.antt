-- ===== src/Executor/Completions/Callbacks.antt =====
-- What `ProcessCallbacks` does to the executor.
use gobjfs.Base.{
  ℕ, suc, ◌+◌, ◌≡◌, refl, ℤ, List, [], ◌∷◌, length, All, arith, Returns, Returns->>=, Returns-map,
  some, Option-cases, inl, inr, ◌⊎◌, Bool-cases, ap, ◌∙◌, ◌==◌, if◌then◌else◌, u64,
}
use gobjfs.Job.{FilerJob, Status}
use gobjfs.Executor.{Machine, Env, increment_num_available, FilerCtx}
use gobjfs.Executor.Post.{do_post_processing_of_job}
use gobjfs.Executor.Invariant.{
  Inv, Flying, IsRising, occurs, give_back, give_back-Inv, room_for_owed,
}
use gobjfs.Executor.Invariant.Posting.{
  Posted, Flying-Ripe, do_post_processing_of_job-Posted, Posted-Inv,
}
use gobjfs.Executor.Completions.{
  IoEvent, reap, completion_code, finish_job, process_event, process_callbacks,
}

-- Taking a job out of a list.
pub record Reaped (a : ℕ) (jobs : List FilerJob) (job : FilerJob) (others : List FilerJob)
    : Type 0 where
  pub found : job.addr ≡ a
  pub one_less : length jobs ≡ suc (length others)
  pub flies : All Flying jobs → Flying job × All Flying others
  pub same_jobs : (b : ℕ) → occurs b jobs ≡ (if job.addr == b then 1 else 0) + occurs b others

reap-cases :
    (a : ℕ) (x : FilerJob) (xs : List FilerJob) {job : FilerJob} {others : List FilerJob}
    → reap a (x ∷ xs) ≡ some (job, others)
    → ((x.addr ≡ a) × (job ≡ x) × (others ≡ xs))
      ⊎ ((rest : List FilerJob) × (reap a xs ≡ some (job, rest)) × (others ≡ x ∷ rest))
unfolding reap
reap-cases a x xs {job} {others} h = elim (Bool-cases (x.addr == a)) [
  | inl hit ↦ inl (ground arith)
  | inr miss ↦ elim (Option-cases (reap a xs)) [
    | inl e ↦ ground arith
    | inr (t, e) ↦ inr (t.1, ground arith, ground arith)
  ]
]

reap-Reaped :
    (a : ℕ) (jobs : List FilerJob) {job : FilerJob} {others : List FilerJob}
    → reap a jobs ≡ some (job, others)
    → Reaped a jobs job others
unfolding reap
reap-Reaped a [] h = cc
reap-Reaped a (x ∷ xs) {job} {others} h = elim (reap-cases a x xs h) [
  | inl (e, f, g) ↦
      rw (f, g) (record { found = e; one_less = refl; flies = λ p. p; same_jobs = λ b. refl })
  | inr (rest, e, g) ↦
      let r = reap-Reaped a xs e in
      rw g (record {
        found = r.found;
        one_less = ap suc r.one_less;
        flies = λ p. ((r.flies p.1).0, (p.0, (r.flies p.1).1));
        same_jobs = λ b. omega (arith, r.same_jobs b);
      })
]

-- The status that a completed job is answered with.
abbrev pub answer : ℤ → FilerJob → Status
answer res job = record {
  completion_fd = job.completion_fd;
  completion_id = job.completion_id;
  error_code = completion_code res job;
}

-- One event: the job, which has left `m.in_flight`, is notified of its result, and its slot is free
-- again.
pub record Answered (env : Env) (res : ℤ) (job : FilerJob) (m m' : Machine) : Type 0 where
  pub accounts : Inv env 0 [] m'
  pub notified : m'.world.notified ≡ answer res job ∷ m.world.notified
  pub landed : m'.in_flight ≡ m.in_flight
  pub slot_back : m'.ctx.num_available ≡ m.ctx.num_available + 1
  pub depth_same : m'.ctx.io_queue_depth ≡ m.ctx.io_queue_depth
  pub requests_same : m'.request_queue ≡ m.request_queue
  pub completed : m'.stats.num_completed ≡ u64 (m.stats.num_completed + 1)

Reaped-Inv :
    (env : Env) (a : ℕ) (m : Machine) (job : FilerJob) (others : List FilerJob)
    → Inv env 0 [] m
    → Reaped a m.in_flight job others
    → Inv env 1 (job ∷ []) (record m { in_flight = others })
Reaped-Inv env a m job others v r = record {
  permits = v.permits;
  slots = omega (arith, v.slots, r.one_less);
  sized = v.sized;
  fd_sized = v.fd_sized;
  queued = v.queued;
  fd_queued = v.fd_queued;
  flying = (r.flies v.flying).1;
  held_flying = ((r.flies v.flying).0, tt);
  apart = λ b. omega (arith, v.apart b, r.same_jobs b);
  counted = v.counted ∙ ap u64 (omega (arith, r.one_less));
}

finish_job-Answered :
    (env : Env) (res : ℤ) (job : FilerJob) (m : Machine)
    → IsRising env
    → Inv env 1 (job ∷ []) m
    → Returns (finish_job env res job m) (Answered env res job m)
unfolding finish_job increment_num_available
finish_job-Answered env res job m rising v =
    let coded : FilerJob = record job { retcode = completion_code res job } in
    Returns->>= (do_post_processing_of_job env coded m) _ (Posted env coded m) _
      (do_post_processing_of_job-Posted env coded m (Flying-Ripe job v.held_flying.0)
        (ground (arith, v.apart job.addr)))
      λ posted p.
        let w = Posted-Inv env 1 job coded [] m posted rising v refl p in
        rw (room_for_owed env 1 [] posted w) (record {
          accounts = unfold give_back in give_back-Inv env 0 1 [] posted w;
          notified = p.notified;
          landed = p.flight_same;
          slot_back = ap (λ (c : FilerCtx). c.num_available + 1) p.ctx_same;
          depth_same = ap (λ (c : FilerCtx). c.io_queue_depth) p.ctx_same;
          requests_same = p.requests_same;
          completed = p.completed;
        })

process_event-Answered :
    (env : Env) (e : IoEvent) (m : Machine) {job : FilerJob} {others : List FilerJob}
    → IsRising env
    → Inv env 0 [] m
    → reap e.addr m.in_flight ≡ some (job, others)
    → Returns (process_event env e m) (Answered env e.res job (record m { in_flight = others }))
unfolding process_event
process_event-Answered env e m {job} {others} rising v r =
    rw (r, process_event)
      (finish_job-Answered env e.res job (record m { in_flight = others }) rising
        (Reaped-Inv env e.addr m job others v (reap-Reaped e.addr m.in_flight r)))

-- Every event is about a job that is in flight, after those before it.
abbrev pub Reapable : List IoEvent → List FilerJob → Type 0
Reapable [] jobs = Unit
Reapable (e ∷ es) jobs =
    (job : FilerJob) × (others : List FilerJob) × (reap e.addr jobs ≡ some (job, others))
    × Reapable es others

-- The answers to some events, the newest first, before those that were there.
abbrev pub answers :
    (es : List IoEvent) (jobs : List FilerJob) → Reapable es jobs → List Status → List Status
answers [] jobs r before = before
answers (e ∷ es) jobs r before = answers es r.1 r.3 (answer e.res r.0 ∷ before)

process_callbacks-from :
    (env : Env) (es : List IoEvent) (jobs : List FilerJob) (m : Machine)
    → IsRising env
    → Inv env 0 [] m
    → m.in_flight ≡ jobs
    → (r : Reapable es jobs)
    → Returns (process_callbacks env es m) λ m'.
      Inv env 0 [] m'
      × (m'.world.notified ≡ answers es jobs r m.world.notified)
      × (m'.ctx.num_available ≡ m.ctx.num_available + length es)
      × (m'.request_queue ≡ m.request_queue)
unfolding process_callbacks
process_callbacks-from env [] jobs m rising v e r = (v, refl, omega arith, refl)
process_callbacks-from env (x ∷ es) jobs m rising v e (job, others, taken, more) =
    Returns->>= (process_event env x m) (process_callbacks env es)
      (Answered env x.res job (record m { in_flight = others })) _
      (process_event-Answered env x m rising v (ap (reap x.addr) e ∙ taken))
      λ m1 a.
        Returns-map (process_callbacks env es m1) _ _
          (process_callbacks-from env es others m1 rising a.accounts a.landed more)
          λ m2 b. (
            b.0,
            b.1 ∙ ap (answers es others more) a.notified,
            omega (arith, b.2, a.slot_back),
            b.3 ∙ a.requests_same,
          )

-- The completion of any jobs in flight faults nowhere, keeps the accounts, answers each job once
-- with the code of its result, in the order of the events, gives back one slot for each, and leaves
-- the request queue alone.
pub process_callbacks-answers :
    (env : Env) (es : List IoEvent) (m : Machine)
    → IsRising env
    → Inv env 0 [] m
    → (r : Reapable es m.in_flight)
    → Returns (process_callbacks env es m) λ m'.
      Inv env 0 [] m'
      × (m'.world.notified ≡ answers es m.in_flight r m.world.notified)
      × (m'.ctx.num_available ≡ m.ctx.num_available + length es)
      × (m'.request_queue ≡ m.request_queue)
process_callbacks-answers env es m rising v r =
    process_callbacks-from env es m.in_flight m rising v refl r
