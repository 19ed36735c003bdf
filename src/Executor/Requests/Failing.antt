-- ===== src/Executor/Requests/Failing.antt =====
-- Jobs that are finished with an error code.
use gobjfs.Base.{
  ℕ, ◌+◌, ◌≡◌, refl, ℤ, List, [], ◌∷◌, All, arith, Returns, Returns-map, Returns->>=, ap, ◌∙◌,
  if◌then◌else◌,
}
use gobjfs.Job.{FilerJob, Status}
use gobjfs.Executor.{Machine, Env}
use gobjfs.Executor.Post.{do_post_processing_of_job, count}
use gobjfs.Executor.Invariant.{Inv, IsOwned, IsRising, occurs}
use gobjfs.Executor.Invariant.Posting.{
  Posted, Flying-Ripe, do_post_processing_of_job-Posted, Posted-Inv,
}
use gobjfs.Executor.Requests.{fail_all}

-- The answers to jobs that fail with a code, the newest first, before those that were there.
abbrev pub failures : ℤ → List FilerJob → List Status → List Status
failures code [] before = before
failures code (job ∷ jobs) before = failures code jobs (
    record {
      completion_fd = job.completion_fd;
      completion_id = job.completion_id;
      error_code = code;
    }
    ∷ before)

pub record FailedAll (env : Env) (owed : ℕ) (code : ℤ) (jobs : List FilerJob) (m m' : Machine)
    : Type 0 where
  pub accounts : Inv env owed [] m'
  pub notified : m'.world.notified ≡ failures code jobs m.world.notified
  pub flight_same : m'.in_flight ≡ m.in_flight
  pub requests_same : m'.request_queue ≡ m.request_queue
  pub queued_same : m'.stats.num_queued ≡ m.stats.num_queued
  pub freed_all :
      All IsOwned jobs → (a : ℕ) → count a m'.world.freed ≡ occurs a jobs + count a m.world.freed

pub freed_one :
    (a : ℕ) (job : FilerJob) (jobs : List FilerJob) (m m1 : Machine)
    → IsOwned job
    → m1.world.freed ≡ (if job.can_be_freed then job.addr ∷ m.world.freed else m.world.freed)
    → occurs a jobs + count a m1.world.freed ≡ occurs a (job ∷ jobs) + count a m.world.freed
freed_one a job jobs m m1 o e = rw (e, o) (omega arith)

pub fail_all-FailedAll :
    (env : Env) (owed : ℕ) (code : ℤ) (jobs : List FilerJob) (m : Machine)
    → IsRising env
    → Inv env owed jobs m
    → Returns (fail_all env code jobs m) (FailedAll env owed code jobs m)
unfolding fail_all
fail_all-FailedAll env owed code [] m rising v = record {
  accounts = v;
  notified = refl;
  flight_same = refl;
  requests_same = refl;
  queued_same = refl;
  freed_all = λ o a. omega arith;
}
fail_all-FailedAll env owed code (job ∷ jobs) m rising v =
    let coded : FilerJob = record job { retcode = code } in
    Returns->>= (do_post_processing_of_job env coded m) (fail_all env code jobs)
      (Posted env coded m) _
      (do_post_processing_of_job-Posted env coded m (Flying-Ripe job v.held_flying.0)
        (ground (arith, v.apart job.addr)))
      λ m1 p.
        Returns-map (fail_all env code jobs m1) _ _
          (fail_all-FailedAll env owed code jobs m1 rising
            (Posted-Inv env owed job coded jobs m m1 rising v refl p))
          λ m2 f. record {
            accounts = f.accounts;
            notified = f.notified ∙ ap (failures code jobs) p.notified;
            flight_same = f.flight_same ∙ p.flight_same;
            requests_same = f.requests_same ∙ p.requests_same;
            queued_same = f.queued_same ∙ p.queued_same;
            freed_all = λ o a. f.freed_all o.1 a ∙ freed_one a job jobs m m1 o.0 p.freed;
          }
