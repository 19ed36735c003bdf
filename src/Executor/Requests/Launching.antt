-- ===== src/Executor/Requests/Launching.antt =====
-- A batch in the hands of a kernel that takes it whole or asks to try again.
use gobjfs.Base.{
  ℕ, zero, suc, ◌+◌, ◌<◌, ◌≡◌, refl, List, [], ◌++◌, length, arith, done, Returns, true, ap, ◌∙◌,
  ◌⊎◌, inl, inr, take-length, length-append, u64, lt→ltb, ltb_self, All-append, ◌%◌, ◌^◌,
}
use gobjfs.Job.{FilerJob}
use gobjfs.Executor.{Machine, Env, took, failed}
use gobjfs.Executor.Invariant.{Inv, Flying, occurs-append}
use gobjfs.Executor.Requests.{is_retry, accept, submit_rounds}

-- Each call of `io_submit` takes all that it is given, or asks to be called again.
abbrev pub IsSteady : Env → Type 0
IsSteady env =
    (tries : ℕ) (jobs : List FilerJob)
    → ((e : ℕ) × (env.io_submit tries jobs ≡ failed e) × (is_retry e ≡ true))
      ⊎ (env.io_submit tries jobs ≡ took (length jobs))

-- The batch is in flight, or it is all still there.
pub record Settled (env : Env) (jobs : List FilerJob) (m : Machine) (rest : List FilerJob)
    (m' : Machine) : Type 0 where
  pub accounts : Inv env (length rest) rest m'
  pub outcome :
      ((rest ≡ []) × (m'.in_flight ≡ m.in_flight ++ jobs))
      ⊎ ((rest ≡ jobs) × (m'.in_flight ≡ m.in_flight))
  pub notified_same : m'.world.notified ≡ m.world.notified
  pub requests_same : m'.request_queue ≡ m.request_queue
  pub queued_same : m'.stats.num_queued ≡ m.stats.num_queued

unfoldable pub launch : List FilerJob → Machine → Machine
launch jobs m = record m {
  stats = record (m.stats) { num_submitted = u64 (m.stats.num_submitted + length jobs) };
  in_flight = m.in_flight ++ jobs;
}

pub launch-Settled :
    (env : Env) (jobs : List FilerJob) (m : Machine)
    → Inv env (length jobs) jobs m
    → Settled env jobs m [] (launch jobs m)
unfolding launch
launch-Settled env jobs m v = record {
  accounts = record {
    permits = v.permits;
    slots = omega (arith, v.slots, length-append m.in_flight jobs);
    sized = v.sized;
    fd_sized = v.fd_sized;
    queued = v.queued;
    fd_queued = v.fd_queued;
    flying = All-append Flying m.in_flight jobs v.flying v.held_flying;
    held_flying = tt;
    apart = λ a. omega (arith, v.apart a, occurs-append a m.in_flight jobs);
    counted =
        v.counted ∙ ap (λ (n : ℕ). n % 2 ^ 64) (omega (arith, length-append m.in_flight jobs));
  };
  outcome = inl (refl, refl);
  notified_same = refl;
  requests_same = refl;
  queued_same = refl;
}

pub accept_all :
    (env : Env) (jobs : List FilerJob) (m : Machine)
    → accept env (length jobs) jobs m ≡ done (launch jobs m)
unfolding accept launch
accept_all env jobs m = rw (take-length jobs) (ground arith)

pub submit_rounds-Settled :
    (env : Env) (tries : ℕ) (jobs : List FilerJob) (m : Machine)
    → IsSteady env
    → 0 < length jobs
    → Inv env (length jobs) jobs m
    → Returns (submit_rounds env tries jobs m) λ r. Settled env jobs m r.0 r.1
unfolding submit_rounds
submit_rounds-Settled env zero jobs m steady some_jobs v = record {
  accounts = v;
  outcome = inr (refl, refl);
  notified_same = refl;
  requests_same = refl;
  queued_same = refl;
}
submit_rounds-Settled env (suc tries) jobs m steady some_jobs v =
    rw (lt→ltb 0 (length jobs) some_jobs) (elim (steady tries jobs) [
      | inl (e, answer, again) ↦
          rw (answer, again) (submit_rounds-Settled env tries jobs m steady some_jobs v)
      | inr answer ↦
          rw (answer, accept_all env jobs m, ltb_self (length jobs)) (launch-Settled env jobs m v)
    ])
