-- ===== src/Executor/Requests/Faults.antt =====
-- `ProcessRequestQueue` with a kernel that refuses a batch for good, or that takes one in part.
use gobjfs.Base.{
  ℕ, suc, ◌+◌, ◌-◌, ◌≤◌, ◌<◌, ◌≡◌, refl, ℤ, neg, List, [], ◌∷◌, ◌++◌, length, take, drop, All,
  arith, done, fault, Fault, Returns, Returns->>=, Returns-done, false, ap, ◌∙◌, ltb, einval, u64,
  lt→ltb, ltb_self, Bool-cases, inl, inr, length-append, length-drop, take-append-drop,
  append_assoc,
}
use gobjfs.Job.{FilerJob}
use gobjfs.Executor.{Machine, Env, took, failed, increment_num_available}
use gobjfs.Executor.Post.{do_post_processing_of_job, count}
use gobjfs.Executor.Invariant.{Inv, IsOwned, IsRising, occurs, give_back}
use gobjfs.Executor.Requests.{
  is_retry, collect, fail_all, return_slots, abort, accept, submit_rounds, fail_rest, submit_batch,
  process_request_queue,
}
use gobjfs.Executor.Requests.Effects.{collect-Collected}
use gobjfs.Executor.Requests.Accounting.{return_slots_lem, repermitted-Inv}
use gobjfs.Executor.Requests.Launching.{launch, accept_all}
use gobjfs.Executor.Requests.Failing.{FailedAll, fail_all-FailedAll}

-- A job that was freed is touched again.
fail_all-freed :
    (env : Env) (code : ℤ) (job : FilerJob) (jobs : List FilerJob) (m : Machine)
    → 0 < count job.addr m.world.freed
    → fail_all env code (job ∷ jobs) m ≡ fault Fault.use_after_free
unfolding fail_all do_post_processing_of_job
fail_all-freed env code job jobs m h = ground arith

-- A kernel that refuses every batch with an errno that is no invitation to try again.
abbrev pub Refuses : Env → ℕ → Type 0
Refuses env e = (tries : ℕ) (jobs : List FilerJob) → env.io_submit tries jobs ≡ failed e

abort-frees :
    (env : Env) (e : ℕ) (jobs : List FilerJob) (m : Machine)
    → IsRising env
    → All IsOwned jobs
    → Inv env (length jobs) jobs m
    → Returns (abort env e jobs m) λ r.
      (r.0 ≡ jobs) × ((a : ℕ) → count a r.1.world.freed ≡ occurs a jobs + count a m.world.freed)
unfolding abort
abort-frees env e jobs m rising owned v =
    Returns->>= (fail_all env (neg e) jobs m) _ (FailedAll env (length jobs) (neg e) jobs m) _
      (fail_all-FailedAll env (length jobs) (neg e) jobs m rising v)
      λ m1 f.
        rw (return_slots_lem env (length jobs) [] m1 f.accounts)
          (unfold give_back in (refl, f.freed_all owned))

fail_rest-freed :
    (env : Env) (rest : List FilerJob) (job : FilerJob) (jobs : List FilerJob) (m : Machine)
    → rest ≡ job ∷ jobs
    → 0 < count job.addr m.world.freed
    → fail_rest env rest m ≡ fault Fault.use_after_free
unfolding fail_rest
fail_rest-freed env rest job jobs m e h = rw (e, fail_all-freed env (neg einval) job jobs m h)

submit_rounds-refused :
    (env : Env) (e : ℕ) (job : FilerJob) (jobs : List FilerJob) (m : Machine)
    → Refuses env e
    → is_retry e ≡ false
    → submit_rounds env 5 (job ∷ jobs) m ≡ abort env e (job ∷ jobs) m
unfolding submit_rounds
submit_rounds-refused env e job jobs m refuses fatal =
    rw (lt→ltb 0 (suc (length jobs)) (omega arith)) (rw (refuses 4 (job ∷ jobs)) (rw fatal))

submit_batch-refused :
    (env : Env) (e : ℕ) (job : FilerJob) (jobs : List FilerJob) (m : Machine)
    → IsRising env
    → Refuses env e
    → is_retry e ≡ false
    → All IsOwned (job ∷ jobs)
    → Inv env (suc (length jobs)) (job ∷ jobs) m
    → submit_batch env (job ∷ jobs) m ≡ fault Fault.use_after_free
unfolding submit_batch
submit_batch-refused env e job jobs m rising refuses fatal owned v =
    let (r, eq, after) =
      Returns-done (abort env e (job ∷ jobs) m) _
        (abort-frees env e (job ∷ jobs) m rising owned v) in
    rw (
      submit_rounds-refused env e job jobs m refuses fatal,
      eq,
      fail_rest-freed env r.0 job jobs r.1 after.0 (ground (arith, after.1 job.addr)),
    )

some_refused :
    (env : Env) (e : ℕ) (b : List FilerJob) (m : Machine)
    → IsRising env
    → Refuses env e
    → is_retry e ≡ false
    → All IsOwned b
    → 0 < length b
    → Inv env (length b) b m
    → submit_batch env b m ≡ fault Fault.use_after_free
some_refused env e [] m rising refuses fatal owned h v = absurd (omega arith)
some_refused env e (job ∷ jobs) m rising refuses fatal owned h v =
    submit_batch-refused env e job jobs m rising refuses fatal owned v

-- The bug of a refused batch: whenever a slot is free, the queue holds a job, the executor owns the
-- jobs it has queued, and the kernel refuses the batch for good (with an errno other than EINTR and
-- EAGAIN), serving the queue touches a job that it has freed. The jobs are finished where the
-- refusal is met, and once more after the loop.
pub process_request_queue-refused :
    (env : Env) (e : ℕ) (m : Machine)
    → IsRising env
    → Refuses env e
    → is_retry e ≡ false
    → Inv env 0 [] m
    → 0 < m.ctx.num_available
    → 0 < length m.request_queue
    → All IsOwned m.request_queue
    → process_request_queue env m ≡ fault Fault.use_after_free
unfolding process_request_queue
process_request_queue-refused env e m rising refuses fatal v free work owned =
    let m0 : Machine = record m { ctx_cond = m.ctx_cond - 1 + 1 } in
    let (r, eq, c) =
      Returns-done (collect env m.request_queue [] m0) _
        (collect-Collected env m.request_queue [] m0 rising (repermitted-Inv env m v free)) in
    rw (lt→ltb 0 m.ctx_cond (omega (arith, v.permits)), eq)
      (some_refused env e r.0 r.1 rising refuses fatal (c.owned owned tt) (omega (arith, c.added))
        c.accounts)

-- A kernel that takes `n` jobs of a longer batch at first, and later all that it is given.
abbrev pub Splits : Env → ℕ → Type 0
Splits env n =
    ((jobs : List FilerJob) → env.io_submit 4 jobs ≡ took n)
    × ((jobs : List FilerJob) → env.io_submit 3 jobs ≡ took (length jobs))

-- The accounts of slots after a batch that was taken in two parts.
pub record Overcounted (depth : ℕ) (n : ℕ) (jobs : List FilerJob) (m m' : Machine) : Type 0 where
  pub flown : m'.in_flight ≡ m.in_flight ++ jobs
  pub slots : m'.ctx.num_available + length m'.in_flight ≡ depth + n

part : ℕ → List FilerJob → Machine → Machine
part n jobs m = give_back n (record m {
  stats = record (m.stats) { num_submitted = u64 (m.stats.num_submitted + n) };
  in_flight = m.in_flight ++ take n jobs;
})

accept-part :
    (env : Env) (n : ℕ) (jobs : List FilerJob) (m : Machine)
    → n < length jobs
    → m.ctx.num_available + n ≤ m.ctx.io_queue_depth
    → accept env n jobs m ≡ done (part n jobs m)
unfolding accept return_slots increment_num_available part give_back
accept-part env n jobs m h room = ground arith

rounds_part :
    (env : Env) (tries n : ℕ) (jobs : List FilerJob) (m : Machine)
    → n < length jobs
    → m.ctx.num_available + n ≤ m.ctx.io_queue_depth
    → env.io_submit tries jobs ≡ took n
    → submit_rounds env (suc tries) jobs m ≡ submit_rounds env tries (drop n jobs) (part n jobs m)
unfolding submit_rounds
rounds_part env tries n jobs m h room answer = rw (
  lt→ltb 0 (length jobs) (omega arith),
  answer,
  accept-part env n jobs m h room,
  lt→ltb n (length jobs) h,
)

rounds_all :
    (env : Env) (tries : ℕ) (jobs : List FilerJob) (m : Machine)
    → 0 < length jobs
    → env.io_submit tries jobs ≡ took (length jobs)
    → submit_rounds env (suc tries) jobs m ≡ done ([], launch jobs m)
unfolding submit_rounds
rounds_all env tries jobs m h answer =
    rw (lt→ltb 0 (length jobs) h, answer, accept_all env jobs m, ltb_self (length jobs))

split-Overcounted :
    (env : Env) (n k : ℕ) (jobs : List FilerJob) (m : Machine)
    → Inv env (length jobs) jobs m
    → n < length jobs
    → Overcounted m.ctx.io_queue_depth n jobs m
        (record (launch (drop n jobs) (part n jobs m)) { request_space_wakeups = k })
unfolding launch part give_back
split-Overcounted env n k jobs m v h =
    let joined : (m.in_flight ++ take n jobs) ++ drop n jobs ≡ m.in_flight ++ jobs =
      append_assoc m.in_flight (take n jobs) (drop n jobs)
      ∙ ap (λ (l : List FilerJob). m.in_flight ++ l) (take-append-drop n jobs) in
    record {
      flown = joined;
      slots = rw joined (omega (arith, v.slots, length-append m.in_flight jobs));
    }

-- The bug of a batch taken in part: if the kernel takes the first `n` jobs of a longer batch, and
-- then the others, all the jobs are in flight, and yet `n` slots more are called available than the
-- context has beside them: the slots of the first part were given back before the jobs completed.
pub submit_batch-split :
    (env : Env) (n : ℕ) (jobs : List FilerJob) (m : Machine)
    → Splits env n
    → n < length jobs
    → Inv env (length jobs) jobs m
    → Returns
        (submit_batch env jobs m)
        λ r. (r.0 ≡ length jobs) × Overcounted m.ctx.io_queue_depth n jobs m r.1
unfolding submit_batch fail_rest
submit_batch-split env n [] m splits h v = absurd (omega arith)
submit_batch-split env n (job ∷ jobs) m splits h v =
    let m1 = part n (job ∷ jobs) m in
    let m2 = launch (drop n (job ∷ jobs)) m1 in
    rw (rounds_part env 4 n (job ∷ jobs) m h (omega (arith, v.slots)) (splits.0 (job ∷ jobs))) (
      rw
        (rounds_all env 3 (drop n (job ∷ jobs)) m1 (omega (arith, length-drop n (job ∷ jobs)))
          (splits.1 (drop n (job ∷ jobs))))
        (elim (Bool-cases (ltb m2.request_queue_size m2.config.max_request_queue_size)) [
          | inl room ↦ rw room (
            omega arith,
            split-Overcounted env n (suc m2.request_space_wakeups) (job ∷ jobs) m v h,
          )
          | inr full ↦
              rw full
                (omega arith, split-Overcounted env n m2.request_space_wakeups (job ∷ jobs) m v h)
        ]))
