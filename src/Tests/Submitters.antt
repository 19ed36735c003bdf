-- ===== src/Tests/Submitters.antt =====
-- The submitter thread on concrete executors.
use gobjfs.Base.{ℕ, ◌≤◌, refl, false, [], arith, Returns, replicate}
use gobjfs.Executor.Submitter.{Submitter, execute_loop}
use gobjfs.Executor.Submitter.Barrier.{execute_loop-LetsThrough, quiet, LetsThrough}
use gobjfs.Tests.Data.{calm, loaded}

-- One request is in the queue, where the barrier asks for 16.
abbrev waiting_for_more : Submitter
waiting_for_more = record {
  machine = record loaded { min_submit_size = 16 };
  processed_in_loop = [];
  request_queue_low1 = 0;
  request_queue_low2 = 0;
  waiting = false;
}

let_through_example :
    (j : ℕ) × (j ≤ 5)
    × Returns
        (execute_loop calm (replicate j (quiet 5)) waiting_for_more)
        (λ t. LetsThrough waiting_for_more.machine t.machine)
let_through_example =
    execute_loop-LetsThrough calm 5 5 waiting_for_more (omega arith) (omega arith) (omega arith)
      refl
