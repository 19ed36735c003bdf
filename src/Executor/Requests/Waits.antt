-- ===== src/Executor/Requests/Waits.antt =====
-- Serving the request queue when no slot is free.
use gobjfs.Base.{
  ◌≡◌, refl, [], arith, Ends, Returns-Ends, Returns-map, inl, inr, Bool-cases, ltb, ltb→lt, fault,
  Fault,
}
use gobjfs.Executor.{Machine, Env}
use gobjfs.Executor.Invariant.{Inv, IsRising}
use gobjfs.Executor.Requests.{process_request_queue}
use gobjfs.Executor.Requests.Accounting.{process_request_queue-QueueServed}
use gobjfs.Executor.Requests.Launching.{IsSteady}

pub process_request_queue-waits :
    (env : Env) (m : Machine)
    → m.ctx_cond ≡ 0
    → process_request_queue env m ≡ fault Fault.would_block
unfolding process_request_queue
process_request_queue-waits env m none = rw none refl

pub process_request_queue-Ends :
    (env : Env) (m : Machine)
    → IsRising env
    → IsSteady env
    → Inv env 0 [] m
    → Ends (process_request_queue env m) λ r. Inv env 0 [] r.1
process_request_queue-Ends env m rising steady v = elim (Bool-cases (ltb 0 m.ctx.num_available)) [
  | inl free ↦
      Returns-Ends (process_request_queue env m) (λ r. Inv env 0 [] r.1)
        (Returns-map (process_request_queue env m) _ _
          (process_request_queue-QueueServed env m rising steady v (ltb→lt _ _ free))
          λ r q. q.accounts)
  | inr none_free ↦ rw (process_request_queue-waits env m (ground (arith, v.permits))) tt
]
