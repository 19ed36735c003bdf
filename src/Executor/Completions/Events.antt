-- ===== src/Executor/Completions/Events.antt =====
-- The accounts of the executor after each event of `IOExecutor::ProcessCompletions`.
use gobjfs.Base.{
  [], length, Ends, Returns-Ends, Ends->>=, Returns-map, inl, inr, Bool-cases, ltb, leb, ◌&&◌,
}
use gobjfs.Executor.{Machine, Env}
use gobjfs.Executor.Invariant.{Inv, IsRising}
use gobjfs.Executor.Requests.{process_request_queue}
use gobjfs.Executor.Requests.Launching.{IsSteady}
use gobjfs.Executor.Requests.Waits.{process_request_queue-Ends}
use gobjfs.Executor.Completions.{
  Event, abnormal, unknown, shutdown, timer, completed, handle_event, serve_if_final,
  process_callbacks, is_final,
}
use gobjfs.Executor.Completions.Callbacks.{process_callbacks-answers, Reapable}

-- The kernel reports jobs that are in flight.
abbrev pub IsDelivered : Event → Machine → Type 0
IsDelivered (completed events) m = Reapable events m.in_flight
IsDelivered _ m = Unit

serve_if_final-Ends :
    (env : Env) (m : Machine)
    → IsRising env
    → IsSteady env
    → Inv env 0 [] m
    → Ends (serve_if_final env m) (Inv env 0 [])
unfolding serve_if_final
serve_if_final-Ends env m rising steady v = elim (Bool-cases (is_final m.state)) [
  | inl final ↦ rw final (
      Ends->>= (process_request_queue env m) _ _ (Inv env 0 [])
        (process_request_queue-Ends env m rising steady v) λ r w. w)
  | inr going ↦ rw going v
]

pub handle_event-Ends :
    (env : Env) (event : Event) (m : Machine)
    → IsRising env
    → IsSteady env
    → Inv env 0 [] m
    → IsDelivered event m
    → Ends (handle_event env event m) (Inv env 0 [])
unfolding handle_event
handle_event-Ends env abnormal m rising steady v d = v
handle_event-Ends env unknown m rising steady v d = v
handle_event-Ends env shutdown m rising steady v d = serve_if_final-Ends env m rising steady v
handle_event-Ends env timer m rising steady v d = elim (Bool-cases m.config.no_submitter_thread) [
  | inl alone ↦ simp alone (serve_if_final-Ends env m rising steady v)
  | inr other ↦ simp other v
]
handle_event-Ends env (completed events) m rising steady v d =
    elim (Bool-cases (ltb 0 (length events) && leb (length events) m.ctx.io_queue_depth)) [
      | inl fits ↦ rw fits (
          Returns-Ends (process_callbacks env events m) _ (
            Returns-map (process_callbacks env events m) _ (Inv env 0 [])
              (process_callbacks-answers env events m rising v d) λ m' a. a.0))
      | inr bad ↦ rw bad tt
    ]
