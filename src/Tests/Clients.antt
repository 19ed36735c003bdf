-- ===== src/Tests/Clients.antt =====
-- The client on concrete connections and requests.
use gobjfs.Base.{
  ◌≡◌, refl, pos, negsuc, neg, false, [], ◌∷◌, arith, none, some, done, fault, Fault, Returns,
  eagain, einprogress, ◌⊎◌,
}
use gobjfs.Client.Credits.{Link, send_request, wake_up, remove, on_response}
use gobjfs.Client.Credits.Bounds.{Balanced, responds, handle, handle-Balanced}
use gobjfs.Client.Credits.Starvation.{IsStarved, Later, at_once, then_event, IsStarved-for_good}
use gobjfs.Client.Aio.{
  ctx_attr_new, ctx_attr_set_transport, ctx_new, create_new_request, complete_request, aio_error,
  aio_return, aio_suspend, aio_suspend_for, read_result, tcp_name, TransportType, is_empty_text,
}
use gobjfs.Client.Aio.Results.{
  complete_request-answered, complete_request-failed, ctx_new-ctx_attr_set_transport,
}
use gobjfs.Base.{true, List, Option, Bool, ltb, ◌||◌, is_negative, if◌then◌else◌}
use gobjfs.Client.Aio.{CtxAttr, ClientCtx}
use gobjfs.Client.Vectors.{
  Giocb, Sending, sent, Entry, live, Vector, new_entry, aio_readv, complete_entry, aio_suspendv,
}
use gobjfs.Client.Vectors.Waiting.{
  Answered, none_yet, one_more, pending, summary, aio_suspendv-aio_readv,
}
use gobjfs.Client.Opening.{Reach, ctx_init}
use gobjfs.Client.Opening.Answers.{open_answer, ctx_init-ctx_new}
use gobjfs.Client.Completions.{
  Completion, new_completion, aio_create_completion, aio_return_completion, by_time, never,
  aio_wait_completion, complete_with,
}
use gobjfs.Client.Completions.Waits.{
  Used, begun, completed, Used-aio_return_completion, Used-aio_wait_completion,
}

-- One credit, taken by a message under way, and two callers that wait.
abbrev crowded : Link
crowded = record {
  depth = 1;
  taken = 3;
  waiting = 21 ∷ 22 ∷ [];
  inflight = [];
  sent = 20 ∷ [];
  completed = [];
  timeouts = 0;
  num_queued = 1;
  num_failed = 0;
  num_completed = 0;
}

crowded-Balanced : Balanced crowded
crowded-Balanced = record { credits = refl; within = omega arith }

sent_removed : remove 20 crowded.sent ≡ some []
unfolding remove
sent_removed = refl

handle_link_example : Returns (handle (responds 20 (pos 512) (pos 0)) crowded) Balanced
handle_link_example =
    handle-Balanced (responds 20 (pos 512) (pos 0)) crowded crowded-Balanced ([], sent_removed)

-- The message under way is answered.
abbrev answered : Link
answered = record crowded {
  taken = 2;
  sent = [];
  completed = record { message = 20; retval = pos 512; errval = pos 0 } ∷ [];
  num_completed = 1;
}

answered-Later : Later crowded answered
unfolding handle on_response
answered-Later = then_event (responds 20 (pos 512) (pos 0)) at_once ([], sent_removed) refl

starved_example :
    IsStarved answered
    × (wake_up 21 answered ≡ answered)
    × ((send_request 21 answered).inflight ≡ answered.inflight)
starved_example =
    IsStarved-for_good crowded answered 21 crowded-Balanced (omega arith) answered-Later

answered_example :
    (aio_error (create_new_request 1) ≡ pos einprogress)
    × (aio_suspend (create_new_request 1) ≡ fault Fault.would_block)
    × Returns (complete_request (pos 4096) (pos 0) (create_new_request 1)) λ r.
      (aio_error r ≡ pos 0)
      × (aio_suspend r ≡ done (pos 0, pos 0))
      × (read_result r ≡ done (pos 4096))
      × (aio_suspend_for false r ≡ (neg 1, pos eagain))
answered_example = complete_request-answered 4096 (omega arith)

failed_example :
    Returns
      (complete_request (negsuc 0) (pos 5) (create_new_request 1))
      (λ r. (aio_error r ≡ pos 5) × (aio_return r ≡ neg 5) × (read_result r ≡ done (neg 1)))
    × Returns
        (complete_request (negsuc 0) (neg 5) (create_new_request 1))
        (λ r. (aio_error r ≡ neg 5) × (aio_return r ≡ neg 5) × (read_result r ≡ done (neg 1)))
failed_example = complete_request-failed 0 5 (omega arith)

transport_example :
    let r = ctx_attr_set_transport (some ctx_attr_new) tcp_name (104 ∷ []) (pos 80) in
    ((r.0 ≡ pos 0)
      × (is_empty_text (104 ∷ []) ≡ false)
      × ((t : TransportType) × (ctx_new (r.2)
            ≡ (0, some (record { transport = t; host = 104 ∷ []; port = pos 80 })))))
    ⊎ ((r.0 ≡ neg 1) × ((ctx_new (r.2)).1 ≡ none))
transport_example = ctx_new-ctx_attr_set_transport tcp_name (104 ∷ []) (pos 80)

-- A vector of two reads, of which the first is answered.
abbrev two_giocbs : List (Option Giocb × Bool × Sending)
two_giocbs =
    (some (record { nbytes = 512; offset = pos 0 }), true, sent)
    ∷ (some (record { nbytes = 512; offset = pos 512 }), true, sent)
    ∷ []

abbrev done_entry : Entry
done_entry = record {
  completed = true;
  signaled = true;
  failed = false;
  errno = pos 0;
  rv = pos 512;
}

abbrev two_requests : Vector
two_requests = record { count = 2; slots = live new_entry ∷ live new_entry ∷ [] }

abbrev one_answered : Vector
one_answered = record { count = 1; slots = live done_entry ∷ live new_entry ∷ [] }

two_read : aio_readv 2 true two_giocbs ≡ done (pos 0, some two_requests)
unfolding aio_readv
two_read = refl

one_answered-Answered : Answered two_requests one_answered
unfolding complete_entry new_entry
one_answered-Answered = one_more 0 (pos 512) (pos 0) none_yet (new_entry, refl, refl) refl

suspendv_example : aio_suspendv one_answered ≡ (
    if is_negative (pos 0) || ltb 0 (pending one_answered.slots)
    then fault Fault.would_block
    else done (summary one_answered.slots))
suspendv_example =
    aio_suspendv-aio_readv 2 true two_giocbs (pos 0) two_requests one_answered two_read
      one_answered-Answered refl

-- A connection that can not be made.
-- The server answers with an error.
abbrev refusing : Reach
refusing = record {
  connects = true;
  has_memory = true;
  sending = sent;
  retval = neg 1;
  errval = pos 5;
}

abbrev tcp_attr : CtxAttr
tcp_attr = record { transport = TransportType.tcp; host = 104 ∷ []; port = pos 21321 }

abbrev tcp_ctx : ClientCtx
tcp_ctx = record { transport = TransportType.tcp; host = 104 ∷ []; port = pos 21321 }

tcp_made : (ctx_new (some tcp_attr)).1 ≡ some tcp_ctx
unfolding ctx_new
tcp_made = refl

ctx_init_example : ctx_init false (some tcp_ctx) refusing ≡ (
    if refusing.connects
    then done (open_answer refusing.sending refusing.retval refusing.errval)
    else fault Fault.null_dereference)
ctx_init_example = ctx_init-ctx_new tcp_attr tcp_ctx refusing tcp_made refl

-- A completion whose request is answered.
abbrev completed_one : Completion
completed_one = record new_completion { on_wait = true; rv = pos 512; calls = 1 }

made_completion : (aio_create_completion true true).1 ≡ some new_completion
unfolding aio_create_completion
made_completion = refl

completed_one-Used : Used new_completion completed_one
unfolding complete_with
completed_one-Used = completed (pos 512) begun refl

return_completion_example : aio_return_completion (some completed_one) ≡ (neg 1, 0)
return_completion_example = Used-aio_return_completion made_completion completed_one-Used

abbrev timed_out : Completion
timed_out = record new_completion { on_wait = true }

time_over : aio_wait_completion by_time (some new_completion) ≡ done (neg 1, eagain, some timed_out)
unfolding aio_wait_completion
time_over = refl

wait_again_example : aio_wait_completion never (some timed_out) ≡ done (pos 0, 0, some timed_out)
wait_again_example =
    Used-aio_wait_completion by_time never (neg 1) eagain new_completion time_over begun
