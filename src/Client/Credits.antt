-- ===== src/Client/Credits.antt =====
-- NetworkXioClient: the credits of a connection and the queues of its messages.
-- The source counts the credits that are left, in `nr_req_queue`, which falls below 0 while callers
-- wait; here `taken` is the number that is taken, so that `nr_req_queue` is `depth - taken`.
-- A message is its address, which is also the tag that the server sends back.
pub mod Bounds
pub mod Starvation
use gobjfs.Base.{
  ℕ, suc, ◌+◌, ◌-◌, ℤ, pos, neg, Bool, true, false, List, [], ◌∷◌, ◌++◌, Option, none, some, leb,
  ◌==◌, is_negative, if◌then◌else◌, u64, eio, Outcome, done, fault, Fault, ◌>>=◌, ◌>>◌, demand, ltb,
}

-- What `ovs_xio_aio_complete_request` is told about a message's request.
pub record Completed : Type 0 where
  pub message : ℕ
  pub retval : ℤ
  pub errval : ℤ

-- `waiting` are the callers that sleep in `req_queue_wait_until`, `inflight` the queue of the loop,
-- `sent` what the network library has; `timeouts` counts the exceptions that callers got.
pub record Link : Type 0 where
  pub depth : ℕ
  pub taken : ℕ
  pub waiting : List ℕ
  pub inflight : List ℕ
  pub sent : List ℕ
  pub completed : List Completed
  pub timeouts : ℕ
  pub num_queued : ℕ
  pub num_failed : ℕ
  pub num_completed : ℕ

unfoldable pub new_link : ℕ → Link
new_link depth = record {
  depth = depth;
  taken = 0;
  waiting = [];
  inflight = [];
  sent = [];
  completed = [];
  timeouts = 0;
  num_queued = 0;
  num_failed = 0;
  num_completed = 0;
}

unfoldable pub remove : ℕ → List ℕ → Option (List ℕ)
remove id [] = none
remove id (x ∷ xs) =
    let rest = remove id xs in
    if x == id then some xs else elim rest [ none ↦ none | some others ↦ some (x ∷ others) ]

unfoldable pub push_request : ℕ → Link → Link
push_request id s = record s {
  inflight = s.inflight ++ id ∷ [];
  num_queued = u64 (s.num_queued + 1);
}

-- `xio_send_read_request` and its two siblings: a credit is taken, and the message is pushed at once or
-- the caller waits until `nr_req_queue >= 0`.
unfoldable pub send_request : ℕ → Link → Link
unfolding push_request
send_request id s =
    let s' = record s { taken = s.taken + 1 } in
    if leb s'.taken s'.depth
    then push_request id s'
    else record s' { waiting = s.waiting ++ id ∷ [] }

-- A caller that waits wakes up. Where the credits are still below 0 it sleeps on.
unfoldable pub wake_up : ℕ → Link → Link
unfolding push_request remove
wake_up id s = elim (remove id s.waiting) [
  | none ↦ s
  | some others ↦ if leb s.taken s.depth then push_request id (record s { waiting = others }) else s
]

-- After 60 seconds it gets an exception instead. The credit stays taken.
unfoldable pub time_out : ℕ → Link → Link
unfolding remove
time_out id s = elim (remove id s.waiting) [
  | none ↦ s
  | some others ↦
      if leb s.taken s.depth then s else record s { waiting = others; timeouts = suc s.timeouts }
]

unfoldable pub req_queue_release : Link → Outcome Link
req_queue_release s =
    demand (ltb 0 s.taken) Fault.negative_size >> done (record s { taken = s.taken - 1 })

-- For a request that is there.
unfoldable pub update_stats : Bool → Link → Link
update_stats req_failed s = record s {
  num_failed = if req_failed then u64 (s.num_failed + 1) else s.num_failed;
  num_completed = u64 (s.num_completed + 1);
}

-- The statistics, the completion of the request, and its credit.
pub finish_request : ℕ → ℤ → ℤ → Bool → Link → Outcome Link
unfolding update_stats req_queue_release
finish_request id retval errval failed s =
    let s' = update_stats failed s in
    req_queue_release (record s' {
      completed = record { message = id; retval = retval; errval = errval } ∷ s'.completed;
    })

-- The loop hands the message at the front to the network library, which answers a code.
unfoldable pub send_front : ℤ → List ℕ → Link → Outcome Link
unfolding finish_request
send_front code [] s = done s
send_front code (id ∷ rest) s =
    let s' = record s { inflight = rest } in
    if is_negative code
    then finish_request id (neg 1) (pos eio) true s'
    else done (record s' { sent = s.sent ++ id ∷ [] })

unfoldable pub run_loop : ℤ → Link → Outcome Link
unfolding send_front
run_loop code s = send_front code s.inflight s

-- `on_response`, for a reply that can be unpacked. A tag that is not under way is no message's address.
unfoldable pub on_response : ℕ → ℤ → ℤ → Link → Outcome Link
unfolding finish_request remove
on_response id retval errval s = elim (remove id s.sent) [
  | none ↦ fault Fault.use_after_free
  | some others ↦ finish_request id retval errval (is_negative retval) (record s { sent = others })
]

unfoldable pub on_msg_error : ℕ → Link → Outcome Link
unfolding finish_request remove
on_msg_error id s = elim (remove id s.sent) [
  | none ↦ fault Fault.use_after_free
  | some others ↦ finish_request id (neg 1) (pos eio) true (record s { sent = others })
]

-- `shutdown`: what is in the queue is deleted.
unfoldable pub shutdown : Link → Link
shutdown s = record s { inflight = [] }
