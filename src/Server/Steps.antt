-- ===== src/Server/Steps.antt =====
-- The steps of the server's threads on its state: the network thread, the workers of the work queue
-- and the completion threads.
use gobjfs.Base.{
  ℕ, suc, ◌-◌, ℤ, pos, Bool, true, false, List, [], ◌∷◌, ◌++◌, Option, none, some, ltb, ◌==◌, ◌&&◌,
  eq_ℤ, if◌then◌else◌, Outcome, done, fault, Fault, ◌>>=◌, ◌>>◌, demand,
}
use gobjfs.Server.{Opcode, noop, read_rsp, Request, Client, Server, Net, set_client}
use gobjfs.Server.Handler.{process_request, complete_read}

-- The data of a client that was deleted must not be touched.
abbrev pub client_at : ℕ → Server → Outcome Client
client_at c s = elim (s.clients c) [ none ↦ fault Fault.use_after_free | some d ↦ done d ]

-- `create_session_connection`: new data, at an address where none is.
unfoldable pub create_session_connection : ℕ → Server → Server
create_session_connection c s = record s {
  clients =
      set_client c (some (record { disconnected = false; refcnt = 0; done_reqs = [] })) s.clients;
}

-- The data is deleted, with the connection and the handler.
abbrev pub delete_client : ℕ → Server → Server
delete_client c s = record s { clients = set_client c none s.clients; deleted = c ∷ s.deleted }

abbrev pub put_client : ℕ → Client → Server → Server
put_client c d s = record s { clients = set_client c (some d) s.clients }

unfoldable pub destroy_session_connection : ℕ → Server → Outcome Server
destroy_session_connection c s = do
  d ← client_at c s
  done (
      if d.refcnt == 0
      then delete_client c s
      else put_client c (record d { disconnected = true }) s)

-- `allocate_request`, for a message of a client.
abbrev pub new_request : ℕ → ℕ → List ℕ → Request
new_request id c header = record {
  id = id;
  client = c;
  header = header;
  op = noop;
  has_data = false;
  data_len = 0;
  size = 0;
  offset = 0;
  retval = pos 0;
  errval = pos 0;
  opaque = 0;
  from_pool = true;
  s_msg = none;
}

-- `on_request`: the request is counted and given to the work queue.
unfoldable pub on_request : ℕ → ℕ → List ℕ → Server → Outcome Server
on_request id c header s = do
  d ← client_at c s
  done (record (put_client c (record d { refcnt = suc d.refcnt }) s) {
    inflight = s.inflight ++ new_request id c header ∷ [];
  })

-- `free_request`. The reference count is unsigned: it must not be decremented at 0.
unfoldable pub free_request : Request → Server → Outcome Server
free_request req s = do
  d ← client_at req.client s
  demand (ltb 0 d.refcnt) Fault.negative_size
  done (
      if d.disconnected && d.refcnt == 1
      then delete_client req.client s
      else put_client req.client (record d { refcnt = d.refcnt - 1 }) s)

abbrev pub is_read_rsp : Opcode → Bool
is_read_rsp read_rsp = true
is_read_rsp _ = false

-- `deallocate_request`: the buffer goes back first.
unfoldable pub deallocate_request : Request → Server → Outcome Server
unfolding free_request
deallocate_request req s =
    free_request req (
      if is_read_rsp req.op && req.has_data then record s { released = req.id ∷ s.released } else s)

module _ (net : Net) where
  -- A worker takes a request from the queue.
  unfoldable pub work_on : List Request → Server → Outcome Server
  work_on [] s = done s
  work_on (req ∷ rest) s = do
    (finish_now, req') ← process_request net req
    done (
        if finish_now
        then record s { inflight = rest; finished = s.finished ++ req' ∷ [] }
        else record s { inflight = rest; reading = s.reading ++ req' ∷ [] })

  unfoldable pub work : Server → Outcome Server
  unfolding work_on
  work s = work_on s.inflight s

  -- The first finished request is answered. If the reply can not be sent the request is freed.
  unfoldable pub reply_to : List Request → Server → Outcome Server
  unfolding deallocate_request
  reply_to [] s = done s
  reply_to (req ∷ rest) s =
      let s' = record s { finished = rest } in
      if eq_ℤ (net.send_response req) (pos 0)
      then (do
        d ← client_at req.client s'
        done (put_client req.client (record d { done_reqs = d.done_reqs ++ req ∷ [] }) s'))
      else deallocate_request req s'

  unfoldable pub send_reply : Server → Outcome Server
  unfolding reply_to
  send_reply s = reply_to s.finished s

-- The read of a request is done: the first with its address leaves the requests that are being read.
unfoldable pub take_request : ℕ → List Request → Option (Request × List Request)
take_request id [] = none
take_request id (req ∷ reqs) =
    let rest = take_request id reqs in
    if req.id == id
    then some (req, reqs)
    else elim rest [ none ↦ none | some (found, others) ↦ some (found, req ∷ others) ]

-- The batch is freed before the reply is made.
unfoldable pub finish_read : ℕ → ℤ → Server → Outcome Server
unfolding take_request
finish_read id error_code s = elim (take_request id s.reading) [
  | none ↦ fault Fault.use_after_free
  | some (req, others) ↦ complete_read error_code req >>= λ req'.
      done (record s { reading = others; finished = s.finished ++ req' ∷ [] })
]

-- `on_msg_send_complete`: the front of an empty list is undefined.
unfoldable pub on_msg_send_complete : ℕ → Server → Outcome Server
unfolding deallocate_request
on_msg_send_complete c s = do
  d ← client_at c s
  elim d.done_reqs [
    | [] ↦ fault Fault.null_dereference
    | req ∷ rest ↦ deallocate_request req (put_client c (record d { done_reqs = rest }) s)
  ]
