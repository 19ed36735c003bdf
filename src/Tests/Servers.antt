-- ===== src/Tests/Servers.antt =====
-- The server on concrete events.
use gobjfs.Base.{
  ◌+◌, ◌≡◌, ◌≢◌, refl, pos, true, false, [], ◌∷◌, ◌++◌, length, none, some, Returns, ◌⊎◌, fault,
  Fault,
}
use gobjfs.Server.{read_req, Message, Request, Client, Server, Net, set_client, owned}
use gobjfs.Server.Handler.{process_request}
use gobjfs.Server.Handler.Replies.{Handled, process_request_lem}
use gobjfs.Server.Steps.{
  new_request, create_session_connection, destroy_session_connection, on_request,
}
use gobjfs.Server.Lifetime.{IsAccounted}
use gobjfs.Server.Lifetime.Runs.{
  connects, disconnects, message, works, handle, idle, Reached, at_start, after, Reached-handle,
  Reached-deleted, AboutUnaligned,
}

abbrev wanted : Message
wanted = record { opcode = read_req; filename = 97 ∷ []; size = 4096; offset = 512; opaque = 77 }

abbrev net : Net
net = record {
  has_service = true;
  unpack = λ header. some wanted;
  mempool_alloc = λ size. pos 0;
  mem_alloc = λ size. pos 0;
  file_read = λ name size offset. pos 0;
  send_response = λ req. pos 0;
}

abbrev first_request : Request
first_request = new_request 5 1 (9 ∷ [])

process_request_example : Handled net wanted first_request (process_request net first_request)
process_request_example = process_request_lem net first_request wanted refl

abbrev joined : Server
joined = create_session_connection 1 idle

joined-Reached : Reached net joined
unfolding handle
joined-Reached = after (connects 1) at_start refl refl

abbrev new_client : Client
new_client = record { disconnected = false; refcnt = 0; done_reqs = [] }

joined-client : joined.clients 1 ≡ some new_client
unfolding create_session_connection
joined-client = refl

abbrev asked : Server
asked = record joined {
  clients = set_client 1 (some (record new_client { refcnt = 1 })) joined.clients;
  inflight = joined.inflight ++ first_request ∷ [];
}

asked-Reached : Reached net asked
unfolding handle on_request create_session_connection
asked-Reached = after (message 5 1 (9 ∷ [])) joined-Reached (new_client, joined-client) refl

handle_example :
    Returns (handle net works asked) (IsAccounted [])
    ⊎ ((handle net works asked ≡ fault Fault.assert_failed) × AboutUnaligned net works asked)
handle_example = Reached-handle net works asked asked-Reached tt

abbrev parted : Server
parted = record joined { clients = set_client 1 none joined.clients; deleted = 1 ∷ joined.deleted }

parted-Reached : Reached net parted
unfolding handle destroy_session_connection create_session_connection
parted-Reached = after (disconnects 1) joined-Reached (new_client, joined-client, refl) refl

abbrev old_client : Client
old_client = record { disconnected = true; refcnt = 0; done_reqs = [] }

parted-none :
    owned 1 parted.inflight
      + owned 1 parted.reading
      + owned 1 parted.finished
      + length old_client.done_reqs
    ≡ 0
unfolding create_session_connection
parted-none = refl

deleted_example : parted.clients 1 ≢ some old_client
deleted_example = Reached-deleted net parted 1 old_client parted-Reached parted-none refl
