-- ===== src/Server.antt =====
-- src/networkxio/NetworkXioServer.cpp, NetworkXioIOHandler.cpp and NetworkXioRequest.h: the server
-- that answers read requests, from a request's arrival to the end of its reply.
-- The children have the handler of requests, the steps of the server's threads, the life of a client's
-- data, the queue of requests, and the end of the server.
pub mod Handler
pub mod Steps
pub mod Lifetime
pub mod WorkQueue
pub mod IoThread
pub mod Ending
use gobjfs.Base.{ℕ, suc, ◌+◌, ℤ, Bool, List, [], ◌∷◌, Option, none, ◌==◌, if◌then◌else◌}

-- NetworkXioMsgOpcode
pub data Opcode : Type 0 where
  noop open_req open_rsp close_req close_rsp read_req read_rsp error_rsp shutdown_rsp : Opcode

-- A message from a client, unpacked.
pub record Message : Type 0 where
  pub opcode : Opcode
  pub filename : List ℕ
  pub size : ℕ
  pub offset : ℕ
  pub opaque : ℕ

-- What `pack_msg` makes of a request.
pub record Reply : Type 0 where
  pub opcode : Opcode
  pub retval : ℤ
  pub errval : ℤ
  pub opaque : ℕ

-- A NetworkXioRequest: `id` is its address and `client` that of its client's data.
pub record Request : Type 0 where
  pub id : ℕ
  pub client : ℕ
  pub header : List ℕ
  pub op : Opcode
  pub has_data : Bool
  pub data_len : ℕ
  pub size : ℕ
  pub offset : ℕ
  pub retval : ℤ
  pub errval : ℤ
  pub opaque : ℕ
  pub from_pool : Bool
  pub s_msg : Option Reply

-- A NetworkXioClientData.
pub record Client : Type 0 where
  pub disconnected : Bool
  pub refcnt : ℕ
  pub done_reqs : List Request

-- The server: the data of the clients that are there, by address; the requests that wait for a worker,
-- those that are being read, and those that are finished; the buffers that were given back, and the
-- clients whose data was deleted, newest first.
pub record Server : Type 0 where
  pub clients : ℕ → Option Client
  pub inflight : List Request
  pub reading : List Request
  pub finished : List Request
  pub released : List ℕ
  pub deleted : List ℕ

-- What the network library and the file interface answer: `unpack` a message or throws; the two
-- allocators a negative code on failure; `send_response` 0 or not; `file_read` the code of
-- IOExecFileRead.
pub record Net : Type 0 where
  pub has_service : Bool
  pub unpack : List ℕ → Option Message
  pub mempool_alloc : ℕ → ℤ
  pub mem_alloc : ℕ → ℤ
  pub file_read : List ℕ → ℕ → ℕ → ℤ
  pub send_response : Request → ℤ

abbrev pub set_client : ℕ → Option Client → (ℕ → Option Client) → ℕ → Option Client
set_client c d clients x = if x == c then d else clients x

-- How many of the requests are a client's.
abbrev pub owned : ℕ → List Request → ℕ
owned c [] = 0
owned c (r ∷ rs) = (if r.client == c then 1 else 0) + owned c rs
