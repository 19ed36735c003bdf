-- ===== src/Exchange.antt =====
-- The exchange of a request and its reply between NetworkXioClient.cpp and NetworkXioIOHandler.cpp in
-- src/networkxio: what is put into the messages, and what is taken out of them.
pub mod Answers
pub mod Reads
use gobjfs.Base.{
  ℕ, ◌^◌, ℤ, pos, neg, Bool, true, false, List, Option, none, some, eq_ℤ, is_negative, ◌&&◌, not,
  if◌then◌else◌, Outcome, done, ◌>>=◌,
}
use gobjfs.Server.{Opcode, noop, open_req, close_req, read_req, Message, Reply, Request, Net}
use gobjfs.Server.Handler.{process_request, complete_read}
use gobjfs.Server.Steps.{new_request}
use gobjfs.Client.Credits.{Link, on_response}
use gobjfs.Protocol.{Msgpack, Msg, new_msg, pack_msg, unpack_msg}

-- The message of `xio_send_open_request`, with its address as its tag.
unfoldable pub open_message : ℕ → Msg
unfolding new_msg
open_message tag = record (new_msg open_req) { opaque = tag }

-- Of `xio_send_read_request`.
unfoldable pub read_message : ℕ → List ℕ → ℕ → ℕ → Msg
unfolding new_msg
read_message tag filename size offset = record (new_msg read_req) {
  opaque = tag;
  size = size;
  offset = offset;
  filename = filename;
}

-- Of `xio_send_close_request`.
unfoldable pub close_message : ℕ → Msg
unfolding new_msg
close_message tag = record (new_msg close_req) { opaque = tag }

-- What the server's handler reads of a message.
abbrev pub received : Msg → Message
received m = record {
  opcode = m.opcode;
  filename = m.filename;
  size = m.size;
  offset = m.offset;
  opaque = m.opaque;
}

abbrev pub unpacked : Option Msg → Option Message
unpacked none = none
unpacked (some m) = some (received m)

-- `pack_msg` in NetworkXioIOHandler.cpp
unfoldable pub reply_message : Reply → Msg
unfolding new_msg
reply_message r = record (new_msg r.opcode) {
  retval = r.retval;
  errval = r.errval;
  opaque = r.opaque;
}

module _ (M : Msgpack) where
  -- `xio_msg_prepare`: the header of a message.
  unfoldable pub xio_msg_prepare : Msg → List ℕ
  xio_msg_prepare m = pack_msg M m

  -- A network whose messages are packed by this msgpack.
  abbrev pub packed_by : Net → Net
  packed_by net = record net { unpack = λ bytes. unpacked (unpack_msg M bytes (new_msg noop)) }

  abbrev pub packed_reply : Option Reply → Option (List ℕ)
  packed_reply none = none
  packed_reply (some r) = some (pack_msg M (reply_message r))

  abbrev pub reply_to_read : ℤ → Bool × Request → Outcome (Option Reply)
  reply_to_read code (true, req) = done req.s_msg
  reply_to_read code (false, req) = complete_read code req >>= λ r. done r.s_msg

  -- The server's reply to the header of a request, in bytes: at once, or when the read that is under way
  -- ends with a code.
  unfoldable pub answer : Net → ℕ → ℕ → ℤ → List ℕ → Outcome (Option (List ℕ))
  answer net id c code header =
      (process_request (packed_by net) (new_request id c header) >>= reply_to_read code)
      >>= λ reply. done (packed_reply reply)

  -- `on_response` on a reply's header. A reply that can not be unpacked is dropped.
  unfoldable pub on_reply : List ℕ → Link → Outcome Link
  on_reply bytes s = elim (unpack_msg M bytes (new_msg noop)) [
    | none ↦ done s
    | some m ↦ on_response m.opaque m.retval m.errval s
  ]
