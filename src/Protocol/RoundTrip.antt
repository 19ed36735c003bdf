-- ===== src/Protocol/RoundTrip.antt =====
-- Packing and unpacking a message.
use gobjfs.Base.{◌^◌, ◌<◌, ◌≡◌, refl, pos, some, arith}
use gobjfs.Server.{
  Opcode, noop, open_req, open_rsp, close_req, close_rsp, read_req, read_rsp, error_rsp,
  shutdown_rsp,
}
use gobjfs.Protocol.{
  Msgpack, IsMsgpack, InRange, Msg, opcode_number, opcode_of, fields, pack_msg, convert, unpack_msg,
}

-- The fields hold values of their C++ types.
pub record IsWord (m : Msg) : Type 0 where
  pub size : m.size < 2 ^ 64
  pub offset : m.offset < 2 ^ 64
  pub retval : InRange 63 m.retval
  pub errval : InRange 31 m.errval
  pub opaque : m.opaque < 2 ^ 64
  pub timeout : InRange 63 m.timeout

opcode_of-number : (op : Opcode) → opcode_of (pos (opcode_number op)) ≡ op
opcode_of-number noop = refl
opcode_of-number open_req = refl
opcode_of-number open_rsp = refl
opcode_of-number close_req = refl
opcode_of-number close_rsp = refl
opcode_of-number read_req = refl
opcode_of-number read_rsp = refl
opcode_of-number error_rsp = refl
opcode_of-number shutdown_rsp = refl

opcode_number-InRange : (op : Opcode) → InRange 31 (pos (opcode_number op))
opcode_number-InRange op = ground arith

module _ (M : Msgpack) (lawful : IsMsgpack M) where
  -- A message whose fields fit their types is what its packed bytes are unpacked to, whatever message they
  -- are unpacked into.
  pub unpack_msg-pack_msg : (m old : Msg) → IsWord m → unpack_msg M (pack_msg M m) old ≡ some m
  unfolding unpack_msg pack_msg fields convert
  unpack_msg-pack_msg m old w =
      rw
        (
          lawful.decode-encode,
          lawful.int32 _ (opcode_number-InRange m.opcode),
          lawful.text,
          lawful.uint64 _ w.size,
          lawful.uint64 _ w.offset,
          lawful.int64 _ w.retval,
          lawful.int32 _ w.errval,
          lawful.uint64 _ w.opaque,
          lawful.int64 _ w.timeout,
          opcode_of-number,
        )
        refl
