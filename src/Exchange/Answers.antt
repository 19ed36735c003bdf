-- ===== src/Exchange/Answers.antt =====
-- What the server answers to a read.
use gobjfs.Base.{
  ℕ, ◌≡◌, ℤ, pos, neg, List, some, eq_ℤ, is_negative, ◌&&◌, not, if◌then◌else◌, eio, enomem, arith,
  done, ◌>>=◌, true,
}
use gobjfs.Util.Align.{is_direct_io_aligned}
use gobjfs.Server.{read_rsp, Reply, Request, Net}
use gobjfs.Server.Handler.{complete_read, handle_message, handle_read, read_into, pack_msg}
use gobjfs.Server.Handler.Replies.{free_batch-aligned}
use gobjfs.Protocol.{Msgpack}
use gobjfs.Exchange.{read_message, received, reply_to_read}

-- The result and the error of a read, if it comes to the file interface and ends there with a code.
abbrev pub read_outcome : Net → List ℕ → ℕ → ℕ → ℤ → ℤ × ℤ
read_outcome net filename size offset code =
    if not net.has_service
    then (neg 1, pos eio)
    else (if is_negative (net.mempool_alloc size) && is_negative (net.mem_alloc size)
        then (neg 1, pos enomem)
        else (if not (eq_ℤ (net.file_read filename size offset) (pos 0))
            then (neg 1, pos eio)
            else (if eq_ℤ code (pos 0) then (pos size, pos 0) else (neg 1, code))))

abbrev pub read_reply : ℕ → ℤ × ℤ → Reply
read_reply tag (retval, errval) = record {
  opcode = read_rsp;
  retval = retval;
  errval = errval;
  opaque = tag;
}

-- What the handler makes of a request whose header is unpacked to a read at an aligned offset.
pub handled_read :
    (M : Msgpack) (net : Net) (tag size offset : ℕ) (filename : List ℕ) (code : ℤ) (req : Request)
    → is_direct_io_aligned offset ≡ true
    → (handle_message net
          (received (read_message tag filename size offset))
          (record req { opaque = tag })
        >>= reply_to_read M code)
      ≡ done (some (read_reply tag (read_outcome net filename size offset code)))
unfolding handle_message handle_read read_into complete_read pack_msg read_message
handled_read M net tag size offset filename code req even =
    ground (arith, free_batch-aligned offset size even)
