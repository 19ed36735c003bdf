-- ===== src/Server/Handler.antt =====
-- NetworkXioIOHandler: what becomes of a request in the hands of a worker, and when its read is done.
pub mod Replies
use gobjfs.Base.{
  ℤ, pos, neg, Bool, true, false, Option, none, some, is_negative, eq_ℤ, ◌&&◌, not, if◌then◌else◌,
  eio, enomem, ebadmsg, ℕ, List, [], ◌∷◌, Outcome, done, ◌>>=◌, ◌>>◌,
}
use gobjfs.File.{Fragment}
use gobjfs.File.Batch.{batch_free}
use gobjfs.Server.{
  Opcode, noop, open_req, open_rsp, close_req, close_rsp, read_req, read_rsp, error_rsp, Message,
  Reply, Request, Net,
}

unfoldable pub pack_msg : Request → Request
pack_msg req = record req {
  s_msg =
      some
        (record { opcode = req.op; retval = req.retval; errval = req.errval; opaque = req.opaque });
}

unfoldable pub handle_open : Request → Request
unfolding pack_msg
handle_open req = pack_msg (record req { op = open_rsp; retval = pos 0; errval = pos 0 })

unfoldable pub handle_error : ℤ → Request → Request
unfolding pack_msg
handle_error errval req = pack_msg (record req { op = error_rsp; retval = neg 1; errval = errval })

abbrev fail_read : ℕ → Request → Request
fail_read errval req = record req { retval = neg 1; errval = pos errval }

-- The batch of one fragment that `handle_read` makes, when it is freed: its completion id is its address,
-- which is not null, and the address of its fragment was reset.
abbrev pub spent_batch : ℕ → ℕ → List Fragment
spent_batch offset size = record { completion_id = 1; offset = offset; size = size; addr = 0 } ∷ []

-- `gIOBatchFree` of it, which asserts that the offset is aligned.
unfoldable pub free_batch : ℕ → ℕ → Outcome (Unit {0})
unfolding batch_free
free_batch offset size = batch_free (some (spent_batch offset size)) [] >>= λ freed. done tt

module _ (net : Net) where
  unfoldable pub handle_close : Request → Request
  unfolding pack_msg
  handle_close req =
      let closed = record req { op = close_rsp } in
      pack_msg (
        if net.has_service
        then record closed { retval = pos 0; errval = pos 0 }
        else fail_read eio closed)

  -- The part of `handle_read` that has a buffer, from the pool or not. An exception there is not
  -- modelled: memset, the batch of one and the call do not throw.
  unfoldable pub read_into : Message → Bool → Request → Outcome (Bool × Request)
  unfolding pack_msg free_batch
  read_into msg from_pool req =
      let filled = record req {
        from_pool = from_pool;
        has_data = true;
        data_len = msg.size;
        size = msg.size;
        offset = msg.offset;
      } in
      if eq_ℤ (net.file_read msg.filename msg.size msg.offset) (pos 0)
      then done (false, filled)
      else free_batch msg.offset msg.size >> done (true, pack_msg (fail_read eio filled))

  -- Whether the request is finished now, and the request.
  unfoldable pub handle_read : Message → Request → Outcome (Bool × Request)
  unfolding read_into pack_msg
  handle_read msg req =
      let r = record req { op = read_rsp } in
      if not net.has_service
      then done (true, pack_msg (fail_read eio r))
      else (if not (is_negative (net.mempool_alloc msg.size))
          then read_into msg true r
          else (if not (is_negative (net.mem_alloc msg.size))
              then read_into msg false r
              else done (true, pack_msg (fail_read enomem r))))

  unfoldable pub handle_message : Message → Request → Outcome (Bool × Request)
  unfolding handle_open handle_close handle_read handle_error
  handle_message msg req = elim msg.opcode [
    | open_req ↦ done (true, handle_open req)
    | close_req ↦ done (true, handle_close req)
    | read_req ↦ handle_read msg req
    | _ ↦ done (true, handle_error (pos eio) req)
  ]

  unfoldable pub process_request : Request → Outcome (Bool × Request)
  unfolding handle_message handle_error
  process_request req = elim (net.unpack req.header) [
    | none ↦ done (true, handle_error (pos ebadmsg) req)
    | some msg ↦ handle_message msg (record req { opaque = msg.opaque })
  ]

abbrev with_status : ℤ → Request → Request
with_status error_code req =
    if eq_ℤ error_code (pos 0)
    then record req { retval = pos req.size; errval = pos 0 }
    else record req { retval = neg 1; errval = error_code }

-- `gxio_completion_handler`, for the status of the request's read: its batch is freed, and its reply made.
unfoldable pub complete_read : ℤ → Request → Outcome Request
unfolding pack_msg free_batch
complete_read error_code req =
    free_batch req.offset req.size >> done (pack_msg (with_status error_code req))
