-- ===== src/Client/Opening.antt =====
-- `ctx_init` in src/networkxio/gobjfs_client.cpp and `ovs_xio_open_device` in context.h.
-- The macro XXDone, which `ctx_init` leaves by, is empty unless the code is compiled with FUNC_TRACE.
pub mod Answers
use gobjfs.Base.{
  ℕ, ◌+◌, ℤ, pos, neg, Bool, true, false, Option, none, some, is_negative, if◌then◌else◌, einval,
  enomem, eio, Outcome, done, fault, Fault, ◌>>=◌, ◌>>◌, demand,
}
use gobjfs.Client.Aio.{
  AioRequest, ClientCtx, TransportType, create_new_request, complete_request, aio_suspend,
  aio_return,
}
use gobjfs.Client.Vectors.{Sending, sent, no_memory, thrown}

-- What becomes of the request to open: whether the connection is made, whether there is memory for the
-- request, what becomes of its message, and the server's reply.
pub record Reach : Type 0 where
  pub connects : Bool
  pub has_memory : Bool
  pub sending : Sending
  pub retval : ℤ
  pub errval : ℤ

-- The result, the errno that is set, 0 if it is left alone, and how many requests were made and never
-- deleted.
pub record OpenEnd : Type 0 where
  pub result : ℤ
  pub errno : ℤ
  pub leaked : ℕ

abbrev pub ends_with : ℤ → ℤ → ℕ → OpenEnd
ends_with result errno leaked = record { result = result; errno = errno; leaked = leaked }

-- `aio_suspend`, and where it returns 0 `aio_return`, which sets the errno too, and `aio_finish`.
abbrev open_sent : ℤ → ℤ → Outcome OpenEnd
open_sent retval errval = do
  r ← complete_request retval errval (create_new_request 1)
  s ← aio_suspend r
  done (if is_negative s.0 then ends_with s.0 s.1 1 else ends_with (aio_return r) r.errno 0)

-- The request is made before the connection is looked at. Where it can not be sent it is not deleted.
unfoldable pub ovs_xio_open_device : Bool → Reach → Outcome OpenEnd
unfolding complete_request create_new_request aio_suspend aio_return
ovs_xio_open_device has_client net =
    if net.has_memory
    then demand has_client Fault.null_dereference >> elim net.sending [
      | sent ↦ open_sent net.retval net.errval
      | no_memory ↦ done (ends_with (neg 1) (pos enomem) 1)
      | thrown ↦ done (ends_with (neg 1) (pos eio) 1)
    ]
    else done (ends_with (neg 1) (pos enomem) 0)

abbrev is_network : TransportType → Bool
is_network TransportType.tcp = true
is_network TransportType.rdma = true
is_network _ = false

-- `ctx_init`, with whether FUNC_TRACE is defined.
unfoldable pub ctx_init : Bool → Option ClientCtx → Reach → Outcome OpenEnd
unfolding ovs_xio_open_device
ctx_init func_trace none net = done (ends_with (neg 1) (pos einval) 0)
ctx_init func_trace (some ctx) net =
    if is_network ctx.transport
    then (if net.connects
        then ovs_xio_open_device true net
        else (if func_trace
            then done (ends_with (neg eio) (pos 0) 0)
            else ovs_xio_open_device false net))
    else done (ends_with (pos 0) (pos 0) 0)
