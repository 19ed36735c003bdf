-- ===== src/Client/Opening/Answers.antt =====
-- What a caller of `ctx_init` gets.
use gobjfs.Base.{
  ◌≡◌, ℤ, pos, negsuc, neg, true, false, some, if◌then◌else◌, enomem, eio, done, fault, Fault,
  arith,
}
use gobjfs.Client.Aio.{ClientCtx, ctx_new, CtxAttr, to_int}
use gobjfs.Client.Vectors.{Sending, sent, no_memory, thrown}
use gobjfs.Client.Opening.{Reach, OpenEnd, ends_with, ovs_xio_open_device, ctx_init}

-- The answer on a connection, where there is memory for the request: the server's, or why the message
-- was not sent.
abbrev pub open_answer : Sending → ℤ → ℤ → OpenEnd
open_answer sent (pos n) errval = ends_with (to_int (pos n)) errval 0
open_answer sent (negsuc n) errval = ends_with (neg 1) errval 1
open_answer no_memory retval errval = ends_with (neg 1) (pos enomem) 1
open_answer thrown retval errval = ends_with (neg 1) (pos eio) 1

open_device-answer :
    (net : Reach)
    → net.has_memory ≡ true
    → ovs_xio_open_device true net ≡ done (open_answer net.sending net.retval net.errval)
unfolding ovs_xio_open_device
open_device-answer net h = ground arith

-- A context that `ctx_new` made is initialised, where there is memory for the request. With a connection
-- the answer is that of the server, with the errno of its reply, or -1 with the reason why the request to
-- open failed; and the request is deleted only if the server's answer is not negative: in all other
-- cases it is lost. Without a connection, in a build without FUNC_TRACE, `ctx_init` goes on and
-- dereferences the connection that was not made.
pub ctx_init-ctx_new :
    (attr : CtxAttr) (ctx : ClientCtx) (net : Reach)
    → (ctx_new (some attr)).1 ≡ some ctx
    → net.has_memory ≡ true
    → ctx_init false (some ctx) net ≡ (
        if net.connects
        then done (open_answer net.sending net.retval net.errval)
        else fault Fault.null_dereference)
unfolding ctx_init ctx_new ovs_xio_open_device
ctx_init-ctx_new attr ctx net h k = ground (arith, open_device-answer net k)
