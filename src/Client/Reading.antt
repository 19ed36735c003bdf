-- ===== src/Client/Reading.antt =====
-- `read` in src/networkxio/gobjfs_client.cpp: a request from its submission to its end, for a caller that
-- waits.
pub mod Branches
use gobjfs.Base.{
  ℕ, ◌+◌, ℤ, pos, neg, Bool, true, false, Option, none, some, is_negative, eq_ℤ, if◌then◌else◌,
  einval, Outcome, done, fault, Fault, ◌>>=◌,
}
use gobjfs.Client.Aio.{AioRequest, create_new_request, complete_request, aio_return, aio_suspend}
use gobjfs.Client.Vectors.{Giocb, Sending, Slot, unset, freed, live, aio_read}

-- The result, the errno (0 where it is left alone), and how many requests were made and deleted.
pub record ReadEnd : Type 0 where
  pub result : ℤ
  pub errno : ℤ
  pub made : ℕ
  pub deleted : ℕ

-- `aio_read` failed.
abbrev pub give_up : ℤ → ℕ → Slot → ReadEnd
give_up code errno unset = record { result = code; errno = pos errno; made = 0; deleted = 0 }
give_up code errno freed = record { result = code; errno = pos errno; made = 1; deleted = 1 }
give_up code errno (live e) = record { result = code; errno = pos errno; made = 1; deleted = 0 }

-- `aio_finish` deletes the request, whatever `aio_suspend` and `aio_return` came to.
unfoldable pub aio_finish : ReadEnd → ReadEnd
aio_finish r = record r { deleted = r.deleted + 1 }

-- `aio_suspend`, and `aio_return` if it returned 0; both leave the errno of the request.
unfoldable pub collect : AioRequest → Outcome ReadEnd
unfolding aio_finish aio_suspend aio_return
collect q = do
  s ← aio_suspend q
  done (
      aio_finish (record {
        result = if eq_ℤ s.0 (pos 0) then aio_return q else s.0;
        errno = q.errno;
        made = 1;
        deleted = 0;
      }))

-- The wait for the reply of the server: its result and its error, or none.
unfoldable pub await_reply : Option (ℤ × ℤ) → Outcome ReadEnd
unfolding collect complete_request create_new_request
await_reply none = fault Fault.would_block
await_reply (some (retval, errval)) =
    complete_request retval errval (create_new_request 1) >>= collect

unfoldable pub after_aio_read : Option (ℤ × ℤ) → ℤ × ℕ × Slot → Outcome ReadEnd
unfolding await_reply
after_aio_read reply (code, errno, slot) =
    if is_negative code then done (give_up code errno slot) else await_reply reply

-- For a context or none, a control block, whether there is memory for a request, what becomes of its
-- message, and the reply.
unfoldable pub read : Bool → Giocb → Bool → Sending → Option (ℤ × ℤ) → Outcome ReadEnd
unfolding after_aio_read aio_read
read has_ctx g allocated sending reply =
    if has_ctx
    then aio_read has_ctx (some g) allocated sending >>= after_aio_read reply
    else done (record { result = neg 1; errno = pos einval; made = 0; deleted = 0 })
