-- ===== src/Client/Vectors.antt =====
-- src/networkxio/gobjfs_client.cpp and gobjfs_client_common.h: the submission of requests, and requests
-- in vectors, which share one notifier.
pub mod Waiting
use gobjfs.Base.{
  ℕ, zero, suc, ◌+◌, ◌-◌, ℤ, pos, neg, Bool, true, false, List, [], ◌∷◌, Option, none, some, ltb,
  length, ◌==◌, not, ◌||◌, is_negative, if◌then◌else◌, einval, eagain, ebadf, enomem, eio, Outcome,
  done, fault, Fault, ◌>>=◌, ◌>>◌, assert, demand,
}

pub data RequestOp : Type 0 where
  noop_op read_op open_op close_op : RequestOp

-- The fields of a giocb that the checks read.
pub record Giocb : Type 0 where
  pub nbytes : ℕ
  pub offset : ℤ

-- What became of `xio_send_read_request`: it returned, or threw `bad_alloc` or anything else.
pub data Sending : Type 0 where
  sent no_memory thrown : Sending

-- An aio_request of a vector; the count of its notifier is that of the vector.
pub record Entry : Type 0 where
  pub completed : Bool
  pub signaled : Bool
  pub failed : Bool
  pub errno : ℤ
  pub rv : ℤ

-- The `request_` of a giocb: not set, to a request, or to a request that was deleted.
pub data Slot : Type 0 where
  unset freed : Slot
  live : Entry → Slot

-- A notifier with the requests that share it.
pub record Vector : Type 0 where
  pub count : ℕ
  pub slots : List Slot

unfoldable pub new_entry : Entry
new_entry = record {
  completed = false;
  signaled = false;
  failed = false;
  errno = pos 0;
  rv = pos 0;
}

abbrev send_entry : Sending → ℤ × ℕ × Slot
send_entry sent = (pos 0, 0, live new_entry)
send_entry no_memory = (neg 1, enomem, freed)
send_entry thrown = (neg 1, eio, freed)

abbrev submit_op : RequestOp → Bool → Sending → ℤ × ℕ × Slot
submit_op read_op true sending = send_entry sending
submit_op read_op false sending = (neg 1, enomem, unset)
submit_op _ allocated sending = (neg 1, ebadf, unset)

abbrev submit_checked : Option Giocb → RequestOp → Bool → Sending → ℤ × ℕ × Slot
submit_checked none op allocated sending = (neg 1, einval, unset)
submit_checked (some g) op allocated sending =
    if g.nbytes == 0 || is_negative g.offset
    then (neg 1, einval, unset)
    else submit_op op allocated sending

-- `_submit_aio_request`: the result, the errno (0 where it is left alone) and the `request_` of the
-- giocb. The context is read before it is tested. `allocated` tells whether there is memory for a
-- request; one that can not be sent is deleted, and the giocb keeps its address.
unfoldable pub submit_aio_request :
    Bool → Option Giocb → RequestOp → Bool → Sending → Outcome (ℤ × ℕ × Slot)
unfolding new_entry
submit_aio_request has_ctx giocbp op allocated sending =
    demand has_ctx Fault.null_dereference >> done (submit_checked giocbp op allocated sending)

-- `aio_read`, with a notifier of its own; `aio_readcb` adds a completion object.
unfoldable pub aio_read : Bool → Option Giocb → Bool → Sending → Outcome (ℤ × ℕ × Slot)
unfolding submit_aio_request
aio_read has_ctx giocbp allocated sending =
    submit_aio_request has_ctx giocbp read_op allocated sending

-- `err |= ret`: 0, or -1 once one of them is -1.
abbrev pub merge_codes : ℤ → ℤ → ℤ
merge_codes err ret = if is_negative err || is_negative ret then neg 1 else pos 0

-- The loop of `aio_readv`, over each giocb with its memory and what becomes of its message.
unfoldable pub submit_all :
    Bool → List (Option Giocb × Bool × Sending) → ℤ → Outcome (ℤ × List Slot)
unfolding submit_aio_request
submit_all has_ctx [] err = done (err, [])
submit_all has_ctx ((giocbp, allocated, sending) ∷ rest) err = do
  r ← submit_aio_request has_ctx giocbp read_op allocated sending
  others ← submit_all has_ctx rest (merge_codes err r.0)
  done (others.0, r.2 ∷ others.1)

-- `aio_readv`, for the number of names; there is no notifier where the two numbers differ.
unfoldable pub aio_readv :
    ℕ → Bool → List (Option Giocb × Bool × Sending) → Outcome (ℤ × Option Vector)
unfolding submit_all
aio_readv names has_ctx giocbs = if not (names == length giocbs) then done (neg 1, none) else (do
  r ← submit_all has_ctx giocbs (pos 0)
  done (r.0, some (record { count = length giocbs; slots = r.1 })))

unfoldable pub complete_slot : ℕ → ℤ → ℤ → List Slot → Outcome (List Slot)
complete_slot i retval errval [] = fault Fault.use_after_free
complete_slot zero retval errval (live e ∷ rest) = done (
    live (record e {
      errno = errval;
      rv = retval;
      failed = is_negative retval;
      completed = true;
      signaled = true;
    })
    ∷ rest)
complete_slot zero retval errval (_ ∷ rest) = fault Fault.use_after_free
complete_slot (suc i) retval errval (s ∷ rest) =
    complete_slot i retval errval rest >>= λ others. done (s ∷ others)

-- `ovs_xio_aio_complete_request` for one request of a vector, with `notifier::signal`.
unfoldable pub complete_entry : ℕ → ℤ → ℤ → Vector → Outcome Vector
unfolding complete_slot
complete_entry i retval errval v = do
  slots ← complete_slot i retval errval v.slots
  assert (ltb 0 v.count)
  done (record { count = v.count - 1; slots = slots })

-- The last loop of `aio_suspendv`: the result and the errno, which are those of the first request that
-- failed.
unfoldable pub verdict : ℤ → ℤ → List Slot → Outcome (ℤ × ℤ)
verdict r errno [] = done (r, errno)
verdict r errno (live e ∷ rest) =
    let more = verdict r errno rest in if e.failed then done (neg 1, e.errno) else more
verdict r errno (unset ∷ rest) = fault Fault.null_dereference
verdict r errno (freed ∷ rest) = fault Fault.use_after_free

-- The notifier of the first request.
abbrev first_request : List Slot → Outcome (Unit {0})
first_request [] = done tt
first_request (live e ∷ rest) = done tt
first_request (unset ∷ rest) = fault Fault.null_dereference
first_request (freed ∷ rest) = fault Fault.use_after_free

abbrev pub is_empty_vector : List Slot → Bool
is_empty_vector [] = true
is_empty_vector (s ∷ rest) = false

-- `aio_suspendv` without a timeout, for a context that is there.
unfoldable pub aio_suspendv : Vector → Outcome (ℤ × ℤ)
unfolding verdict
aio_suspendv v =
    if is_empty_vector v.slots
    then done (neg 1, pos einval)
    else first_request v.slots
      >> demand (v.count == 0) Fault.would_block
      >> verdict (pos 0) (pos 0) v.slots

-- `aio_suspendv` with a timeout; a notification within the time decides.
unfoldable pub aio_suspendv_for : Bool → Vector → Outcome (ℤ × ℤ)
unfolding verdict
aio_suspendv_for notified v =
    if is_empty_vector v.slots
    then done (neg 1, pos einval)
    else first_request v.slots
      >> (if notified
          then verdict (pos 0) (pos 0) v.slots
          else verdict (neg 1) (pos eagain) v.slots)
