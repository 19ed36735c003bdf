-- ===== src/Server/Handler/Replies.antt =====
-- What a request is answered.
use gobjfs.Base.{
  ◌≡◌, refl, ℕ, ℤ, pos, neg, Bool, true, false, some, none, eq_ℤ, arith, ◌⊎◌, inl, inr, is_negative,
  ◌&&◌, not, if◌then◌else◌, Outcome, done, fault, Fault, Returns, Ends, eio, enomem, ebadmsg,
  Option-cases, Bool-cases, subst, sym,
}
use gobjfs.File.Batch.{batch_free, free_fragments}
use gobjfs.Util.Align.{is_direct_io_aligned}
use gobjfs.Server.{
  Opcode, open_req, open_rsp, close_req, close_rsp, read_req, read_rsp, error_rsp, Message, Request,
  Net,
}
use gobjfs.Server.Handler.{
  pack_msg, handle_open, handle_close, handle_error, handle_read, read_into, handle_message,
  process_request, complete_read, free_batch,
}

pub free_batch-aligned :
    (offset size : ℕ) → is_direct_io_aligned offset ≡ true → free_batch offset size ≡ done tt
unfolding free_batch batch_free free_fragments
free_batch-aligned offset size h = rw h refl

pub free_batch-unaligned :
    (offset size : ℕ)
    → is_direct_io_aligned offset ≡ false
    → free_batch offset size ≡ fault Fault.assert_failed
unfolding free_batch batch_free free_fragments
free_batch-unaligned offset size h = rw h refl

pub free_batch-cases :
    (offset size : ℕ)
    → ((is_direct_io_aligned offset ≡ true) × (free_batch offset size ≡ done tt))
      ⊎ ((is_direct_io_aligned offset ≡ false)
          × (free_batch offset size ≡ fault Fault.assert_failed))
free_batch-cases offset size = elim (Bool-cases (is_direct_io_aligned offset)) [
  | inl even ↦ inl (even, free_batch-aligned offset size even)
  | inr odd ↦ inr (odd, free_batch-unaligned offset size odd)
]

-- The reply that an operation is due.
abbrev pub response_to : Opcode → Opcode
response_to open_req = open_rsp
response_to close_req = close_rsp
response_to read_req = read_rsp
response_to _ = error_rsp

abbrev pub is_read : Opcode → Bool
is_read read_req = true
is_read _ = false

-- A buffer of the size can be had.
abbrev pub has_buffer : Net → ℕ → Bool
has_buffer net size = not (is_negative (net.mempool_alloc size) && is_negative (net.mem_alloc size))

-- The message is a read that comes to the file interface, and is taken or refused there.
abbrev pub is_taken : Net → Message → Bool
is_taken net msg =
    is_read msg.opcode
    && net.has_service
    && has_buffer net msg.size
    && eq_ℤ (net.file_read msg.filename msg.size msg.offset) (pos 0)

abbrev pub is_refused : Net → Message → Bool
is_refused net msg =
    is_read msg.opcode
    && net.has_service
    && has_buffer net msg.size
    && not (eq_ℤ (net.file_read msg.filename msg.size msg.offset) (pos 0))

-- The result and the error of a message that is answered at once.
abbrev pub due : Net → Message → ℤ × ℤ
due net msg = elim msg.opcode [
  | open_req ↦ (pos 0, pos 0)
  | close_req ↦ if net.has_service then (pos 0, pos 0) else (neg 1, pos eio)
  | read_req ↦
      if net.has_service && not (has_buffer net msg.size)
      then (neg 1, pos enomem)
      else (neg 1, pos eio)
  | _ ↦ (neg 1, pos eio)
]

abbrev pub IsAnswered : Net → Message → Bool × Request → Type 0
IsAnswered net msg r =
    (r.0 ≡ true)
    × (r.1.s_msg
        ≡ some (record {
          opcode = response_to msg.opcode;
          retval = (due net msg).0;
          errval = (due net msg).1;
          opaque = msg.opaque;
        }))

abbrev pub IsUnderWay : Message → Request → Bool × Request → Type 0
IsUnderWay msg req r =
    (r.0 ≡ false)
    × (r.1.op ≡ read_rsp)
    × (r.1.size ≡ msg.size)
    × (r.1.offset ≡ msg.offset)
    × (r.1.opaque ≡ msg.opaque)
    × (r.1.s_msg ≡ req.s_msg)

-- What is made of a message: under way, the end of the server, or an answer.
abbrev pub Handled : Net → Message → Request → Outcome (Bool × Request) → Type 0
Handled net msg req o =
    ((is_taken net msg ≡ true) × Returns o (IsUnderWay msg req))
    ⊎ (((is_refused net msg && not (is_direct_io_aligned msg.offset)) ≡ true)
        × (o ≡ fault Fault.assert_failed))
    ⊎ ((is_taken net msg ≡ false)
        × ((is_refused net msg && not (is_direct_io_aligned msg.offset)) ≡ false)
        × Returns o (IsAnswered net msg))

abbrev tagged : Message → Request → Request
tagged msg req = record req { opaque = msg.opaque }

handle_message-Handled :
    (net : Net) (msg : Message) (req : Request)
    → Handled net msg req (handle_message net msg (tagged msg req))
unfolding handle_message handle_open handle_close handle_read read_into handle_error pack_msg
handle_message-Handled net msg req = ground (arith, free_batch-cases msg.offset msg.size)

pub process_request-unpacked :
    (net : Net) (req : Request) (msg : Message)
    → net.unpack req.header ≡ some msg
    → process_request net req ≡ handle_message net msg (tagged msg req)
unfolding process_request
process_request-unpacked net req msg e = ground arith

handle_message-client :
    (net : Net) (msg : Message) (req : Request)
    → Ends (handle_message net msg req) (λ r. r.1.client ≡ req.client)
unfolding handle_message handle_open handle_close handle_read read_into handle_error pack_msg
handle_message-client net msg req = ground (arith, free_batch-cases msg.offset msg.size)

process_request-garbled :
    (net : Net) (req : Request)
    → net.unpack req.header ≡ none
    → process_request net req ≡ done (true, handle_error (pos ebadmsg) req)
unfolding process_request
process_request-garbled net req e = ground arith

error-client : (code : ℤ) (req : Request) → (handle_error code req).client ≡ req.client
unfolding handle_error pack_msg
error-client code req = refl

-- A request stays its client's.
pub process_request-client :
    (net : Net) (req : Request) → Ends (process_request net req) (λ r. r.1.client ≡ req.client)
process_request-client net req = elim (Option-cases (net.unpack req.header)) [
  | inl e ↦
      subst (λ (o : Outcome (Bool × Request)). Ends o (λ r. r.1.client ≡ req.client))
        (sym (process_request-garbled net req e)) (error-client (pos ebadmsg) req)
  | inr (msg, e) ↦
      subst (λ (o : Outcome (Bool × Request)). Ends o (λ r. r.1.client ≡ req.client))
        (sym (process_request-unpacked net req msg e))
        (handle_message-client net msg (tagged msg req))
]

-- The end of a read, by the offset of its request.
pub complete_read-cases :
    (code : ℤ) (req : Request)
    → ((is_direct_io_aligned req.offset ≡ true)
        × Returns (complete_read code req) (λ r. r.client ≡ req.client))
      ⊎ ((is_direct_io_aligned req.offset ≡ false)
          × (complete_read code req ≡ fault Fault.assert_failed))
unfolding complete_read pack_msg
complete_read-cases code req = ground (arith, free_batch-cases req.offset req.size)

-- What a worker makes of a message that can be unpacked. A read that has a service and a buffer comes to the
-- file interface. If that takes it, it is left to be completed under the message's tag, and no reply
-- is made yet; if that refuses it, and the offset is not aligned, an assertion ends the server. Everything
-- else is finished at once, with a reply that has the message's tag, the operation's response, and the
-- result and error that it is due: 0 for an open, and for a close with a service; -1 and ENOMEM for a read
-- without a buffer; and -1 and EIO otherwise.
pub process_request_lem :
    (net : Net) (req : Request) (msg : Message)
    → net.unpack req.header ≡ some msg
    → Handled net msg req (process_request net req)
process_request_lem net req msg e =
    subst (Handled net msg req) (sym (process_request-unpacked net req msg e))
      (handle_message-Handled net msg req)

returns_with :
    {A : Type 0} (o : Outcome A) (P Q : A → Type 0) → Returns o Q → Ends o P → Returns o P
returns_with (done a) P Q h k = k
returns_with (fault e) P Q h k = absurd h

unaligned :
    (net : Net) (msg : Message)
    → (is_refused net msg && not (is_direct_io_aligned msg.offset)) ≡ true
    → is_direct_io_aligned msg.offset ≡ false
unaligned net msg h = ground arith

-- A worker ends with the request in hand, or the server ends with it.
pub process_request-cases :
    (net : Net) (req : Request)
    → Returns (process_request net req) (λ r. r.1.client ≡ req.client)
      ⊎ ((process_request net req ≡ fault Fault.assert_failed)
          × (msg : Message) × (net.unpack req.header ≡ some msg)
          × (is_direct_io_aligned msg.offset ≡ false))
process_request-cases net req =
    let same = process_request-client net req in
    elim (Option-cases (net.unpack req.header)) [
      | inl e ↦ inl (
          subst (λ (o : Outcome (Bool × Request)). Returns o (λ r. r.1.client ≡ req.client))
            (sym (process_request-garbled net req e)) (error-client (pos ebadmsg) req))
      | inr (msg, e) ↦ elim (process_request_lem net req msg e) [
        | inl (taken, under_way) ↦ inl (
            returns_with (process_request net req) (λ r. r.1.client ≡ req.client)
              (IsUnderWay msg req) under_way same)
        | inr (inl (odd, aborts)) ↦ inr (aborts, msg, e, unaligned net msg odd)
        | inr (inr (kept, even, answered)) ↦ inl (
            returns_with (process_request net req) (λ r. r.1.client ≡ req.client)
              (IsAnswered net msg) answered same)
      ]
    ]
