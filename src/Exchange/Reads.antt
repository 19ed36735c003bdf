-- ===== src/Exchange/Reads.antt =====
-- A read, from the client's message to the completion of its request.
use gobjfs.Base.{
  ℕ, ◌^◌, ◌<◌, ◌≡◌, ap, ℤ, List, ◌∷◌, some, arith, Returns, ◌+◌, Outcome, done, ◌>>=◌, Bool, true,
  Option, ◌∙◌,
}
use gobjfs.Server.{noop, Reply, Request, Net}
use gobjfs.Util.Align.{is_direct_io_aligned}
use gobjfs.Exchange.Answers.{read_outcome, read_reply, handled_read}
use gobjfs.Server.Handler.Replies.{process_request-unpacked}
use gobjfs.Server.Steps.{new_request}
use gobjfs.Client.Credits.{Link, on_response, remove}
use gobjfs.Protocol.{Msgpack, IsMsgpack, InRange, new_msg, pack_msg}
use gobjfs.Protocol.RoundTrip.{IsWord, unpack_msg-pack_msg}
use gobjfs.Exchange.{
  read_message, reply_message, reply_to_read, xio_msg_prepare, packed_by, packed_reply, unpacked,
  answer, on_reply,
}

read_outcome-InRange :
    (net : Net) (filename : List ℕ) (size offset : ℕ) (code : ℤ)
    → size < 2 ^ 63
    → InRange 31 code
    → InRange 63 (read_outcome net filename size offset code).0
      × InRange 31 (read_outcome net filename size offset code).1
read_outcome-InRange net filename size offset code h k = ground arith

reply-IsWord :
    (tag : ℕ) (retval errval : ℤ)
    → tag < 2 ^ 64
    → InRange 63 retval
    → InRange 31 errval
    → IsWord (reply_message (read_reply tag (retval, errval)))
unfolding reply_message new_msg
reply-IsWord tag retval errval h k l = record {
  size = omega arith;
  offset = omega arith;
  retval = k;
  errval = l;
  opaque = h;
  timeout = omega arith;
}

read-IsWord :
    (tag size offset : ℕ) (filename : List ℕ)
    → tag < 2 ^ 64
    → size < 2 ^ 63
    → offset < 2 ^ 64
    → IsWord (read_message tag filename size offset)
unfolding read_message new_msg
read-IsWord tag size offset filename h k l = record {
  size = omega arith;
  offset = l;
  retval = omega arith;
  errval = omega arith;
  opaque = h;
  timeout = omega arith;
}

-- One request is done: it is completed with this result, it is under way no more, and its credit is given
-- back.
abbrev pub Completes : ℕ → ℤ × ℤ → List ℕ → Link → Link → Type 0
Completes tag (retval, errval) others s t =
    (t.completed ≡ record { message = tag; retval = retval; errval = errval } ∷ s.completed)
    × (t.sent ≡ others)
    × (t.taken + 1 ≡ s.taken)

on_response-Completes :
    (tag : ℕ) (retval errval : ℤ) (s : Link) (others : List ℕ)
    → remove tag s.sent ≡ some others
    → 0 < s.taken
    → let m = reply_message (read_reply tag (retval, errval)) in
      Returns (on_response m.opaque m.retval m.errval s) (Completes tag (retval, errval) others s)
unfolding on_response reply_message new_msg
on_response-Completes tag retval errval s others under_way taken = ground arith

module _ (M : Msgpack) (lawful : IsMsgpack M) where
  answer-read :
      (net : Net) (tag size offset id c : ℕ) (filename : List ℕ) (code : ℤ)
      → IsWord (read_message tag filename size offset)
      → is_direct_io_aligned offset ≡ true
      → answer M net id c code (xio_msg_prepare M (read_message tag filename size offset))
        ≡ done (
            some (
              pack_msg M
                (reply_message (read_reply tag (read_outcome net filename size offset code)))))
  unfolding answer xio_msg_prepare read_message
  answer-read net tag size offset id c filename code w even =
      let header = pack_msg M (read_message tag filename size offset) in
      let req = new_request id c header in
      let told =
        ap unpacked
          (unpack_msg-pack_msg M lawful (read_message tag filename size offset) (new_msg noop) w) in
      let worked = process_request-unpacked (packed_by M net) req _ told in
      ap
        (λ (o : Outcome (Bool × Request)).
          o >>= reply_to_read M code >>= λ r. done (packed_reply M r))
        worked
      ∙ ap (λ (o : Outcome (Option Reply)). o >>= λ r. done (packed_reply M r))
          (handled_read M (packed_by M net) tag size offset filename code req even)

  on_reply-read :
      (tag : ℕ) (retval errval : ℤ) (s : Link) (others : List ℕ)
      → IsWord (reply_message (read_reply tag (retval, errval)))
      → remove tag s.sent ≡ some others
      → 0 < s.taken
      → Returns
          (on_reply M (pack_msg M (reply_message (read_reply tag (retval, errval)))) s)
          (Completes tag (retval, errval) others s)
  unfolding on_reply
  on_reply-read tag retval errval s others w under_way taken =
      let reply = reply_message (read_reply tag (retval, errval)) in
      rw (unpack_msg-pack_msg M lawful reply (new_msg noop) w, on_reply)
        (on_response-Completes tag retval errval s others under_way taken)

  -- A read request at an aligned offset that is under way reaches the server, which answers it at once or when its read has
  -- ended with a code, and the reply reaches the client. Then the client's request, and no other, is
  -- completed: with the size if the read ended with 0; with -1 and the code if it ended otherwise; and with
  -- -1 and EIO or ENOMEM where the server has no service, no memory, or its file interface refuses
  -- the read. The message is no longer under way, and its credit is given back.
  pub on_reply-answer :
      (net : Net) (tag size offset id c : ℕ) (filename : List ℕ) (code : ℤ) (s : Link)
      (others : List ℕ)
      → tag < 2 ^ 64
      → size < 2 ^ 63
      → offset < 2 ^ 64
      → InRange 31 code
      → remove tag s.sent ≡ some others
      → 0 < s.taken
      → is_direct_io_aligned offset ≡ true
      → (bytes : List ℕ) × (answer M net id c code
            (xio_msg_prepare M (read_message tag filename size offset))
          ≡ done (some bytes))
        × Returns
            (on_reply M bytes s)
            (Completes tag (read_outcome net filename size offset code) others s)
  on_reply-answer net tag size offset id c filename code s others h k l r under_way taken even =
      let outcome = read_outcome net filename size offset code in
      let (a, b) = read_outcome-InRange net filename size offset code k r in
      let w = reply-IsWord tag outcome.0 outcome.1 h a b in
      (
        pack_msg M (reply_message (read_reply tag outcome)),
        answer-read net tag size offset id c filename code
            (read-IsWord tag size offset filename h k l) even,
        on_reply-read tag outcome.0 outcome.1 s others w under_way taken,
      )
