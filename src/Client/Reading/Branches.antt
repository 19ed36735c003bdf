-- ===== src/Client/Reading/Branches.antt =====
-- What `read` comes to on each of its branches.
use gobjfs.Base.{
  ℕ, ◌≡◌, refl, ℤ, pos, negsuc, neg, Bool, true, false, Option, some, is_negative, ◌==◌, ◌&&◌, not,
  if◌then◌else◌, einval, Outcome, Returns, Bool-cases, inl, inr, arith, subst, sym, ◌||◌, enomem,
  eio,
}
use gobjfs.Client.Aio.{create_new_request, complete_request, aio_return, aio_suspend, to_int}
use gobjfs.Client.Reading.{ReadEnd, aio_finish, collect, await_reply, after_aio_read, read}
use gobjfs.Client.Vectors.{Giocb, Sending, sent, no_memory, thrown, aio_read, submit_aio_request}

abbrev pub is_sent : Sending → Bool
is_sent sent = true
is_sent _ = false

-- The request goes out.
abbrev pub goes_out : Bool → Giocb → Bool → Sending → Bool
goes_out has_ctx g allocated sending =
    has_ctx && not (g.nbytes == 0) && not (is_negative g.offset) && allocated && is_sent sending

-- What the caller is told of a reply.
abbrev pub answer_of : ℤ → ℤ
answer_of (pos n) = to_int (pos n)
answer_of (negsuc n) = neg 1

-- The errno where it does not.
abbrev pub refusal : Bool → Giocb → Bool → Sending → ℕ
refusal has_ctx g allocated no_memory =
    if not has_ctx || g.nbytes == 0 || is_negative g.offset then einval else enomem
refusal has_ctx g allocated _ =
    if not has_ctx || g.nbytes == 0 || is_negative g.offset
    then einval
    else (if allocated then eio else enomem)

abbrev pub IsRead : Bool → ℕ → ℤ → ℤ → ReadEnd → Type 0
IsRead out refused retval errval r =
    (r.result ≡ (if out then answer_of retval else neg 1))
    × (r.errno ≡ (if out then errval else pos refused))
    × (r.deleted ≡ r.made)

await_reply-IsRead :
    (refused : ℕ) (retval errval : ℤ)
    → Returns (await_reply (some (retval, errval))) (IsRead true refused retval errval)
unfolding await_reply collect complete_request create_new_request aio_suspend aio_return aio_finish
await_reply-IsRead refused (pos n) errval = (refl, refl, refl)
await_reply-IsRead refused (negsuc n) errval = (refl, refl, refl)

read-refused :
    (has_ctx : Bool) (g : Giocb) (allocated : Bool) (sending : Sending) (reply : Option (ℤ × ℤ))
    (retval errval : ℤ)
    → goes_out has_ctx g allocated sending ≡ false
    → Returns
        (read has_ctx g allocated sending reply)
        (IsRead false (refusal has_ctx g allocated sending) retval errval)
unfolding read after_aio_read aio_read submit_aio_request
read-refused false g allocated sent reply retval errval h = (refl, refl, refl)
read-refused false g allocated no_memory reply retval errval h = (refl, refl, refl)
read-refused false g allocated thrown reply retval errval h = (refl, refl, refl)
read-refused true g allocated sent reply retval errval h = ground arith
read-refused true g allocated no_memory reply retval errval h = ground arith
read-refused true g allocated thrown reply retval errval h = ground arith

read-goes_out :
    (has_ctx : Bool) (g : Giocb) (allocated : Bool) (sending : Sending) (reply : Option (ℤ × ℤ))
    → goes_out has_ctx g allocated sending ≡ true
    → read has_ctx g allocated sending reply ≡ await_reply reply
unfolding read after_aio_read aio_read submit_aio_request
read-goes_out has_ctx g allocated sent reply h = ground arith
read-goes_out has_ctx g allocated no_memory reply h = ground arith
read-goes_out has_ctx g allocated thrown reply h = ground arith

-- Where a reply comes, `read` returns, whatever its arguments. If the request goes out the result is
-- that of the server as an int, or -1 with the server's error where it failed; if not, the result is -1,
-- with an errno that tells why. Each request that is made is deleted once.
pub read-IsRead :
    (has_ctx : Bool) (g : Giocb) (allocated : Bool) (sending : Sending) (retval errval : ℤ)
    → Returns (read has_ctx g allocated sending (some (retval, errval))) (
        IsRead
          (goes_out has_ctx g allocated sending)
          (refusal has_ctx g allocated sending)
          retval
          errval)
read-IsRead has_ctx g allocated sending retval errval =
    let refused = refusal has_ctx g allocated sending in
    elim (Bool-cases (goes_out has_ctx g allocated sending)) [
      | inl out ↦ rw out (
          subst (λ (o : Outcome ReadEnd). Returns o (IsRead true refused retval errval))
            (sym (read-goes_out has_ctx g allocated sending (some (retval, errval)) out))
            (await_reply-IsRead refused retval errval))
      | inr kept ↦
          rw kept
            (read-refused has_ctx g allocated sending (some (retval, errval)) retval errval kept)
    ]
