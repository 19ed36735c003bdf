-- ===== src/Client/Credits/Starvation.antt =====
-- Where more callers wait, or were turned away, than there are credits.
use gobjfs.Base.{
  ℕ, ◌+◌, ◌<◌, ◌≡◌, refl, pos, neg, true, false, [], ◌∷◌, length, length-append, arith,
  Option-cases, leb, is_negative, inl, inr, ap, sym, subst, done, Returns, Returns-map, eio,
}
use gobjfs.Client.Credits.{
  Link, remove, send_request, wake_up, time_out, send_front, run_loop, on_response, on_msg_error,
}
use gobjfs.Client.Credits.Bounds.{
  Balanced, Event, requests, wakes, expires, loops, responds, fails, IsDue, handle, handle-Balanced,
  Kept, loops-Balanced, ends-Balanced, remove-length,
}

abbrev pub IsStarved : Link → Type 0
IsStarved s = s.depth < length s.waiting + s.timeouts

-- What events make of a connection.
pub data Later : Link → Link → Type 0 where
  at_once : {s : Link} → Later s s
  then_event : {s t u : Link} (e : Event) → Later s t → IsDue e t → handle e t ≡ done u → Later s u

no_credit : (s : Link) → Balanced s → IsStarved s → leb s.taken s.depth ≡ false
no_credit s b h = ground (arith, b.credits)

no_new_credit : (s : Link) → Balanced s → IsStarved s → leb (s.taken + 1) s.depth ≡ false
no_new_credit s b h = ground (arith, b.credits)

wake_up-starved : (id : ℕ) (s : Link) → Balanced s → IsStarved s → wake_up id s ≡ s
unfolding wake_up
wake_up-starved id s b h = elim (Option-cases (remove id s.waiting)) [
  | inl e ↦ rw (e, wake_up) refl
  | inr (others, e) ↦ rw (e, wake_up, no_credit s b h) refl
]

time_out-IsStarved : (id : ℕ) (s : Link) → Balanced s → IsStarved s → IsStarved (time_out id s)
unfolding time_out
time_out-IsStarved id s b h = elim (Option-cases (remove id s.waiting)) [
  | inl e ↦ rw (e, time_out) h
  | inr (others, e) ↦
      rw (e, time_out, no_credit s b h) (omega (arith, h, remove-length id s.waiting e))
]

send_request-IsStarved :
    (id : ℕ) (s : Link) → Balanced s → IsStarved s → IsStarved (send_request id s)
unfolding send_request
send_request-IsStarved id s b h =
    rw (no_new_credit s b h) (omega (arith, h, length-append s.waiting (id ∷ [])))

Kept-IsStarved : (s t : Link) → IsStarved s → Kept s t → IsStarved t
Kept-IsStarved s t h k = omega (arith, h, ap length k.1, k.2, k.3)

handle-IsStarved :
    (e : Event) (s : Link) → Balanced s → IsStarved s → IsDue e s → Returns (handle e s) IsStarved
unfolding handle run_loop on_response on_msg_error
handle-IsStarved (requests id) s b h d = send_request-IsStarved id s b h
handle-IsStarved (wakes id) s b h d = subst IsStarved (sym (wake_up-starved id s b h)) h
handle-IsStarved (expires id) s b h d = time_out-IsStarved id s b h
handle-IsStarved (loops code) s b h d =
    Returns-map (send_front code s.inflight s) (Kept s) IsStarved
      (loops-Balanced code s.inflight s refl b) λ t k. Kept-IsStarved s t h k
handle-IsStarved (responds id retval errval) s b h (others, e) =
    rw (e, on_response)
      (Returns-map _ (Kept s) IsStarved (ends-Balanced id retval errval (is_negative retval) s e b)
        λ t k. Kept-IsStarved s t h k)
handle-IsStarved (fails id) s b h (others, e) =
    rw (e, on_msg_error)
      (Returns-map _ (Kept s) IsStarved (ends-Balanced id (neg 1) (pos eio) true s e b)
        λ t k. Kept-IsStarved s t h k)

Later-IsStarved : (s t : Link) → Balanced s → IsStarved s → Later s t → Balanced t × IsStarved t
Later-IsStarved s _ b h at_once = (b, h)
Later-IsStarved s _ b h (then_event {t} e l d same) =
    let (c, k) = Later-IsStarved s t b h l in
    (
      subst (λ o. Returns o Balanced) same (handle-Balanced e t c d),
      subst (λ o. Returns o IsStarved) same (handle-IsStarved e t c k d),
    )

-- A connection at which more callers wait or were turned away than it has credits is dead for good:
-- whatever replies, errors, wake-ups, time-outs and new requests come, in any order, no caller that
-- waits is let through, and no new request reaches the queue.
pub IsStarved-for_good :
    (s t : Link) (id : ℕ)
    → Balanced s
    → IsStarved s
    → Later s t
    → IsStarved t × (wake_up id t ≡ t) × ((send_request id t).inflight ≡ t.inflight)
unfolding send_request
IsStarved-for_good s t id b h l =
    let (c, k) = Later-IsStarved s t b h l in
    (k, wake_up-starved id t c k, rw (no_new_credit t c k) refl)
