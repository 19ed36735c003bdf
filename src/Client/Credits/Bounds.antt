-- ===== src/Client/Credits/Bounds.antt =====
-- The credits of a NetworkXioClient after each event.
use gobjfs.Base.{
  ℕ, suc, ◌+◌, ◌≤◌, ◌≡◌, refl, ℤ, pos, neg, Bool, Bool-cases, true, List, [], ◌∷◌, length,
  length-append, arith, Option-cases, some, leb, lt→ltb, ◌==◌, is_negative, inl, inr, ap, done,
  Returns, Returns-map, Outcome, eio,
}
use gobjfs.Client.Credits.{
  Link, new_link, remove, push_request, send_request, wake_up, time_out, req_queue_release,
  update_stats, finish_request, send_front, run_loop, on_response, on_msg_error,
}

-- The credits that are taken are those of callers that wait, of messages in the queue and under way,
-- and of callers that were turned away; and no more messages are queued or under way than the depth.
pub record Balanced (s : Link) : Type 0 where
  pub credits : s.taken ≡ length s.waiting + length s.inflight + length s.sent + s.timeouts
  pub within : length s.inflight + length s.sent ≤ s.depth

-- A new connection has no message.
pub new_link-Balanced : (depth : ℕ) → Balanced (new_link depth)
unfolding new_link
new_link-Balanced depth = record { credits = refl; within = omega arith }

-- What happens to a connection, and where it can: a reply or an error is about a message under way.
pub data Event : Type 0 where
  requests wakes expires : ℕ → Event
  loops : ℤ → Event
  responds : ℕ → ℤ → ℤ → Event
  fails : ℕ → Event

abbrev pub IsDue : Event → Link → Type 0
IsDue (responds id retval errval) s = (others : List ℕ) × (remove id s.sent ≡ some others)
IsDue (fails id) s = (others : List ℕ) × (remove id s.sent ≡ some others)
IsDue _ s = Unit

unfoldable pub handle : Event → Link → Outcome Link
handle (requests id) s = done (send_request id s)
handle (wakes id) s = done (wake_up id s)
handle (expires id) s = done (time_out id s)
handle (loops code) s = run_loop code s
handle (responds id retval errval) s = on_response id retval errval s
handle (fails id) s = on_msg_error id s

pub remove-length :
    (id : ℕ) (xs : List ℕ) {others : List ℕ}
    → remove id xs ≡ some others
    → length xs ≡ suc (length others)
unfolding remove
remove-length id [] h = cc
remove-length id (x ∷ xs) {others} h = elim (Bool-cases (x == id)) [
  | inl hit ↦ let same : others ≡ xs = ground arith in omega (arith, ap length same)
  | inr miss ↦ elim (Option-cases (remove id xs)) [
    | inl e ↦ ground arith
    | inr (t, e) ↦
        let same : others ≡ x ∷ t = ground arith in
        omega (arith, ap length same, remove-length id xs e)
  ]
]

-- What a finished message leaves: nothing but its credit changes.
finish_request-Balanced :
    (id : ℕ) (retval errval : ℤ) (failed : Bool) (s : Link)
    → s.taken ≡ suc (length s.waiting + length s.inflight + length s.sent + s.timeouts)
    → length s.inflight + length s.sent ≤ s.depth
    → Returns
        (finish_request id retval errval failed s)
        λ t. Balanced t × (t.waiting ≡ s.waiting) × (t.timeouts ≡ s.timeouts) × (t.depth ≡ s.depth)
unfolding finish_request req_queue_release update_stats
finish_request-Balanced id retval errval failed s c w =
    rw (lt→ltb 0 s.taken (omega (arith, c)))
      (record { credits = omega (arith, c); within = w }, refl, refl, refl)

pushed-Balanced :
    (id : ℕ) (s : Link)
    → s.taken ≡ suc (length s.waiting + length s.inflight + length s.sent + s.timeouts)
    → s.taken ≤ s.depth
    → Balanced (push_request id s)
unfolding push_request
pushed-Balanced id s c w = record {
  credits = omega (arith, c, length-append s.inflight (id ∷ []));
  within = omega (arith, c, w, length-append s.inflight (id ∷ []));
}

leb→le : (a b : ℕ) → leb a b ≡ true → a ≤ b
leb→le a b h = ground arith

-- A caller that asks for a credit.
requests-Balanced : (id : ℕ) (s : Link) → Balanced s → Balanced (send_request id s)
unfolding send_request
requests-Balanced id s b = elim (Bool-cases (leb (s.taken + 1) s.depth)) [
  | inl room ↦ rw room (
      pushed-Balanced id (record s { taken = s.taken + 1 }) (omega (arith, b.credits))
        (leb→le (s.taken + 1) s.depth room))
  | inr full ↦ rw full (record {
    credits = omega (arith, b.credits, length-append s.waiting (id ∷ []));
    within = b.within;
  })
]

wakes-Balanced : (id : ℕ) (s : Link) → Balanced s → Balanced (wake_up id s)
unfolding wake_up
wakes-Balanced id s b = elim (Option-cases (remove id s.waiting)) [
  | inl e ↦ rw (e, wake_up) b
  | inr (others, e) ↦ elim (Bool-cases (leb s.taken s.depth)) [
    | inl room ↦
        rw (e, wake_up, room)
          (pushed-Balanced id (record s { waiting = others })
            (omega (arith, b.credits, remove-length id s.waiting e)) (leb→le s.taken s.depth room))
    | inr full ↦ rw (e, wake_up, full) b
  ]
]

expires-Balanced : (id : ℕ) (s : Link) → Balanced s → Balanced (time_out id s)
unfolding time_out
expires-Balanced id s b = elim (Option-cases (remove id s.waiting)) [
  | inl e ↦ rw (e, time_out) b
  | inr (others, e) ↦ elim (Bool-cases (leb s.taken s.depth)) [
    | inl room ↦ rw (e, time_out, room) b
    | inr full ↦
        rw (e, time_out, full)
          (record {
            credits = omega (arith, b.credits, remove-length id s.waiting e);
            within = b.within;
          })
  ]
]

abbrev pub Kept : Link → Link → Type 0
Kept s t = Balanced t × (t.waiting ≡ s.waiting) × (t.timeouts ≡ s.timeouts) × (t.depth ≡ s.depth)

pub loops-Balanced :
    (code : ℤ) (queue : List ℕ) (s : Link)
    → s.inflight ≡ queue
    → Balanced s
    → Returns (send_front code queue s) (Kept s)
unfolding send_front
loops-Balanced code [] s e b = (b, refl, refl, refl)
loops-Balanced code (id ∷ rest) s e b =
    let shorter = ap length e in
    elim (Bool-cases (is_negative code)) [
      | inl bad ↦ rw bad (
          finish_request-Balanced id (neg 1) (pos eio) true (record s { inflight = rest })
            (omega (arith, b.credits, shorter)) (omega (arith, b.within, shorter)))
      | inr good ↦ rw good (
        record {
          credits = omega (arith, b.credits, shorter, length-append s.sent (id ∷ []));
          within = omega (arith, b.within, shorter, length-append s.sent (id ∷ []));
        },
        refl,
        refl,
        refl,
      )
    ]

pub ends-Balanced :
    (id : ℕ) (retval errval : ℤ) (failed : Bool) (s : Link) {others : List ℕ}
    → remove id s.sent ≡ some others
    → Balanced s
    → Returns (finish_request id retval errval failed (record s { sent = others })) (Kept s)
ends-Balanced id retval errval failed s {others} e b =
    finish_request-Balanced id retval errval failed (record s { sent = others })
      (omega (arith, b.credits, remove-length id s.sent e))
      (omega (arith, b.within, remove-length id s.sent e))

-- A connection that any events have left balanced takes any event that is due without a fault, and stays
-- balanced: every credit is that of a caller that waits, of a message in the queue or under way, or of
-- a caller that was turned away; and no more messages are in the queue and under way than the depth.
pub handle-Balanced :
    (e : Event) (s : Link) → Balanced s → IsDue e s → Returns (handle e s) Balanced
unfolding handle run_loop on_response on_msg_error
handle-Balanced (requests id) s b d = requests-Balanced id s b
handle-Balanced (wakes id) s b d = wakes-Balanced id s b
handle-Balanced (expires id) s b d = expires-Balanced id s b
handle-Balanced (loops code) s b d =
    Returns-map (send_front code s.inflight s) (Kept s) Balanced
      (loops-Balanced code s.inflight s refl b) λ t k. k.0
handle-Balanced (responds id retval errval) s b (others, e) =
    rw (e, on_response)
      (Returns-map _ (Kept s) Balanced (ends-Balanced id retval errval (is_negative retval) s e b)
        λ t k. k.0)
handle-Balanced (fails id) s b (others, e) =
    rw (e, on_msg_error)
      (Returns-map _ (Kept s) Balanced (ends-Balanced id (neg 1) (pos eio) true s e b) λ t k. k.0)
