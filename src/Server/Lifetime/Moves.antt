-- ===== src/Server/Lifetime/Moves.antt =====
-- The references to the data of clients after each step.
use gobjfs.Base.{
  ℕ, suc, ◌+◌, ◌≡◌, refl, ℤ, pos, true, List, [], ◌∷◌, ◌++◌, length, All, All-append, length-append,
  arith, none, some, Option, Option-cases, ◌==◌, if◌then◌else◌, Bool-cases, inl, inr, ap, ◌∙◌, sym,
  subst, Returns, eq_ℤ, ◌⊎◌, Returns->>=, Bool, false, fault, Fault,
}
use gobjfs.Server.{Request, Message, Client, Server, Net, owned}
use gobjfs.Server.Handler.{process_request, complete_read}
use gobjfs.Server.Handler.Replies.{process_request-cases, complete_read-cases}
use gobjfs.Util.Align.{is_direct_io_aligned}
use gobjfs.Server.Steps.{
  create_session_connection, destroy_session_connection, on_request, new_request, work_on, reply_to,
  finish_read, take_request, on_msg_send_complete, client_at, put_client,
}
use gobjfs.Server.Lifetime.{
  Accounted, IsAccounted, owned-append, moved-IsAccounted, set-IsAccounted,
  deallocate_request-IsAccounted, self-owned, other-owned, gone-absurd,
}

pub at-Accounted :
    (held : List Request) (c : ℕ) (s : Server) {o : Option Client}
    → IsAccounted held s
    → s.clients c ≡ o
    → Accounted held c o s
at-Accounted held c s v e = subst (λ (o : Option Client). Accounted held c o s) e (v c)

pub connects-IsAccounted :
    (c : ℕ) (s : Server)
    → IsAccounted [] s
    → s.clients c ≡ none
    → IsAccounted [] (create_session_connection c s)
unfolding create_session_connection
connects-IsAccounted c s v free =
    set-IsAccounted [] [] c _ s _ refl (omega (arith, at-Accounted [] c s v free), (λ e. cc), tt)
      (λ x miss. refl) v

pub disconnects-IsAccounted :
    (c : ℕ) (s : Server) (d : Client)
    → IsAccounted [] s
    → s.clients c ≡ some d
    → Returns (destroy_session_connection c s) (IsAccounted [])
unfolding destroy_session_connection
disconnects-IsAccounted c s d v here =
    let a = at-Accounted [] c s v here in
    rw (here, client_at)
      (elim (Bool-cases (d.refcnt == 0)) [
        | inl last ↦
            rw last (set-IsAccounted [] [] c none s _ refl (ground (arith, a.0)) (λ x miss. refl) v)
        | inr more ↦ rw more (
            set-IsAccounted [] [] c (some (record d { disconnected = true })) s _ refl
              (a.0, (λ e. ground arith), a.2) (λ x miss. refl) v)
      ])

pub message-IsAccounted :
    (id c : ℕ) (header : List ℕ) (s : Server) (d : Client)
    → IsAccounted [] s
    → s.clients c ≡ some d
    → Returns (on_request id c header s) (IsAccounted [])
unfolding on_request
message-IsAccounted id c header s d v here =
    let a = at-Accounted [] c s v here in
    let req : Request = new_request id c header in
    let longer = λ (x : ℕ). owned-append x s.inflight (req ∷ []) in
    rw (here, client_at)
      (set-IsAccounted [] [] c (some (record d { refcnt = suc d.refcnt })) s _ refl
        (omega (arith, a.0, longer c, self-owned req), (λ e. omega arith), a.2)
        (λ x miss. omega (arith, longer x, other-owned req x miss)) v)

pub same_owned : (a b : Request) (c : ℕ) → a.client ≡ b.client → owned c (a ∷ []) ≡ owned c (b ∷ [])
same_owned a b c e = ap (λ (k : ℕ). (if k == c then 1 else 0) + 0) e

works_on-IsAccounted :
    (s : Server) (req : Request) (rest : List Request) (now : Bool) (worked : Request)
    → s.inflight ≡ req ∷ rest
    → worked.client ≡ req.client
    → IsAccounted [] s
    → IsAccounted [] (
        if now
        then record s { inflight = rest; finished = s.finished ++ worked ∷ [] }
        else record s { inflight = rest; reading = s.reading ++ worked ∷ [] })
works_on-IsAccounted s req rest now worked e mine v =
    let same = λ (c : ℕ). same_owned worked req c mine in
    let before = λ (c : ℕ). ap (owned c) e in
    elim (Bool-cases now) [
      | inl at_once ↦ rw at_once (
          moved-IsAccounted [] [] s _ refl
            (λ c. omega (arith, before c, same c, owned-append c s.finished (worked ∷ []))) v)
      | inr later ↦ rw later (
          moved-IsAccounted [] [] s _ refl
            (λ c. omega (arith, before c, same c, owned-append c s.reading (worked ∷ []))) v)
    ]

-- The first request that waits is a read at an offset that is not aligned.
abbrev pub NextIsUnaligned : Net → List Request → Type 0
NextIsUnaligned net [] = ⊥
NextIsUnaligned net (req ∷ rest) =
    (msg : Message) × (net.unpack req.header ≡ some msg) × (is_direct_io_aligned msg.offset ≡ false)

pub works-cases :
    (net : Net) (s : Server) (queue : List Request)
    → s.inflight ≡ queue
    → IsAccounted [] s
    → Returns (work_on net queue s) (IsAccounted [])
      ⊎ ((work_on net queue s ≡ fault Fault.assert_failed) × NextIsUnaligned net queue)
unfolding work_on
works-cases net s [] e v = inl v
works-cases net s (req ∷ rest) e v = elim (process_request-cases net req) [
  | inl ends ↦ inl (
      Returns->>= (process_request net req) _ (λ r. r.1.client ≡ req.client) _ ends
        (λ r mine. works_on-IsAccounted s req rest r.0 r.1 e mine v))
  | inr (aborts, msg, told, odd) ↦ inr (rw (aborts, work_on) refl, (msg, told, odd))
]

pub in_hand :
    (s : Server) (req : Request) (rest : List Request)
    → s.finished ≡ req ∷ rest
    → IsAccounted [] s
    → IsAccounted (req ∷ []) (record s { finished = rest })
in_hand s req rest e v =
    moved-IsAccounted [] (req ∷ []) s _ refl (λ c. omega (arith, ap (owned c) e)) v

pub replies-IsAccounted :
    (net : Net) (s : Server) (queue : List Request)
    → s.finished ≡ queue
    → IsAccounted [] s
    → Returns (reply_to net queue s) (IsAccounted [])
unfolding reply_to
replies-IsAccounted net s [] e v = v
replies-IsAccounted net s (req ∷ rest) e v =
    let s' : Server = record s { finished = rest } in
    let w = in_hand s req rest e v in
    elim (Bool-cases (eq_ℤ (net.send_response req) (pos 0))) [
      | inr failed ↦ rw failed (deallocate_request-IsAccounted req s' w)
      | inl sent_off ↦ elim (Option-cases (s.clients req.client)) [
        | inl gone ↦ gone-absurd req s' w gone
        | inr (d, here) ↦
            let a = at-Accounted (req ∷ []) req.client s' w here in
            rw (sent_off, here, client_at)
              (set-IsAccounted (req ∷ []) [] req.client
                (some (record d { done_reqs = d.done_reqs ++ req ∷ [] })) s' _ refl
                (
                  omega (arith, a.0, self-owned req, length-append d.done_reqs (req ∷ [])),
                  a.1,
                  All-append _ d.done_reqs (req ∷ []) a.2 (refl, tt),
                )
                (λ x miss. omega (arith, other-owned req x miss)) w)
      ]
    ]

pub take_request-cases :
    (id : ℕ) (x : Request) (xs : List Request) {req : Request} {others : List Request}
    → take_request id (x ∷ xs) ≡ some (req, others)
    → ((req ≡ x) × (others ≡ xs))
      ⊎ ((rest : List Request) × (take_request id xs ≡ some (req, rest)) × (others ≡ x ∷ rest))
unfolding take_request
take_request-cases id x xs {req} {others} h = elim (Bool-cases (x.id == id)) [
  | inl hit ↦ inl (ground arith)
  | inr miss ↦ elim (Option-cases (take_request id xs)) [
    | inl e ↦ ground arith
    | inr (t, e) ↦ inr (t.1, ground arith, ground arith)
  ]
]

pub take_request-owned :
    (id c : ℕ) (reqs : List Request) {req : Request} {others : List Request}
    → take_request id reqs ≡ some (req, others)
    → owned c reqs ≡ owned c (req ∷ []) + owned c others
unfolding take_request
take_request-owned id c [] h = cc
take_request-owned id c (x ∷ xs) {req} {others} h = elim (take_request-cases id x xs h) [
  | inl (e, f) ↦ rw (e, f) (omega arith)
  | inr (rest, e, f) ↦ rw f (omega (arith, take_request-owned id c xs e))
]

read_done-moved :
    (id : ℕ) (s : Server) (req done_req : Request) (others : List Request)
    → take_request id s.reading ≡ some (req, others)
    → done_req.client ≡ req.client
    → IsAccounted [] s
    → IsAccounted [] (record s { reading = others; finished = s.finished ++ done_req ∷ [] })
read_done-moved id s req done_req others e mine v =
    moved-IsAccounted [] [] s _ refl
      (λ c. omega (
        arith,
        take_request-owned id c s.reading e,
        same_owned done_req req c mine,
        owned-append c s.finished (done_req ∷ []),
      ))
      v

-- A read ends with its account in order, or, at an offset that is not aligned, with the server.
pub read_done-cases :
    (id : ℕ) (code : ℤ) (s : Server) {req : Request} {others : List Request}
    → take_request id s.reading ≡ some (req, others)
    → IsAccounted [] s
    → Returns (finish_read id code s) (IsAccounted [])
      ⊎ ((finish_read id code s ≡ fault Fault.assert_failed)
          × (is_direct_io_aligned req.offset ≡ false))
unfolding finish_read
read_done-cases id code s {req} {others} e v = elim (complete_read-cases code req) [
  | inl (even, ends) ↦ inl (
      rw (e, finish_read)
        (Returns->>= (complete_read code req) _ (λ r. r.client ≡ req.client) _ ends
          (λ r mine. read_done-moved id s req r others e mine v)))
  | inr (odd, aborts) ↦ inr (rw (e, finish_read, aborts) refl, odd)
]

pub sent-IsAccounted :
    (c : ℕ) (s : Server) (d : Client) (req : Request) (rest : List Request)
    → s.clients c ≡ some d
    → d.done_reqs ≡ req ∷ rest
    → IsAccounted [] s
    → Returns (on_msg_send_complete c s) (IsAccounted [])
unfolding on_msg_send_complete
sent-IsAccounted c s d req rest here e v =
    let a = at-Accounted [] c s v here in
    let mine = subst (All (λ r. r.client ≡ c)) e a.2 in
    let self = ap (λ (k : ℕ). owned k (req ∷ [])) (sym mine.0) ∙ self-owned req in
    rw (here, client_at, e)
      (deallocate_request-IsAccounted req (put_client c (record d { done_reqs = rest }) s) (
        set-IsAccounted [] (req ∷ []) c (some (record d { done_reqs = rest })) s _ refl
          (omega (arith, a.0, ap length e, self), a.1, mine.1)
          (λ x miss. omega (arith, other-owned req x (ap (λ (k : ℕ). x == k) mine.0 ∙ miss))) v))
