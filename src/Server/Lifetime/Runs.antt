-- ===== src/Server/Lifetime/Runs.antt =====
-- Any order of events at the server.
use gobjfs.Base.{
  ℕ, ◌+◌, ◌≡◌, ◌≢◌, refl, ℤ, true, false, List, [], ◌∷◌, length, arith, none, some, subst, done,
  Returns, Outcome, ◌⊎◌, inl, inr, fault, Fault, false, sym, ◌∙◌,
}
use gobjfs.Util.Align.{is_direct_io_aligned}
use gobjfs.Server.{Request, Client, Server, Net, owned}
use gobjfs.Server.Steps.{
  create_session_connection, destroy_session_connection, on_request, work, finish_read,
  take_request, send_reply, on_msg_send_complete,
}
use gobjfs.Server.Lifetime.{IsAccounted}
use gobjfs.Server.Lifetime.Moves.{
  at-Accounted, connects-IsAccounted, disconnects-IsAccounted, message-IsAccounted, works-cases,
  replies-IsAccounted, read_done-cases, NextIsUnaligned, sent-IsAccounted,
}

-- What can happen: the network library reports a connection or the end of one, a message, or that a
-- reply was sent; a worker takes a request; a read is done; and a finished request is answered.
pub data Event : Type 0 where
  connects disconnects sent : ℕ → Event
  message : ℕ → ℕ → List ℕ → Event
  works replies : Event
  read_done : ℕ → ℤ → Event

unfoldable pub handle : Net → Event → Server → Outcome Server
handle net (connects c) s = done (create_session_connection c s)
handle net (disconnects c) s = destroy_session_connection c s
handle net (sent c) s = on_msg_send_complete c s
handle net (message id c header) s = on_request id c header s
handle net works s = work net s
handle net replies s = send_reply net s
handle net (read_done id code) s = finish_read id code s

-- The library gives a connection an address that is free, speaks of connections that are there, ends
-- each once, and reports a reply as sent only if one is on its way; and the file interface reports
-- reads that are under way.
abbrev pub IsPossible : Event → Server → Type 0
IsPossible (connects c) s = s.clients c ≡ none
IsPossible (disconnects c) s = (d : Client) × (s.clients c ≡ some d) × (d.disconnected ≡ false)
IsPossible (sent c) s =
    (d : Client) × (req : Request) × (rest : List Request) × (s.clients c ≡ some d)
    × (d.done_reqs ≡ req ∷ rest)
IsPossible (message id c header) s = (d : Client) × (s.clients c ≡ some d)
IsPossible works s = Unit
IsPossible replies s = Unit
IsPossible (read_done id code) s =
    (req : Request) × (others : List Request) × (take_request id s.reading ≡ some (req, others))

-- The event is about a read at an offset that is not aligned.
abbrev pub AboutUnaligned : Net → Event → Server → Type 0
AboutUnaligned net works s = NextIsUnaligned net s.inflight
AboutUnaligned net (read_done id code) s =
    (req : Request) × (others : List Request) × (take_request id s.reading ≡ some (req, others))
    × (is_direct_io_aligned req.offset ≡ false)
AboutUnaligned net _ s = ⊥

-- Along the events.
handle-cases :
    (net : Net) (e : Event) (s : Server)
    → IsAccounted [] s
    → IsPossible e s
    → Returns (handle net e s) (IsAccounted [])
      ⊎ ((handle net e s ≡ fault Fault.assert_failed) × AboutUnaligned net e s)
unfolding handle work send_reply
handle-cases net (connects c) s v p = inl (connects-IsAccounted c s v p)
handle-cases net (disconnects c) s v (d, here, on) = inl (disconnects-IsAccounted c s d v here)
handle-cases net (sent c) s v (d, req, rest, here, e) =
    inl (sent-IsAccounted c s d req rest here e v)
handle-cases net (message id c header) s v (d, here) =
    inl (message-IsAccounted id c header s d v here)
handle-cases net works s v p = works-cases net s s.inflight refl v
handle-cases net replies s v p = inl (replies-IsAccounted net s s.finished refl v)
handle-cases net (read_done id code) s v (req, others, e) = elim (read_done-cases id code s e v) [
  | inl fine ↦ inl fine
  | inr (aborts, odd) ↦ inr (aborts, (req, others, e, odd))
]

abbrev pub idle : Server
idle = record {
  clients = λ c. none;
  inflight = [];
  reading = [];
  finished = [];
  released = [];
  deleted = [];
}

-- The servers that possible events lead to.
pub data Reached (net : Net) : Server → Type 0 where
  at_start : Reached net idle
  after :
      {s t : Server} (e : Event)
      → Reached net s
      → IsPossible e s
      → handle net e s ≡ done t
      → Reached net t

done-neq_fault : {A B : Type 0} {a : A} {e : Fault} → done a ≡ fault e → B
done-neq_fault h = cc

idle-IsAccounted : IsAccounted [] idle
idle-IsAccounted c = refl

Reached-IsAccounted : (net : Net) (s : Server) → Reached net s → IsAccounted [] s
Reached-IsAccounted net _ at_start = idle-IsAccounted
Reached-IsAccounted net _ (after {s} e r p h) =
    elim (handle-cases net e s (Reached-IsAccounted net s r) p) [
      | inl fine ↦ subst (λ o. Returns o (IsAccounted [])) h fine
      | inr (aborts, odd) ↦ absurd (done-neq_fault (sym h ∙ aborts))
    ]

-- Whatever happens in whatever order, whatever the clients send and whatever the file interface and the
-- network library answer: an event that is possible at a server uses no client's data after it was
-- deleted and takes no reference count below 0, and afterwards the count of each client is again the
-- number of its requests that wait, are read, are finished or are answered and not yet sent. The one
-- exception is a read at an offset that is not aligned: where the file interface refuses it, or where
-- it ends, a failed assertion may end the server, and nothing else can go wrong there.
pub Reached-handle :
    (net : Net) (e : Event) (s : Server)
    → Reached net s
    → IsPossible e s
    → Returns (handle net e s) (IsAccounted [])
      ⊎ ((handle net e s ≡ fault Fault.assert_failed) × AboutUnaligned net e s)
Reached-handle net e s r p = handle-cases net e s (Reached-IsAccounted net s r) p

-- No client's data is left behind: where a client is gone and none of its requests is with the server,
-- nor a reply of its under way, its data has been deleted.
pub Reached-deleted :
    (net : Net) (s : Server) (c : ℕ) (d : Client)
    → Reached net s
    → owned c s.inflight + owned c s.reading + owned c s.finished + length d.done_reqs ≡ 0
    → d.disconnected ≡ true
    → s.clients c ≢ some d
Reached-deleted net s c d r none_left gone = λ here.
    let a = at-Accounted [] c s (Reached-IsAccounted net s r) here in
    omega (arith, a.0, a.1 gone, none_left)
