-- ===== src/Client/Session/Ends.antt =====
-- What a client leaves behind.
use gobjfs.Base.{
  ℕ, suc, ◌+◌, ◌≡◌, refl, Bool, true, false, List, [], ◌∷◌, ◌==◌, ◌&&◌, if◌then◌else◌, arith, ◌⊎◌,
  inl, inr, Bool-cases,
}
use gobjfs.Client.Session.{
  ClientSite, Connection, no_exception, create_exception, connect, unwind, end_client,
  finish_construction, new_client, SessionEvent, connection_teardown, session_teardown, other_event,
  Session, new_session, on_session_event, on_session_events, end_session, xio_run_loop_worker,
}

abbrev pub can_connect : ClientSite → Bool
can_connect site =
    site.has_room && site.makes_context && site.takes_handler && site.makes_session && site.connects
    && site.makes_mempool

-- A client that works.
abbrev pub IsConnected : ℕ → Connection → Type 0
IsConnected refcnt c =
    (c.refcnt ≡ suc refcnt)
    × (c.thread ≡ true)
    × (c.handles ≡ true)
    × (c.conn ≡ true)
    × (c.mpool ≡ true)

-- A client that could not be made: no thread, handler, session or connection is left. The counter is as it
-- was, except where there was no room for the thread: there it keeps the reference.
abbrev pub IsUndone : ClientSite → ℕ → Connection → Type 0
IsUndone site refcnt c =
    (c.refcnt ≡ (if site.has_room then refcnt else suc refcnt))
    × (c.thread ≡ false)
    × (c.handles ≡ false)
    × (c.session ≡ false)
    × (c.conn ≡ false)

-- The constructor of a client gives a client that works if all it needs is there, and otherwise throws
-- its one exception and leaves no thread, handler, session or connection; the count of the library's
-- users is then what it was, unless there was no room for the thread: there it stays too high by one.
pub new_client-can_connect :
    (site : ClientSite) (refcnt : ℕ)
    → let (thrown, c) = new_client site refcnt in
      ((can_connect site ≡ true) × (thrown ≡ no_exception) × IsConnected refcnt c)
      ⊎ ((can_connect site ≡ false) × (thrown ≡ create_exception) × IsUndone site refcnt c)
unfolding new_client finish_construction connect unwind end_client
new_client-can_connect site refcnt = ground arith

abbrev pub teardowns : List SessionEvent → ℕ
teardowns [] = 0
teardowns (connection_teardown ∷ es) = suc (teardowns es)
teardowns (session_teardown ∷ es) = teardowns es
teardowns (other_event ∷ es) = teardowns es

-- While the client serves.
events-serving :
    (es : List SessionEvent) (s : Session)
    → s.disconnecting ≡ false
    → let t = on_session_events es s in
      (t.disconnecting ≡ false)
      × (t.destroyed ≡ s.destroyed)
      × (t.disconnected ≡ (if teardowns es == 0 then s.disconnected else true))
unfolding on_session_events on_session_event
events-serving [] s h = ground arith
events-serving (connection_teardown ∷ es) s h =
    ground (arith, events-serving es (on_session_event connection_teardown s))
events-serving (session_teardown ∷ es) s h =
    ground (arith, events-serving es (on_session_event session_teardown s))
events-serving (other_event ∷ es) s h = ground (arith, events-serving es s)

-- In the last round.
events-ending :
    (es : List SessionEvent) (s : Session)
    → s.disconnecting ≡ true
    → (on_session_events es s).destroyed ≡ s.destroyed + teardowns es
unfolding on_session_events on_session_event
events-ending [] s h = omega arith
events-ending (connection_teardown ∷ es) s h =
    ground (arith, events-ending es (on_session_event connection_teardown s))
events-ending (session_teardown ∷ es) s h =
    ground (arith, events-ending es (on_session_event session_teardown s))
events-ending (other_event ∷ es) s h = events-ending es s h

-- If the network library reports the end of the connection exactly once, while the client serves or in
-- the last round, the client destroys its connection exactly once, whatever else it is told and when.
pub xio_run_loop_worker-destroyed :
    (events last : List SessionEvent)
    → teardowns events + teardowns last ≡ 1
    → (xio_run_loop_worker events last new_session).destroyed ≡ 1
unfolding xio_run_loop_worker end_session new_session
xio_run_loop_worker-destroyed events last h =
    let served = events-serving events new_session refl in
    let s = on_session_events events new_session in
    elim (Bool-cases (teardowns events == 0)) [
      | inl none_yet ↦
          ground (arith, served, events-ending last (record s { disconnecting = true }) refl)
      | inr gone ↦ ground (arith, served)
    ]
