-- ===== src/Client/Session.antt =====
-- The start of a NetworkXioClient and the end of its session: the constructor, `run`,
-- `xio_run_loop_worker` and `on_session_event` in src/networkxio/NetworkXioClient.cpp.
pub mod Ends
use gobjfs.Base.{ℕ, suc, ◌+◌, ◌-◌, Bool, true, false, List, [], ◌∷◌, ◌==◌, if◌then◌else◌}

-- What a client finds: if there is room for its thread, and if the network library makes its context,
-- adds the handler of events, makes the session, connects, and makes the pool.
pub record ClientSite : Type 0 where
  pub has_room : Bool
  pub makes_context : Bool
  pub takes_handler : Bool
  pub makes_session : Bool
  pub connects : Bool
  pub makes_mempool : Bool

-- What the client and its thread have. `refcnt` is `xio_init_refcnt`; a context gives one back when it
-- is destroyed, also a null one.
pub record Connection : Type 0 where
  pub refcnt : ℕ
  pub thread : Bool
  pub owns_context : Bool
  pub handles : Bool
  pub session : Bool
  pub conn : Bool
  pub mpool : Bool

-- After `xrefcnt_init`.
abbrev pub unconnected : ℕ → Connection
unconnected refcnt = record {
  refcnt = suc refcnt;
  thread = false;
  owns_context = false;
  handles = false;
  session = false;
  conn = false;
  mpool = false;
}

-- An exception or not.
pub data Thrown : Type 0 where
  no_exception create_exception register_exception : Thrown

-- `run` up to `promise.set_value(true)`.
unfoldable pub connect : ClientSite → Connection → Thrown × Connection
connect site c =
    if site.makes_context
    then (if site.takes_handler
        then (if site.makes_session
            then (if site.connects
                then (
                  no_exception,
                  record c { owns_context = true; handles = true; session = true; conn = true },
                )
                else (
                  create_exception,
                  record c { owns_context = true; handles = false; session = true },
                ))
            else (create_exception, record c { owns_context = true; handles = false }))
        else (register_exception, record c { owns_context = true }))
    else (create_exception, record c { owns_context = true })

-- The members of a client whose constructor throws are destroyed.
unfoldable pub unwind : Connection → Connection
unwind c = record c {
  refcnt = if c.owns_context then c.refcnt - 1 else c.refcnt;
  owns_context = false;
  session = false;
  mpool = false;
}

-- `shutdown` of a client whose thread runs: it ends and is joined. Its connection is given back.
unfoldable pub end_client : Connection → Connection
end_client c = record c { handles = false; thread = false; conn = false }

-- After `future.get()`: an exception of the thread, which is then joined, becomes the client's; and the
-- pool is made.
unfoldable pub finish_construction : ClientSite → Thrown × Connection → Thrown × Connection
unfolding unwind end_client
finish_construction site (no_exception, c) =
    if site.makes_mempool
    then (no_exception, record c { thread = true; mpool = true })
    else (create_exception, unwind (end_client (record c { thread = true })))
finish_construction site (create_exception, c) = (create_exception, unwind c)
finish_construction site (register_exception, c) = (create_exception, unwind c)

-- The constructor, where the counter has some value.
unfoldable pub new_client : ClientSite → ℕ → Thrown × Connection
unfolding finish_construction connect unwind
new_client site refcnt =
    if site.has_room
    then finish_construction site (connect site (unconnected refcnt))
    else (create_exception, unwind (unconnected refcnt))

-- xio_session_event
pub data SessionEvent : Type 0 where
  connection_teardown session_teardown other_event : SessionEvent

-- `destroyed` counts the calls of `xio_connection_destroy`, and `stops` those of
-- `xio_context_stop_loop`.
pub record Session : Type 0 where
  pub disconnected : Bool
  pub disconnecting : Bool
  pub destroyed : ℕ
  pub stops : ℕ

unfoldable pub new_session : Session
new_session = record { disconnected = false; disconnecting = false; destroyed = 0; stops = 0 }

unfoldable pub on_session_event : SessionEvent → Session → Session
on_session_event connection_teardown s = record s {
  destroyed = if s.disconnecting then s.destroyed + 1 else s.destroyed;
  disconnected = true;
}
on_session_event session_teardown s = record s { stops = s.stops + 1 }
on_session_event other_event s = s

-- The events of some rounds of `xio_context_run_loop`.
unfoldable pub on_session_events : List SessionEvent → Session → Session
unfolding on_session_event
on_session_events [] s = s
on_session_events (e ∷ es) s = on_session_events es (on_session_event e s)

-- After `xio_disconnect`: the last round, with its events, or the end of a connection that is gone.
unfoldable pub end_session : List SessionEvent → Session → Session
unfolding on_session_events
end_session last s =
    if s.disconnected
    then record s { destroyed = s.destroyed + 1 }
    else on_session_events last (record s { disconnecting = true })

-- `xio_run_loop_worker`, with the events of its rounds until `stopping` is set and until the call of
-- `xio_disconnect` returns, and those of the last round. What it does to messages is in `Client.Credits`.
unfoldable pub xio_run_loop_worker : List SessionEvent → List SessionEvent → Session → Session
unfolding end_session on_session_events
xio_run_loop_worker events last s = end_session last (on_session_events events s)
