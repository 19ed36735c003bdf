-- ===== src/Tests/Lifecycles.antt =====
-- The start and the end of servers and clients.
use gobjfs.Base.{some, ◌≡◌, ◌≢◌, refl, pos, true, false, [], ◌∷◌, ◌⊎◌}
use gobjfs.Client.Session.{
  ClientSite, no_exception, create_exception, new_client, connection_teardown, session_teardown,
  other_event, new_session, xio_run_loop_worker,
}
use gobjfs.Client.Session.Ends.{
  can_connect, IsConnected, IsUndone, new_client-can_connect, xio_run_loop_worker-destroyed,
}
use gobjfs.Server.Ending.{
  Ending, returned, over, locked, serving, Reached, serves, next, leaves, releases, sets_stopped,
  destroys, calls, tells, removes, stops_loop, returns, leave_loop, release, set_stopped,
  destroy_service, drain_workers, set_stopping, remove_handler, stop_loop, return_stopped,
}
use gobjfs.Server.Ending.Order.{Reached-returned}
use gobjfs.Server.IoThread.{IoSite, new_io_handler, delete_io_handler}
use gobjfs.Server.IoThread.Descriptors.{times, delete_io_handler-new_io_handler}

-- The server is shut down and ends.
abbrev shut_down : Ending
shut_down = return_stopped (
    destroy_service (
      set_stopped
        (release (leave_loop (stop_loop (remove_handler (set_stopping (drain_workers serving))))))))

over-locked : over ≢ locked
over-locked e = cc

shut_down-Reached : Reached shut_down
unfolding serving drain_workers set_stopping remove_handler stop_loop leave_loop release set_stopped
    destroy_service return_stopped
shut_down-Reached =
    let told = next (next serves (calls _ refl)) (tells _ refl) in
    let waits = next (next told (removes _ refl)) (stops_loop _ refl) in
    let out = next (next waits (leaves _ refl refl)) (releases _ refl) in
    let ended = next (next out (sets_stopped _ refl)) (destroys _ refl) in
    next ended (returns _ refl refl over-locked)

shut_down-returned : shut_down.stopper ≡ returned
unfolding return_stopped
shut_down-returned = refl

returned_example :
    (shut_down.runner ≡ over) × (shut_down.has_context ≡ false) × (shut_down.has_service ≡ false)
returned_example = Reached-returned shut_down shut_down-Reached shut_down-returned

abbrev client_site : ClientSite
client_site = record {
  has_room = true;
  makes_context = true;
  takes_handler = true;
  makes_session = true;
  connects = false;
  makes_mempool = true;
}

unconnected_example :
    let (thrown, c) = new_client client_site 1 in
    ((can_connect client_site ≡ true) × (thrown ≡ no_exception) × IsConnected 1 c)
    ⊎ ((can_connect client_site ≡ false) × (thrown ≡ create_exception) × IsUndone client_site 1 c)
unconnected_example = new_client-can_connect client_site 1

destroyed_example :
    (xio_run_loop_worker
      (other_event ∷ [])
      (connection_teardown ∷ session_teardown ∷ [])
      new_session).destroyed
    ≡ 1
destroyed_example =
    xio_run_loop_worker-destroyed (other_event ∷ []) (connection_teardown ∷ session_teardown ∷ [])
      refl

-- The epoll descriptor is 12, and there is no room for a thread.
abbrev crowded_site : IoSite
crowded_site = record {
  event = some (record { read_fd = pos 10; write_fd = pos 11 });
  epoll = some (pos 12);
  adds_event = true;
  notifier = some (pos 13);
  adds_notifier = true;
  has_thread_room = false;
}

descriptors_example :
    let h = delete_io_handler (new_io_handler crowded_site) in
    (times (pos 12) h.closed ≡ times (pos 12) h.opened) × (h.joinable ≡ false)
descriptors_example = delete_io_handler-new_io_handler crowded_site (pos 12)
