-- ===== src/Server/IoThread.antt =====
-- The constructor and the destructor of NetworkXioIOHandler in src/networkxio/NetworkXioIOHandler.cpp,
-- with the ShutdownNotifier of its completion thread in src/util/ShutdownNotifier.cpp.
pub mod Descriptors
use gobjfs.Base.{
  ℕ, ℤ, pos, neg, Bool, true, false, List, [], ◌∷◌, ◌++◌, Option, none, some, eq_ℤ, if◌then◌else◌,
}
use gobjfs.File.{EventFd}
use gobjfs.File.Init.{event_fd_close, event_fd_get_read_fd}

-- What the calls of the constructor answer: `IOExecEventFdOpen` a pipe or null; `epoll_create1` and
-- `eventfd` a descriptor or nothing; the two calls of `epoll_ctl` if they succeed; and if there is room
-- for a thread.
pub record IoSite : Type 0 where
  pub event : Option EventFd
  pub epoll : Option ℤ
  pub adds_event : Bool
  pub notifier : Option ℤ
  pub adds_notifier : Bool
  pub has_thread_room : Bool

-- The handler; nothing for a descriptor is -1. `opened` and `closed` are the descriptors that were opened
-- and those that were closed, newest first.
pub record IoHandler : Type 0 where
  pub event_handle : Option EventFd
  pub epollfd : Option ℤ
  pub shutdown_fd : Option ℤ
  pub joinable : Bool
  pub opened : List ℤ
  pub closed : List ℤ

abbrev pub blank : IoHandler
blank = record {
  event_handle = none;
  epollfd = none;
  shutdown_fd = none;
  joinable = false;
  opened = [];
  closed = [];
}

-- The thread is made.
unfoldable pub start_thread : IoSite → IoHandler → IoHandler
start_thread site h = record h { joinable = site.has_thread_room }

-- `ShutdownNotifier::init`: the code, and the notifier, which keeps its descriptor.
unfoldable pub init_notifier : IoSite → IoHandler → ℤ × IoHandler
init_notifier site h = elim site.notifier [
  | none ↦ (neg 1, h)
  | some fd ↦ (
    if site.adds_notifier then pos 0 else neg 1,
    record h { shutdown_fd = some fd; opened = fd ∷ h.opened },
  )
]

abbrev start_if_ready : IoSite → ℤ × IoHandler → IoHandler
start_if_ready site (err, h) = if eq_ℤ err (pos 0) then start_thread site h else h

-- From `epoll_create1` on.
unfoldable pub open_epoll : IoSite → IoHandler → IoHandler
unfolding start_thread init_notifier
open_epoll site h = elim site.epoll [
  | none ↦ h
  | some fd ↦
      let h' : IoHandler = record h { epollfd = some fd; opened = fd ∷ h.opened } in
      if site.adds_event then start_if_ready site (init_notifier site h') else h'
]

-- The constructor catches its own exceptions: whatever fails, there is a handler.
unfoldable pub new_io_handler : IoSite → IoHandler
unfolding open_epoll event_fd_get_read_fd
new_io_handler site = elim site.event [
  | none ↦ blank
  | some event ↦
      let h : IoHandler = record blank {
        event_handle = some event;
        opened = event.write_fd ∷ event.read_fd ∷ [];
      } in
      if eq_ℤ (event_fd_get_read_fd (some event)) (neg 1) then h else open_epoll site h
]

abbrev pub close_one : Option ℤ → List ℤ → List ℤ
close_one none closed = closed
close_one (some fd) closed = fd ∷ closed

-- `ShutdownNotifier::destroy`
unfoldable pub destroy_notifier : IoHandler → IoHandler
destroy_notifier h = record h { shutdown_fd = none; closed = close_one h.shutdown_fd h.closed }

-- `send` succeeds if there is a descriptor, and the thread is then joined; without a thread `join` throws,
-- and the notifier is left to its own destructor.
unfoldable pub end_thread : IoHandler → IoHandler
unfolding destroy_notifier
end_thread h = elim h.shutdown_fd [
  | none ↦ destroy_notifier h
  | some fd ↦ if h.joinable then destroy_notifier (record h { joinable = false }) else h
]

-- The pipe and the epoll descriptor.
unfoldable pub close_files : IoHandler → IoHandler
unfolding event_fd_close
close_files h = record h {
  event_handle = none;
  epollfd = none;
  closed = close_one h.epollfd (event_fd_close h.event_handle h.closed);
}

-- The destructor, and after it that of the notifier.
unfoldable pub delete_io_handler : IoHandler → IoHandler
unfolding end_thread close_files destroy_notifier
delete_io_handler h = destroy_notifier (close_files (end_thread h))
