-- ===== src/Poller/Events.antt =====
-- `EPoller` in src/util/EPoller.h, and the `EventFD` that wakes it: events are added, dropped and
-- handled, and a poller is made.
pub mod Registered
pub mod Reached
pub mod Dropped
use gobjfs.Base.{
  ℕ, suc, ◌+◌, ◌-◌, ℤ, pos, negsuc, neg, Bool, true, false, List, [], ◌∷◌, ◌++◌, Option, none, some,
  ltb, ◌==◌, ◌&&◌, is_negative, if◌then◌else◌, einval, enoent, ebadf, u64, Outcome, done, fault,
  Fault, ◌>>=◌, ◌>>◌, demand,
}
use gobjfs.Poller.Kernel.{Kernel, Answer, ok, refused}

-- A handler is the poller's own, which reads its eventfd, or a function of the caller.
pub data Handler : Type 0 where
  read_shutdown : Handler
  caller : ℕ → Handler

-- An EPollCtx, with its address.
pub record Ctx : Type 0 where
  pub addr : ℕ
  pub handler : Handler
  pub user_data : ℕ
  pub fd : ℕ
  pub magic : ℕ

abbrev pub magic_word : ℕ
magic_word = 0xDEAFBABE

-- An EventFD: its address, its descriptor, the count of its semaphore, and the value last read.
pub record EventFd : Type 0 where
  pub addr : ℕ
  pub evfd : ℕ
  pub count : ℕ
  pub last_value : ℕ

-- An EPoller. `epoll` is its descriptor with what the kernel keeps for it, and `none` where `fd_` is
-- -1; `allocated` is the next address that `new` gives out.
pub record Poller (I : Type 0) : Type 0 where
  pub epoll : Option (ℕ × I)
  pub notifier : Option EventFd
  pub must_exit : Bool
  pub num_threads : ℕ
  pub event_list : List Ctx
  pub allocated : ℕ

unfoldable pub new_poller : {I : Type 0} → Poller I
new_poller = record {
  epoll = none;
  notifier = none;
  must_exit = false;
  num_threads = 0;
  event_list = [];
  allocated = 0;
}

-- `EventFD::readfd` on a semaphore that does not block: at 0 it fails with EAGAIN, which is not turned
-- into an errno.
unfoldable pub readfd : EventFd → ℤ × EventFd
readfd e =
    if e.count == 0 then (neg 1, e) else (pos 0, record e { count = e.count - 1; last_value = 1 })

-- `EventFD::writefd`, below the largest count.
unfoldable pub writefd : EventFd → ℤ × EventFd
writefd e = (pos 0, record e { count = e.count + 1 })

-- The loop of `dropEvent` over the list: the first context of the two leaves it.
unfoldable pub erase_ctx : ℕ → ℕ → List Ctx → Bool × List Ctx
erase_ctx user_data fd [] = (false, [])
erase_ctx user_data fd (c ∷ cs) =
    let rest = erase_ctx user_data fd cs in
    if c.user_data == user_data && c.fd == fd then (true, cs) else (rest.0, c ∷ rest.1)

-- The context at an address, if it is not freed.
unfoldable pub ctx_at : ℕ → List Ctx → Option Ctx
ctx_at key [] = none
ctx_at key (c ∷ cs) = let rest = ctx_at key cs in if c.addr == key then some c else rest

module _ (K : Kernel) where
  -- `epoll_ctl` with EPOLL_CTL_ADD for a context; a context that the kernel took joins the list.
  pub register : Ctx → Option (ℕ × K.Interest) → Poller K.Interest → ℤ × Poller K.Interest
  register c none p = (neg ebadf, p)
  register c (some (epfd, i)) p = elim (K.ctl_add i c.fd c.addr) [
    | refused e ↦ (neg e, p)
    | ok i' ↦ (pos 0, record p { epoll = some (epfd, i'); event_list = p.event_list ++ c ∷ [] })
  ]

  -- The context is allocated first; where the kernel refuses it is freed again.
  unfoldable pub add_event : ℕ → ℤ → Handler → Poller K.Interest → ℤ × Poller K.Interest
  unfolding register
  add_event user_data (negsuc n) handler p = (neg einval, p)
  add_event user_data (pos fd) handler p =
      let c : Ctx = record {
        addr = p.allocated;
        handler = handler;
        user_data = user_data;
        fd = fd;
        magic = magic_word;
      } in
      register c p.epoll (record p { allocated = suc p.allocated })

  -- `epoll_ctl` with EPOLL_CTL_DEL.
  pub unregister : ℕ → Option (ℕ × K.Interest) → ℤ × Option (ℕ × K.Interest)
  unregister fd none = (neg ebadf, none)
  unregister fd (some (epfd, i)) = elim (K.ctl_del i fd) [
    | refused e ↦ (neg e, some (epfd, i))
    | ok i' ↦ (pos 0, some (epfd, i'))
  ]

  unfoldable pub drop_event : ℕ → ℕ → Poller K.Interest → ℤ × Poller K.Interest
  unfolding unregister erase_ctx
  drop_event user_data fd p =
      let (ret, epoll) = unregister fd p.epoll in
      let (found, rest) = erase_ctx user_data fd p.event_list in
      (if found then ret else neg enoent, record p { epoll = epoll; event_list = rest })

  -- The failed EPOLL_CTL_ADD of `init`: the descriptor is closed, and then the event is dropped.
  abbrev give_up : EventFd → Poller K.Interest → Poller K.Interest
  give_up e p = (drop_event e.addr e.evfd (record p { epoll = none })).1

  pub init_notifier : EventFd → Poller K.Interest → ℤ × Poller K.Interest
  unfolding add_event drop_event
  init_notifier e p =
      let (ret, p') =
        add_event e.addr (pos e.evfd) read_shutdown (record p { notifier = some e }) in
      if is_negative ret then (ret, give_up e p') else (pos 0, p')

  -- `init` with the descriptors that it is given. `close(-1)` sets errno to EBADF before it is read, and
  -- where no eventfd can be made the result stays -1.
  pub init_with : Answer (ℕ × K.Interest) → Answer ℕ → Poller K.Interest → ℤ × Poller K.Interest
  unfolding init_notifier
  init_with (refused e) _ p = (neg ebadf, record p { epoll = none })
  init_with (ok (epfd, i)) (refused e) p = (neg 1, record p { epoll = none })
  init_with (ok (epfd, i)) (ok evfd) p =
      init_notifier (record { addr = p.allocated; evfd = evfd; count = 0; last_value = 0 })
        (record p { epoll = some (epfd, i); allocated = suc p.allocated })

  unfoldable pub init : Poller K.Interest → ℤ × Poller K.Interest
  unfolding init_with
  init p = init_with K.epoll_create K.eventfd p

  -- `addToAnotherEPoller`: this poller's descriptor becomes an event of another, whose handler is this
  -- poller's `eventHandler`.
  unfoldable pub add_to_another_epoller :
      ℕ → Handler → Poller K.Interest → Poller K.Interest → ℤ × Poller K.Interest
  unfolding add_event
  add_to_another_epoller self event_handler p other =
      add_event self (elim p.epoll [ none ↦ neg 1 | some (epfd, i) ↦ pos epfd ]) event_handler other

  -- The functions of the callers; they can call the poller themselves.
  abbrev pub Callbacks : Type 0
  Callbacks = ℕ → ℕ → ℕ → Poller K.Interest → Outcome (ℤ × Poller K.Interest)

  -- The handler of the poller's eventfd.
  abbrev pub handle_shutdown : Option EventFd → Poller K.Interest → Outcome (ℤ × Poller K.Interest)
  handle_shutdown none p = fault Fault.use_after_free
  handle_shutdown (some e) p =
      let (ret, e') = readfd e in done (ret, record p { notifier = some e' })

  abbrev pub handle_event :
      Callbacks → Handler → Ctx → Poller K.Interest → Outcome (ℤ × Poller K.Interest)
  handle_event callbacks read_shutdown c p = handle_shutdown p.notifier p
  handle_event callbacks (caller h) c p = callbacks h c.fd c.user_data p

  abbrev pub handle_ctx :
      Callbacks → Option Ctx → Poller K.Interest → Outcome (ℤ × Poller K.Interest)
  handle_ctx callbacks none p = fault Fault.use_after_free
  handle_ctx callbacks (some c) p =
      if c.magic == magic_word then handle_event callbacks c.handler c p else done (neg enoent, p)

  -- `processEvent`: the word is read as the address of a context, which must not be freed.
  unfoldable pub process_event : Callbacks → ℕ → Poller K.Interest → Outcome (ℤ × Poller K.Interest)
  unfolding ctx_at readfd
  process_event callbacks key p = handle_ctx callbacks (ctx_at key p.event_list) p
