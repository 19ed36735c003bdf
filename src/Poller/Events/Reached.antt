-- ===== src/Poller/Events/Reached.antt =====
-- The pollers that a program can have, and what happens to the events that the kernel reports to one.
use gobjfs.Base.{
  ℕ, ◌≡◌, refl, ap, sym, ◌∙◌, Option, none, some, arith, ℤ, pos, Bool-cases, inl, inr, is_negative,
}
use gobjfs.Poller.Kernel.{Kernel, IsKernel, Answer, ok, refused}
use gobjfs.Poller.Events.{
  Handler, read_shutdown, Ctx, EventFd, Poller, new_poller, add_event, drop_event, init,
  process_event, init_notifier, init_with, handle_ctx, handle_event, Callbacks, magic_word, ctx_at,
}
use gobjfs.Poller.Events.Registered.{IsSynced, Reported, add_event-IsSynced, drop_event-IsSynced}

module _ (K : Kernel) where
  -- Made by `init`, whether or not it fails, and then changed by any calls of `addEvent` and
  -- `dropEvent`, also by calls for descriptors or words that are not there.
  pub data Reached : Poller K.Interest → Type 0 where
    made : Reached (init K new_poller).1
    added :
        {p : Poller K.Interest} (user_data : ℕ) (fd : ℤ) (handler : Handler)
        → Reached p
        → Reached (add_event K user_data fd handler p).1
    dropped :
        {p : Poller K.Interest} (user_data fd : ℕ)
        → Reached p
        → Reached (drop_event K user_data fd p).1

  module _ (lawful : IsKernel K) where
    closed-IsSynced :
        (p : Poller K.Interest) → IsSynced K p → IsSynced K (record p { epoll = none })
    closed-IsSynced p s = record {
      live = λ fd key h. absurd h;
      below = s.below;
      distinct = s.distinct;
    }

    init_notifier-IsSynced :
        (e : EventFd) (p : Poller K.Interest) → IsSynced K p → IsSynced K (init_notifier K e p).1
    unfolding init_notifier
    init_notifier-IsSynced e p s =
        let noted : IsSynced K (record p { notifier = some e }) = record {
          live = s.live;
          below = s.below;
          distinct = s.distinct;
        } in
        let q = add_event K e.addr (pos e.evfd) read_shutdown (record p { notifier = some e }) in
        let kept =
          add_event-IsSynced K lawful e.addr (pos e.evfd) read_shutdown
            (record p { notifier = some e }) noted in
        elim (Bool-cases (is_negative q.0)) [
          | inl failed ↦ rw failed (
              drop_event-IsSynced K lawful e.addr e.evfd (record (q.1) { epoll = none })
                (closed-IsSynced q.1 kept))
          | inr fine ↦ rw fine kept
        ]

    init_with-IsSynced :
        (a : Answer (ℕ × K.Interest)) (b : Answer ℕ)
        → a ≡ K.epoll_create
        → IsSynced K (init_with K a b new_poller).1
    unfolding init_with new_poller
    init_with-IsSynced (refused e) b h = record {
      live = λ fd key k. absurd k;
      below = tt;
      distinct = tt;
    }
    init_with-IsSynced (ok (epfd, i)) (refused e) h = record {
      live = λ fd key k. absurd k;
      below = tt;
      distinct = tt;
    }
    init_with-IsSynced (ok (epfd, i)) (ok evfd) h =
        init_notifier-IsSynced (record { addr = 0; evfd = evfd; count = 0; last_value = 0 })
          (record new_poller { epoll = some (epfd, i); allocated = 1 })
          (record {
            live = λ fd key k. let gone = lawful.created epfd i fd (sym h) in cc;
            below = tt;
            distinct = tt;
          })

    pub Reached-IsSynced : {p : Poller K.Interest} → Reached p → IsSynced K p
    unfolding init
    Reached-IsSynced made = init_with-IsSynced K.epoll_create K.eventfd refl
    Reached-IsSynced (added user_data fd handler r) =
        add_event-IsSynced K lawful user_data fd handler _ (Reached-IsSynced r)
    Reached-IsSynced (dropped user_data fd r) =
        drop_event-IsSynced K lawful user_data fd _ (Reached-IsSynced r)

    handle_ctx-live :
        (callbacks : Callbacks K) (c : Ctx) (p : Poller K.Interest)
        → c.magic ≡ magic_word
        → handle_ctx K callbacks (some c) p ≡ handle_event K callbacks c.handler c p
    handle_ctx-live callbacks c p word = ground arith

    -- Whatever events were added and dropped, an event that the kernel reports reaches the handler of a
    -- context in the list that was added for the descriptor of the event, and no freed context is read.
    pub Reached-process_event :
        (callbacks : Callbacks K) (fd key : ℕ) {p : Poller K.Interest}
        → Reached p
        → Reported K p.epoll fd key
        → (c : Ctx) × (ctx_at key p.event_list ≡ some c)
          × (c.fd ≡ fd)
          × (process_event K callbacks key p ≡ handle_event K callbacks c.handler c p)
    unfolding process_event
    Reached-process_event callbacks fd key {p} r h =
        let (c, at, same, word) = (Reached-IsSynced r).live fd key h in
        (
          c,
          at,
          same,
          ap (λ (o : Option Ctx). handle_ctx K callbacks o p) at
              ∙ handle_ctx-live callbacks c p word,
        )
