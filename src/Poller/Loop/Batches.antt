-- ===== src/Poller/Loop/Batches.antt =====
-- `run` for a number of rounds.
use gobjfs.Base.{
  ℕ, zero, suc, ◌≤◌, ◌≡◌, refl, ap, sym, ◌∙◌, ℤ, pos, Bool, true, false, List, [], ◌∷◌, ◌++◌,
  Option, none, some, ◌==◌, ◌&&◌, not, arith, Outcome, done, ◌>>=◌, Returns, Returns-done, All,
  length, take, subst, ==_iff, Returns->>=, ◌||◌, >>=_assoc, Returns-cong, >>=-cong, All-prefix,
  All-suffix,
}
use gobjfs.Poller.Kernel.{Kernel}
use gobjfs.Poller.Events.{
  Handler, Ctx, EventFd, handle_shutdown, Poller, Callbacks, read_shutdown, caller, process_event,
  handle_ctx, handle_event, ctx_at, magic_word,
}
use gobjfs.Poller.Loop.{
  Wait, failed, ready, process_events, run_loop, run, entered, left, interrupted,
}

-- The words of the events that were ready, in the order in which they were delivered.
abbrev pub batches : List Wait → List (List ℕ)
batches [] = []
batches (failed e ∷ ws) = batches ws
batches (ready keys ∷ ws) = keys ∷ batches ws

abbrev pub concat : List (List ℕ) → List ℕ
concat [] = []
concat (xs ∷ xss) = xs ++ concat xss

abbrev pub is_there : Option EventFd → Bool
is_there none = false
is_there (some e) = true

module _ (K : Kernel) where
  -- A state that has the same list of events as another, an eventfd, and has not been told to end.
  abbrev pub Same : List Ctx → Poller K.Interest → Type 0
  Same cs p = (p.event_list ≡ cs) × (is_there p.notifier ≡ true) × (p.must_exit ≡ false)

  -- The word of a context that is in the list.
  abbrev pub Found : List Ctx → ℕ → Type 0
  Found cs key = (c : Ctx) × (ctx_at key cs ≡ some c) × (c.magic ≡ magic_word)

  module _ (callbacks : Callbacks K) (cs : List Ctx)
      (quiet : (h fd user_data : ℕ) (p : Poller K.Interest)
        → Same cs p
        → Returns (callbacks h fd user_data p) (λ r. Same cs r.1)) where
    handle_shutdown-Same :
        (o : Option EventFd) (p : Poller K.Interest)
        → is_there o ≡ true
        → Same cs p
        → Returns (handle_shutdown K o p) (λ r. Same cs r.1)
    handle_shutdown-Same none p h s = cc
    handle_shutdown-Same (some e) p h s = (s.0, refl, s.2)

    handle_event-Same :
        (h : Handler) (c : Ctx) (p : Poller K.Interest)
        → Same cs p
        → Returns (handle_event K callbacks h c p) (λ r. Same cs r.1)
    handle_event-Same read_shutdown c p s = handle_shutdown-Same p.notifier p s.1 s
    handle_event-Same (caller h) c p s = quiet h c.fd c.user_data p s

    handle_ctx-Same :
        (c : Ctx) (p : Poller K.Interest)
        → c.magic ≡ magic_word
        → Same cs p
        → Returns (handle_ctx K callbacks (some c) p) (λ r. Same cs r.1)
    handle_ctx-Same c p word s =
        let same : (c.magic == magic_word) ≡ true = (==_iff c.magic magic_word).1 word in
        rw same (handle_event-Same c.handler c p s)

    process_event-Same :
        (key : ℕ) (p : Poller K.Interest)
        → Found cs key
        → Same cs p
        → Returns (process_event K callbacks key p) (λ r. Same cs r.1)
    unfolding process_event
    process_event-Same key p (c, at, word) s =
        subst (λ (o : Option Ctx). Returns (handle_ctx K callbacks o p) (λ r. Same cs r.1))
          (sym (ap (ctx_at key) s.0 ∙ at)) (handle_ctx-Same c p word s)

    pub process_events-Same :
        (keys : List ℕ) (p : Poller K.Interest)
        → All (Found cs) keys
        → Same cs p
        → Returns (process_events K callbacks keys p) (Same cs)
    unfolding process_events
    process_events-Same [] p found s = s
    process_events-Same (key ∷ keys) p found s =
        Returns->>= (process_event K callbacks key p) _ (λ r. Same cs r.1) (Same cs)
          (process_event-Same key p found.0 s) (λ r kept. process_events-Same keys r.1 found.1 kept)

    process_events-append :
        (xs ys : List ℕ) (p : Poller K.Interest)
        → process_events K callbacks (xs ++ ys) p
          ≡ (process_events K callbacks xs p >>= process_events K callbacks ys)
    unfolding process_events
    process_events-append [] ys p = refl
    process_events-append (x ∷ xs) ys p =
        >>=-cong (process_event K callbacks x p) _ _ (λ r. process_events-append xs ys r.1)
        ∙ sym (>>=_assoc (process_event K callbacks x p) _ _)

    goes_on :
        (waiting : Bool) (p : Poller K.Interest)
        → p.must_exit ≡ false
        → (not waiting && (p.must_exit || false)) ≡ false
    goes_on waiting p h = ground arith

    run_loop-zero :
        (ws : List Wait) (p : Poller K.Interest) → run_loop K callbacks ws false (pos 0) p ≡ done p
    unfolding run_loop
    run_loop-zero [] p = ground arith
    run_loop-zero (w ∷ ws) p = ground arith

    -- The loop handles the batches of the rounds that are left, one after the other.
    run_loop-batches :
        (ws : List Wait) (waiting : Bool) (n : ℕ) (p : Poller K.Interest)
        → suc n ≤ length (batches ws)
        → All (Found cs) (concat (take (suc n) (batches ws)))
        → Same cs p
        → run_loop K callbacks ws waiting (pos (suc n)) p
          ≡ process_events K callbacks (concat (take (suc n) (batches ws))) p
    unfolding run_loop
    run_loop-batches [] waiting n p h found s = absurd (omega arith)
    run_loop-batches (failed e ∷ ws) waiting n p h found s =
        rw (goes_on waiting p s.2, run_loop) (run_loop-batches ws (interrupted e) n p h found s)
    run_loop-batches (ready keys ∷ ws) waiting zero p h found s =
        rw (goes_on waiting p s.2, run_loop)
          (Returns-cong (process_events K callbacks keys p) (Same cs) _
              (process_events K callbacks [])
              (process_events-Same keys p (All-prefix (Found cs) keys [] found) s)
              (λ q kept. run_loop-zero ws q)
            ∙ sym (process_events-append keys [] p))
    run_loop-batches (ready keys ∷ ws) waiting (suc n) p h found s =
        let rest = concat (take (suc n) (batches ws)) in
        rw (goes_on waiting p s.2, run_loop)
          (Returns-cong (process_events K callbacks keys p) (Same cs) _
              (process_events K callbacks rest)
              (process_events-Same keys p (All-prefix (Found cs) keys rest found) s)
              (λ q kept.
                run_loop-batches ws false n q (omega arith) (All-suffix (Found cs) keys rest found)
                  kept)
            ∙ sym (process_events-append keys rest p))

    run-run_loop :
        (ws : List Wait) (n : ℤ) (p : Poller K.Interest)
        → p.must_exit ≡ false
        → run K callbacks ws n p
          ≡ (run_loop K callbacks ws false n (entered K p) >>= λ p'. done (pos 0, left K p'))
    unfolding run
    run-run_loop ws n p h = ground arith

    -- With handlers that return, leave the list of events as it is and do not ask the poller to end, `run`
    -- for a number of rounds returns 0 once as many batches of events were delivered, however often a
    -- wait is interrupted or fails in between. It has handled the events of just these batches, one
    -- after the other, and nothing after them.
    pub run-process_events :
        (ws : List Wait) (n : ℕ) (p : Poller K.Interest)
        → suc n ≤ length (batches ws)
        → All (Found cs) (concat (take (suc n) (batches ws)))
        → Same cs p
        → (q : Poller K.Interest) × (process_events K callbacks
              (concat (take (suc n) (batches ws)))
              (entered K p)
            ≡ done q)
          × (run K callbacks ws (pos (suc n)) p ≡ done (pos 0, left K q))
          × (q.event_list ≡ cs)
    unfolding run
    run-process_events ws n p h found s =
        let keys = concat (take (suc n) (batches ws)) in
        let (q, handled, kept) =
          Returns-done (process_events K callbacks keys (entered K p)) (Same cs)
            (process_events-Same keys (entered K p) found s) in
        let ran = run_loop-batches ws false n (entered K p) h found s ∙ handled in
        (
          q,
          handled,
          run-run_loop ws (pos (suc n)) p s.2
              ∙ ap (λ (o : Outcome (Poller K.Interest)). o >>= λ p'. done (pos 0, left K p')) ran,
          kept.0,
        )
