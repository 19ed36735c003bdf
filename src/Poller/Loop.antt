-- ===== src/Poller/Loop.antt =====
-- `run`, `processEvent` in a batch, and `eventHandler` of `EPoller` in src/util/EPoller.h.
pub mod Batches
pub mod Freed
use gobjfs.Base.{
  ℕ, zero, suc, ◌+◌, ◌-◌, ◌^◌, ℤ, pos, negsuc, Bool, true, false, List, [], ◌∷◌, Option, none, some,
  ◌==◌, ◌&&◌, ◌||◌, not, if◌then◌else◌, eintr, eagain, u32, Outcome, done, fault, Fault, ◌>>=◌,
  ◌>>◌, assert, demand,
}
use gobjfs.Poller.Kernel.{Kernel}
use gobjfs.Poller.Events.{Poller, Callbacks, process_event}

-- What `epoll_wait` answers: an errno, or the words of at most `maxEventsPerPoll_` ready events.
pub data Wait : Type 0 where
  failed : ℕ → Wait
  ready : List ℕ → Wait

abbrev pub interrupted : ℕ → Bool
interrupted e = e == eintr || e == eagain

-- `numLoops`; a negative one is for ever.
abbrev pub count_down : ℤ → ℤ
count_down (pos (suc n)) = pos n
count_down n = n

abbrev pub is_zero : ℤ → Bool
is_zero (pos zero) = true
is_zero _ = false

module _ (K : Kernel) where
  -- The loop over `readyEvents`; what a handler returns is not used.
  unfoldable pub process_events :
      Callbacks K → List ℕ → Poller K.Interest → Outcome (Poller K.Interest)
  process_events callbacks [] p = done p
  process_events callbacks (key ∷ keys) p =
      process_event K callbacks key p >>= λ r. process_events callbacks keys r.1

  -- The two loops of `run` over the answers that the thread gets. `waiting` is set in the inner one, which
  -- goes on after an interrupted wait with no look at `mustExit_`. Without an answer the thread sleeps.
  unfoldable pub run_loop :
      Callbacks K → List Wait → Bool → ℤ → Poller K.Interest → Outcome (Poller K.Interest)
  unfolding process_events
  run_loop callbacks [] waiting num_loops p =
      if not waiting && (p.must_exit || is_zero num_loops) then done p else fault Fault.would_block
  run_loop callbacks (w ∷ ws) waiting num_loops p =
      elim (not waiting && (p.must_exit || is_zero num_loops)) [
        | true ↦ done p
        | false ↦ elim w [
          | failed e ↦ run_loop callbacks ws (interrupted e) num_loops p
          | ready keys ↦ process_events callbacks keys p >>= λ p'.
              run_loop callbacks ws false (count_down num_loops) p'
        ]
      ]

  -- `numThreads_` is an atomic uint32_t.
  abbrev pub entered : Poller K.Interest → Poller K.Interest
  entered p = record p { num_threads = u32 (p.num_threads + 1) }

  abbrev pub left : Poller K.Interest → Poller K.Interest
  left p = record p { num_threads = u32 (p.num_threads + 2 ^ 32 - 1) }

  unfoldable pub run :
      Callbacks K → List Wait → ℤ → Poller K.Interest → Outcome (ℤ × Poller K.Interest)
  unfolding run_loop
  run callbacks ws num_loops p =
      if p.must_exit
      then done (pos 0, p)
      else run_loop callbacks ws false num_loops (entered p) >>= λ p'. done (pos 0, left p')

  abbrev is_own_fd : ℕ → Option (ℕ × K.Interest) → Bool
  is_own_fd fd none = false
  is_own_fd fd (some (epfd, i)) = fd == epfd

  -- `eventHandler` of the poller at the address `self`, called by another poller's `processEvent`. It ends
  -- without a `return`; the caller does not use the value.
  unfoldable pub event_handler :
      ℕ → Callbacks K → List Wait → ℕ → ℕ → Poller K.Interest → Outcome (Poller K.Interest)
  unfolding run
  event_handler self callbacks ws fd user_data p = do
    assert (is_own_fd fd p.epoll)
    assert (user_data == self)
    r ← run callbacks ws (pos 1) p
    done (r.1)
