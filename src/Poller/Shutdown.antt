-- ===== src/Poller/Shutdown.antt =====
-- `shutdown` of `EPoller` in src/util/EPoller.h against the threads that are in `run`.
-- The condition has no state: a wake-up is lost on a thread that does not yet wait. A wait that ends
-- without a wake-up is not modelled.
pub mod Lost
use gobjfs.Base.{ℕ, zero, suc, ◌+◌, ◌-◌, ◌<◌, ◌≡◌, ◌≢◌, Bool, true, false, ◌==◌, if◌then◌else◌}

-- Where the thread in `shutdown` stands: before its call, at the test of the loop, between `writefd` and
-- `pause`, in `pause`, and after the loop.
pub data Stopper : Type 0 where
  idle testing pausing asleep finished : Stopper

-- `entering` are the threads in `run` that found `mustExit_` unset and are not yet counted, `looping`
-- those in the loop, and `leaving` those behind it that are still counted.
pub record Threads : Type 0 where
  pub entering : ℕ
  pub looping : ℕ
  pub leaving : ℕ
  pub must_exit : Bool
  pub num_threads : ℕ
  pub written : ℕ
  pub stopper : Stopper

unfoldable pub running : ℕ → Threads
running n = record {
  entering = 0;
  looping = n;
  leaving = 0;
  must_exit = false;
  num_threads = n;
  written = 0;
  stopper = idle;
}

unfoldable pub enter : Threads → Threads
enter s = if s.must_exit then s else record s { entering = s.entering + 1 }

unfoldable pub count_in : Threads → Threads
count_in s = record s {
  entering = s.entering - 1;
  looping = s.looping + 1;
  num_threads = s.num_threads + 1;
}

-- `exitCondition_.wakeup()`
abbrev pub woken : Stopper → Stopper
woken asleep = testing
woken w = w

-- A thread that ends its loop, because of `mustExit_` or after its last round, and wakes the other one
-- if `mustExit_` is set.
unfoldable pub leave : Threads → Threads
leave s = record s {
  looping = s.looping - 1;
  leaving = s.leaving + 1;
  stopper = if s.must_exit then woken s.stopper else s.stopper;
}

unfoldable pub count_out : Threads → Threads
count_out s = record s { leaving = s.leaving - 1; num_threads = s.num_threads - 1 }

unfoldable pub begin_shutdown : Threads → Threads
begin_shutdown s = record s { must_exit = true; stopper = testing }

-- The test of the loop, and `writefd`.
unfoldable pub test_threads : Threads → Threads
test_threads s =
    if s.num_threads == 0
    then record s { stopper = finished }
    else record s { written = s.written + 1; stopper = pausing }

unfoldable pub pause_stopper : Threads → Threads
pause_stopper s = record s { stopper = asleep }

pub data Step : Threads → Threads → Type 0 where
  enters : (s : Threads) → Step s (enter s)
  counts_in : (s : Threads) → 0 < s.entering → Step s (count_in s)
  leaves : (s : Threads) → 0 < s.looping → Step s (leave s)
  counts_out : (s : Threads) → 0 < s.leaving → Step s (count_out s)
  begins : (s : Threads) → s.stopper ≡ idle → Step s (begin_shutdown s)
  tests : (s : Threads) → s.stopper ≡ testing → Step s (test_threads s)
  pauses : (s : Threads) → s.stopper ≡ pausing → Step s (pause_stopper s)

pub data Steps (s : Threads) : Threads → Type 0 where
  here : Steps s s
  next : {t u : Threads} → Steps s t → Step t u → Steps s u
