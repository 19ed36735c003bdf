-- ===== src/Poller/Shutdown/Lost.antt =====
-- The wake-up that `shutdown` of a poller waits for.
use gobjfs.Base.{ℕ, zero, suc, ◌≡◌, ◌≢◌, refl, true, arith, ◌⊎◌, inl, subst}
use gobjfs.Poller.Shutdown.{
  pausing, asleep, finished, Threads, running, enter, count_in, leave, count_out, begin_shutdown,
  test_threads, pause_stopper, Step, enters, counts_in, leaves, counts_out, begins, tests, pauses,
  Steps, here, next,
}

-- The stopper waits or is about to, and no thread is left that will wake it.
pub record IsStuck (s : Threads) : Type 0 where
  pub waits : (s.stopper ≡ pausing) ⊎ (s.stopper ≡ asleep)
  pub none_entering : s.entering ≡ 0
  pub none_looping : s.looping ≡ 0
  pub told_to_exit : s.must_exit ≡ true

Step-IsStuck : {s t : Threads} → Step s t → IsStuck s → IsStuck t
unfolding enter count_in leave count_out begin_shutdown test_threads pause_stopper
Step-IsStuck (enters s) v = ground arith
Step-IsStuck (counts_in s h) v = absurd (omega (arith, v.none_entering))
Step-IsStuck (leaves s h) v = absurd (omega (arith, v.none_looping))
Step-IsStuck (counts_out s h) v = ground arith
Step-IsStuck (begins s h) v = ground arith
Step-IsStuck (tests s h) v = ground arith
Step-IsStuck (pauses s h) v = ground arith

Steps-IsStuck : {s t : Threads} → IsStuck s → Steps s t → IsStuck t
Steps-IsStuck v here = v
Steps-IsStuck v (next r st) = Step-IsStuck st (Steps-IsStuck v r)

IsStuck-unfinished : {s : Threads} → IsStuck s → s.stopper ≢ finished
IsStuck-unfinished v h = ground arith

-- All threads leave while the stopper is between its write and its pause.
abbrev told : ℕ → ℕ → ℕ → Threads
told looping leaving num_threads = record {
  entering = 0;
  looping = looping;
  leaving = leaving;
  must_exit = true;
  num_threads = num_threads;
  written = 1;
  stopper = pausing;
}

leave-told : (n : ℕ) → leave (told (suc n) 0 (suc n)) ≡ told n 1 (suc n)
unfolding leave
leave-told n = ground arith

count_out-told : (n : ℕ) → count_out (told n 1 (suc n)) ≡ told n 0 n
unfolding count_out
count_out-told n = ground arith

all_leave : (n : ℕ) {s : Threads} → Steps s (told n 0 n) → Steps s (told 0 0 0)
all_leave zero r = r
all_leave (suc n) {s} r =
    let left = subst (Steps s) (leave-told n) (next r (leaves _ (omega arith))) in
    all_leave n (subst (Steps s) (count_out-told n) (next left (counts_out _ (omega arith))))

begin_shutdown-running :
    (n : ℕ) → test_threads (begin_shutdown (running (suc n))) ≡ told (suc n) 0 (suc n)
unfolding test_threads begin_shutdown running
begin_shutdown-running n = ground arith

-- A shutdown with any number of threads in the loop can hang: they all leave while the stopper is between
-- its write and its pause, so that no thread is in `run` any more and none is counted, and from there on
-- the stopper does not finish, whatever happens.
pub shutdown-hangs :
    (n : ℕ)
    → (t : Threads) × Steps (running (suc n)) t
      × (t.num_threads ≡ 0)
      × (t.looping ≡ 0)
      × (t.leaving ≡ 0)
      × ((u : Threads) → Steps t u → u.stopper ≢ finished)
unfolding running begin_shutdown
shutdown-hangs n =
    let start = running (suc n) in
    let begun : Steps start (begin_shutdown start) = next here (begins start refl) in
    let written =
      subst (Steps start) (begin_shutdown-running n)
        (next begun (tests (begin_shutdown start) refl)) in
    let stuck : IsStuck (told 0 0 0) = record {
      waits = inl refl;
      none_entering = refl;
      none_looping = refl;
      told_to_exit = refl;
    } in
    (
      told 0 0 0,
      all_leave (suc n) written,
      refl,
      refl,
      refl,
      λ u r. IsStuck-unfinished (Steps-IsStuck stuck r),
    )
