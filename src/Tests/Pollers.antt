-- ===== src/Tests/Pollers.antt =====
-- A kernel that keeps its registrations in a list, and pollers on it.
use gobjfs.Base.{
  ℕ, ◌≡◌, ◌≢◌, refl, pos, false, List, [], ◌∷◌, Option, none, some, ◌==◌, if◌then◌else◌, arith,
  done, fault, Fault, enoent, All, eintr,
}
use gobjfs.Poller.Kernel.{Kernel, IsKernel, Answer, ok, refused}
use gobjfs.Poller.Events.{
  caller, read_shutdown, Ctx, Poller, new_poller, Callbacks, init, add_event, drop_event,
  process_event, handle_event, ctx_at, magic_word,
}
use gobjfs.Poller.Events.Registered.{Reported}
use gobjfs.Poller.Events.Reached.{made, added, Reached-process_event}
use gobjfs.Poller.Events.Dropped.{IsCovered, Restores, drop_event-add_event}
use gobjfs.Poller.Loop.{Wait, failed, ready, process_events, run, entered, left}
use gobjfs.Poller.Loop.Batches.{Found, run-process_events}
use gobjfs.Poller.Loop.Freed.{process_events-freed}
use gobjfs.Poller.Shutdown.{Threads, Steps, running, finished}
use gobjfs.Poller.Shutdown.Lost.{shutdown-hangs}

abbrev Registrations : Type 0
Registrations = List (ℕ × ℕ)

registered : Registrations → ℕ → Option ℕ
registered [] j = none
registered ((fd, key) ∷ i) j = let rest = registered i j in if j == fd then some key else rest

erased : ℕ → Registrations → Registrations
erased j [] = []
erased j ((fd, key) ∷ i) = let rest = erased j i in if fd == j then rest else (fd, key) ∷ rest

registered-erased :
    (i : Registrations) (fd j : ℕ)
    → registered (erased fd i) j ≡ (if j == fd then none else registered i j)
unfolding registered erased
registered-erased [] fd j = ground arith
registered-erased ((x, key) ∷ i) fd j = ground (arith, registered-erased i fd j)

add_registration : Registrations → ℕ → ℕ → Option ℕ → Answer Registrations
add_registration i fd key none = ok ((fd, key) ∷ i)
add_registration i fd key (some old) = refused 17

drop_registration : Registrations → ℕ → Option ℕ → Answer Registrations
drop_registration i fd none = refused enoent
drop_registration i fd (some old) = ok (erased fd i)

abbrev list_kernel : Kernel
list_kernel = record {
  Interest = Registrations;
  registered = registered;
  epoll_create = ok (3, []);
  ctl_add = λ i fd key. add_registration i fd key (registered i fd);
  ctl_del = λ i fd. drop_registration i fd (registered i fd);
  eventfd = ok 4;
}

list_kernel-IsKernel : IsKernel list_kernel
unfolding registered add_registration drop_registration
list_kernel-IsKernel = record {
  created = λ fd i j h. ground arith;
  added = λ i i' fd key j h. ground arith;
  add_fresh = λ i i' fd key h. ground arith;
  deleted = λ i i' fd j h. ground (arith, registered-erased i fd j);
  del_registered = λ i fd key h. (erased fd i, ground arith);
}

abbrev quiet_callbacks : Callbacks list_kernel
quiet_callbacks h fd user_data p = done (pos 0, p)

-- The poller's own event, and one of a caller.
abbrev event_nine : Ctx
event_nine = record { addr = 2; handler = caller 1; user_data = 7; fd = 9; magic = magic_word }

abbrev own_event : Ctx
own_event = record { addr = 1; handler = read_shutdown; user_data = 0; fd = 4; magic = magic_word }

abbrev started : Poller Registrations
started = record {
  epoll = some (3, (4, 1) ∷ []);
  notifier = some (record { addr = 0; evfd = 4; count = 0; last_value = 0 });
  must_exit = false;
  num_threads = 0;
  event_list = own_event ∷ [];
  allocated = 2;
}

init-started : init list_kernel new_poller ≡ (pos 0, started)
unfolding init new_poller registered add_registration
init-started = refl

abbrev with_nine : Poller Registrations
with_nine = record started {
  epoll = some (3, (9, 2) ∷ (4, 1) ∷ []);
  event_list = own_event ∷ event_nine ∷ [];
  allocated = 3;
}

add_nine : add_event list_kernel 7 (pos 9) (caller 1) started ≡ (pos 0, with_nine)
unfolding add_event registered add_registration
add_nine = refl

nine-Reported :
    Reported list_kernel
      (add_event list_kernel 7 (pos 9) (caller 1) (init list_kernel new_poller).1).1.epoll
      9
      2
unfolding add_event init new_poller registered add_registration
nine-Reported = refl

process_nine_example :
    let p = (add_event list_kernel 7 (pos 9) (caller 1) (init list_kernel new_poller).1).1 in
    (c : Ctx) × (ctx_at 2 p.event_list ≡ some c)
    × (c.fd ≡ 9)
    × (process_event list_kernel quiet_callbacks 2 p
        ≡ handle_event list_kernel quiet_callbacks c.handler c p)
process_nine_example =
    Reached-process_event list_kernel list_kernel-IsKernel quiet_callbacks 9 2
      (added 7 (pos 9) (caller 1) made) nine-Reported

started-IsCovered : IsCovered list_kernel ((4, 1) ∷ []) (own_event ∷ [])
unfolding registered
started-IsCovered = (refl, tt)

nine_added :
    add_registration ((4, 1) ∷ []) 9 2 (registered ((4, 1) ∷ []) 9) ≡ ok ((9, 2) ∷ (4, 1) ∷ [])
unfolding registered add_registration
nine_added = refl

drop_nine_example :
    Restores list_kernel 7 9 3
      ((4, 1) ∷ [])
      (record started { allocated = 3 })
      (add_event list_kernel 7 (pos 9) (caller 1) started)
drop_nine_example =
    drop_event-add_event list_kernel list_kernel-IsKernel 7 9 3 (caller 1) ((4, 1) ∷ [])
      ((9, 2) ∷ (4, 1) ∷ []) started refl started-IsCovered nine_added

-- An interrupted wait, the caller's event, and a batch that is not waited for.
abbrev some_waits : List Wait
some_waits = failed eintr ∷ ready (2 ∷ []) ∷ ready (1 ∷ 2 ∷ []) ∷ []

nine-Found : All (Found list_kernel (own_event ∷ event_nine ∷ [])) (2 ∷ [])
unfolding ctx_at
nine-Found = ((event_nine, refl, refl), tt)

run_once_example :
    (q : Poller Registrations) × (process_events list_kernel quiet_callbacks
        (2 ∷ [])
        (entered list_kernel with_nine)
      ≡ done q)
    × (run list_kernel quiet_callbacks some_waits (pos 1) with_nine
        ≡ done (pos 0, left list_kernel q))
    × (q.event_list ≡ (own_event ∷ event_nine ∷ []))
run_once_example =
    run-process_events list_kernel quiet_callbacks (own_event ∷ event_nine ∷ [])
      (λ h fd user_data p s. s) some_waits 0 with_nine (omega arith) nine-Found (refl, refl, refl)

-- A caller whose handler drops the other event.
abbrev event_ten : Ctx
event_ten = record { addr = 3; handler = caller 1; user_data = 8; fd = 10; magic = magic_word }

abbrev with_ten : Poller Registrations
with_ten = record with_nine { event_list = own_event ∷ event_nine ∷ event_ten ∷ []; allocated = 4 }

dropping : Callbacks list_kernel
dropping h fd user_data p = done (pos 0, (drop_event list_kernel 8 10 p).1)

nine_at : ctx_at 2 (own_event ∷ event_nine ∷ event_ten ∷ []) ≡ some event_nine
unfolding ctx_at
nine_at = refl

dropped_ten_example :
    process_events list_kernel dropping (2 ∷ 3 ∷ []) with_ten ≡ fault Fault.use_after_free
unfolding dropping
dropped_ten_example =
    process_events-freed list_kernel dropping 1 event_nine event_ten (own_event ∷ event_nine ∷ [])
      [] [] (pos 0) with_ten refl ((refl, (refl, tt)), ((refl, tt), (tt, tt))) (refl, (refl, tt))
      nine_at refl refl refl

shutdown_example :
    (t : Threads) × Steps (running 1) t
    × (t.num_threads ≡ 0)
    × (t.looping ≡ 0)
    × (t.leaving ≡ 0)
    × ((u : Threads) → Steps t u → u.stopper ≢ finished)
shutdown_example = shutdown-hangs 0
