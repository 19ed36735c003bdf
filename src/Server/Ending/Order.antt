-- ===== src/Server/Ending/Order.antt =====
-- The order in which a server ends.
use gobjfs.Base.{◌≡◌, refl, Bool, true, false, arith}
use gobjfs.Server.Ending.{
  Runner, looping, left, released, locked, over, Stopper, idle, drained, told, removed, waiting,
  returned, Ending, serving, leave_loop, release, set_stopped, destroy_service, drain_workers,
  set_stopping, remove_handler, stop_loop, return_stopped, Step, leaves, releases, sets_stopped,
  destroys, calls, tells, removes, stops_loop, returns, Reached, serves, next,
}

-- What the places of the two threads say about the members.
abbrev pub At : Runner → Bool → Bool → Bool → Bool → Type 0
At looping stopping stopped context service =
    (stopped ≡ false) × (context ≡ true) × (service ≡ true)
At left stopping stopped context service =
    (stopping ≡ true) × (stopped ≡ false) × (context ≡ true) × (service ≡ true)
At released stopping stopped context service =
    (stopping ≡ true) × (stopped ≡ false) × (context ≡ false) × (service ≡ true)
At locked stopping stopped context service =
    (stopping ≡ true) × (stopped ≡ true) × (context ≡ false) × (service ≡ true)
At over stopping stopped context service =
    (stopping ≡ true) × (stopped ≡ true) × (context ≡ false) × (service ≡ false)

abbrev pub Told : Stopper → Bool → Bool → Type 0
Told idle stopping stopped = stopping ≡ false
Told drained stopping stopped = stopping ≡ false
Told told stopping stopped = stopping ≡ true
Told removed stopping stopped = stopping ≡ true
Told waiting stopping stopped = stopping ≡ true
Told returned stopping stopped = (stopping ≡ true) × (stopped ≡ true)

abbrev pub Ended : Stopper → Runner → Type 0
Ended returned r = r ≡ over
Ended _ r = Unit

pub record InOrder (s : Ending) : Type 0 where
  pub at : At s.runner s.stopping s.stopped s.has_context s.has_service
  pub told_so : Told s.stopper s.stopping s.stopped
  pub ended : Ended s.stopper s.runner

Step-InOrder : {s t : Ending} → Step s t → InOrder s → InOrder t
unfolding leave_loop release set_stopped destroy_service drain_workers set_stopping remove_handler
    stop_loop return_stopped
Step-InOrder (leaves s h e) v = ground arith
Step-InOrder (releases s h) v = ground arith
Step-InOrder (sets_stopped s h) v = ground arith
Step-InOrder (destroys s h) v = ground arith
Step-InOrder (calls s h) v = ground arith
Step-InOrder (tells s h) v = ground arith
Step-InOrder (removes s h) v = ground arith
Step-InOrder (stops_loop s h) v = ground arith
Step-InOrder (returns s h e f) v = ground arith

serving-InOrder : InOrder serving
unfolding serving
serving-InOrder = record { at = (refl, refl, refl); told_so = refl; ended = tt }

pub Reached-InOrder : {s : Ending} → Reached s → InOrder s
Reached-InOrder serves = serving-InOrder
Reached-InOrder (next r st) = Step-InOrder st (Reached-InOrder r)

over-released :
    (stopping stopped context service : Bool)
    → At over stopping stopped context service
    → (context ≡ false) × (service ≡ false)
over-released stopping stopped context service a = (a.2, a.3)

-- A call of `shutdown` on a server in its loop returns only once `run` is at its end: the context of
-- the network library and the service are then destroyed.
pub Reached-returned :
    (s : Ending)
    → Reached s
    → s.stopper ≡ returned
    → (s.runner ≡ over) × (s.has_context ≡ false) × (s.has_service ≡ false)
Reached-returned s r e = let v = Reached-InOrder r in ground (arith, v.at, v.ended)

-- The loop may leave, and destroy the context, as soon as `stopping` is set: `shutdown` then goes on to
-- use it.
pub remove_handler-dead : (s : Ending) × Reached s × (s.used_dead ≡ true)
unfolding serving drain_workers set_stopping leave_loop release remove_handler
remove_handler-dead =
    let a = next serves (calls _ refl) in
    let b = next a (tells _ refl) in
    let c = next b (leaves _ refl refl) in
    let d = next c (releases _ refl) in (_, next d (removes _ refl), refl)
