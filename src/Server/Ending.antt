-- ===== src/Server/Ending.antt =====
-- The end of `run` and `shutdown` in src/networkxio/NetworkXioServer.cpp, as steps of the two threads.
pub mod Order
use gobjfs.Base.{Bool, true, false, ◌≡◌, ◌≢◌, not, ◌||◌, if◌then◌else◌}

-- Where the thread in `run` stands: in the loop, behind it, after it gave back its members, with the lock
-- after it set `stopped`, and at its end, where the lock is free again.
pub data Runner : Type 0 where
  looping left released locked over : Runner

-- Where the thread in `shutdown` stands: before its call, after the end of the work queue, after it set
-- `stopping`, after it removed the handler, in the wait for `stopped`, and after it.
pub data Stopper : Type 0 where
  idle drained told removed waiting returned : Stopper

-- `used_dead` records a use of the context after it was destroyed.
pub record Ending : Type 0 where
  pub runner : Runner
  pub stopper : Stopper
  pub stopping : Bool
  pub stopped : Bool
  pub has_context : Bool
  pub has_service : Bool
  pub used_dead : Bool

unfoldable pub serving : Ending
serving = record {
  runner = looping;
  stopper = idle;
  stopping = false;
  stopped = false;
  has_context = true;
  has_service = true;
  used_dead = false;
}

unfoldable pub leave_loop : Ending → Ending
leave_loop s = record s { runner = left }

-- `ctx.reset()`, and the other members.
unfoldable pub release : Ending → Ending
release s = record s { runner = released; has_context = false }

unfoldable pub set_stopped : Ending → Ending
set_stopped s = record s { runner = locked; stopped = true }

-- `IOExecFileServiceDestroy`, after which the lock is given back.
unfoldable pub destroy_service : Ending → Ending
destroy_service s = record s { runner = over; has_service = false }

-- `wq_->shutdown()`, where the server is not stopped.
unfoldable pub drain_workers : Ending → Ending
drain_workers s = record s { stopper = if s.stopped then returned else drained }

unfoldable pub set_stopping : Ending → Ending
set_stopping s = record s { stopper = told; stopping = true }

unfoldable pub remove_handler : Ending → Ending
remove_handler s = record s { stopper = removed; used_dead = s.used_dead || not s.has_context }

unfoldable pub stop_loop : Ending → Ending
stop_loop s = record s { stopper = waiting; used_dead = s.used_dead || not s.has_context }

unfoldable pub return_stopped : Ending → Ending
return_stopped s = record s { stopper = returned }

-- `xio_context_run_loop` also returns when a worker asks for it, so that the loop can end as soon as
-- `stopping` is set. The wait for `stopped` ends with the lock in hand.
pub data Step : Ending → Ending → Type 0 where
  leaves : (s : Ending) → s.runner ≡ looping → s.stopping ≡ true → Step s (leave_loop s)
  releases : (s : Ending) → s.runner ≡ left → Step s (release s)
  sets_stopped : (s : Ending) → s.runner ≡ released → Step s (set_stopped s)
  destroys : (s : Ending) → s.runner ≡ locked → Step s (destroy_service s)
  calls : (s : Ending) → s.stopper ≡ idle → Step s (drain_workers s)
  tells : (s : Ending) → s.stopper ≡ drained → Step s (set_stopping s)
  removes : (s : Ending) → s.stopper ≡ told → Step s (remove_handler s)
  stops_loop : (s : Ending) → s.stopper ≡ removed → Step s (stop_loop s)
  returns :
      (s : Ending)
      → s.stopper ≡ waiting
      → s.stopped ≡ true
      → s.runner ≢ locked
      → Step s (return_stopped s)

pub data Reached : Ending → Type 0 where
  serves : Reached serving
  next : {s t : Ending} → Reached s → Step s t → Reached t
