-- ===== src/Client/Completions.antt =====
-- src/networkxio/gobjfs_client.cpp: completion objects, which a caller gives to `aio_readcb`.
pub mod Waits
use gobjfs.Base.{
  ℕ, ◌+◌, ℤ, pos, neg, Bool, true, false, Option, none, some, eq_ℤ, not, if◌then◌else◌, einval,
  eagain, enomem, eio, Outcome, done, fault, Fault, ◌>>=◌,
}

-- A completion; `calls` counts the calls of its callback.
pub record Completion : Type 0 where
  pub on_wait : Bool
  pub calling : Bool
  pub signaled : Bool
  pub failed : Bool
  pub rv : ℤ
  pub calls : ℕ

abbrev pub new_completion : Completion
new_completion = record {
  on_wait = false;
  calling = false;
  signaled = false;
  failed = false;
  rv = pos 0;
  calls = 0;
}

-- `aio_create_completion`: the errno, and the object. The arguments tell whether there is a callback, and
-- whether there is memory.
unfoldable pub aio_create_completion : Bool → Bool → ℕ × Option Completion
aio_create_completion false allocated = (einval, none)
aio_create_completion true false = (enomem, none)
aio_create_completion true true = (0, some new_completion)

-- `aio_return_completion`: the result and the errno.
unfoldable pub aio_return_completion : Option Completion → ℤ × ℕ
aio_return_completion none = (neg 1, einval)
aio_return_completion (some c) =
    if not c.calling then (neg 1, 0) else (if not c.failed then (c.rv, 0) else (neg 1, eio))

-- What ends the wait for a completion: `aio_signal_completion`, or the time. Neither: the thread sleeps.
pub data Ending : Type 0 where
  by_signal by_time never : Ending

abbrev wait_signaled : Ending → Completion → Outcome (ℤ × ℕ × Completion)
wait_signaled by_signal c = done (pos 0, 0, record c { signaled = true })
wait_signaled by_time c = done (neg 1, eagain, c)
wait_signaled never c = fault Fault.would_block

-- `aio_wait_completion`. Where `_on_wait` is set already it returns at once; else it is set, and the thread
-- sleeps unless `_signaled` is set. The second argument is what happens while it sleeps.
unfoldable pub aio_wait_completion :
    Ending → Option Completion → Outcome (ℤ × ℕ × Option Completion)
aio_wait_completion ending none = done (neg 1, einval, none)
aio_wait_completion ending (some c) =
    if c.on_wait
    then done (pos 0, 0, some c)
    else (let c' = record c { on_wait = true } in
        if c'.signaled
        then done (pos 0, 0, some c')
        else wait_signaled ending c' >>= λ r. done (r.0, r.1, some r.2))

-- `aio_signal_completion`: it sets `_signaled` only where somebody waits.
unfoldable pub aio_signal_completion : Option Completion → ℤ × ℕ × Option Completion
aio_signal_completion none = (neg 1, einval, none)
aio_signal_completion (some c) =
    if not c.on_wait
    then (pos 0, 0, some (record c { on_wait = true }))
    else (pos 0, 0, some (record c { signaled = true }))

-- The end of `ovs_xio_aio_complete_request`: the callback is called, and the completion signaled.
unfoldable pub complete_with : ℤ → Completion → Option Completion
unfolding aio_signal_completion
complete_with retval c =
    (aio_signal_completion
      (some (record c { rv = retval; failed = eq_ℤ retval (neg 1); calls = c.calls + 1 }))).2
