-- ===== src/Executor/Stop/Hangs.antt =====
-- The final shutdown in src/IOExecutor.cpp while all slots are taken.
use gobjfs.Base.{◌≡◌, Bool, true, false}
use gobjfs.Executor.{Machine, State, Env}
use gobjfs.Executor.Stop.{System, Step, handles, exits}

-- The step is not one of the completion thread.
abbrev pub is_other : {env : Env} {s t : System} → Step env s t → Bool
is_other (handles event d o e) = false
is_other (exits o d) = false
is_other _ = true

-- Steps of all other threads.
pub data Others (env : Env) (s : System) : System → Type 0 where
  none_yet : Others env s s
  another :
      {t u : System} → Others env s t → (st : Step env t u) → is_other st ≡ true → Others env s u

-- The executor is in its final shutdown, with no permit and no fd thread.
record IsStuck (s : System) : Type 0 where
  final : s.machine.state ≡ State.final_shutdown
  no_permit : s.machine.ctx_cond ≡ 0
  fd_over : s.fd_thread_over ≡ true
  unfinished : s.completion_thread_over ≡ false

-- No permit, in the same state.
abbrev StillStuck : Machine → Type 0
StillStuck m = (m.state ≡ State.final_shutdown) × (m.ctx_cond ≡ 0)
