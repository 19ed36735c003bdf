-- ===== src/Client/Completions/Waits.antt =====
-- What a caller learns from a completion object.
use gobjfs.Base.{ℕ, ◌≡◌, refl, ◌∙◌, ℤ, pos, neg, true, some, arith, done}
use gobjfs.Client.Completions.{
  Completion, aio_create_completion, aio_return_completion, Ending, by_signal, by_time, never,
  aio_wait_completion, aio_signal_completion, complete_with,
}

-- The operations on a completion, from a state on: its request is answered, or a wait for it returns.
pub data Used (c : Completion) : Completion → Type 0 where
  begun : Used c c
  completed :
      {d d' : Completion} (retval : ℤ) → Used c d → complete_with retval d ≡ some d' → Used c d'
  waited :
      {d d' : Completion} (ending : Ending) (code : ℤ) (errno : ℕ)
      → Used c d
      → aio_wait_completion ending (some d) ≡ done (code, errno, some d')
      → Used c d'

complete_with-calling :
    (retval : ℤ) (c : Completion) {c' : Completion}
    → complete_with retval c ≡ some c'
    → c'.calling ≡ c.calling
unfolding complete_with aio_signal_completion
complete_with-calling retval c h = ground arith

aio_wait_completion-calling :
    (ending : Ending) (c : Completion) (code : ℤ) (errno : ℕ) {c' : Completion}
    → aio_wait_completion ending (some c) ≡ done (code, errno, some c')
    → c'.calling ≡ c.calling
unfolding aio_wait_completion
aio_wait_completion-calling by_signal c code errno h = ground arith
aio_wait_completion-calling by_time c code errno h = ground arith
aio_wait_completion-calling never c code errno h = ground arith

Used-calling : {c d : Completion} → Used c d → d.calling ≡ c.calling
Used-calling begun = refl
Used-calling (completed {d} retval u h) = complete_with-calling retval d h ∙ Used-calling u
Used-calling (waited {d} ending code errno u h) =
    aio_wait_completion-calling ending d code errno h ∙ Used-calling u

complete_with-on_wait :
    (retval : ℤ) (c : Completion) {c' : Completion}
    → complete_with retval c ≡ some c'
    → c'.on_wait ≡ true
unfolding complete_with aio_signal_completion
complete_with-on_wait retval c h = ground arith

aio_wait_completion-on_wait :
    (ending : Ending) (c : Completion) (code : ℤ) (errno : ℕ) {c' : Completion}
    → aio_wait_completion ending (some c) ≡ done (code, errno, some c')
    → c'.on_wait ≡ true
unfolding aio_wait_completion
aio_wait_completion-on_wait by_signal c code errno h = ground arith
aio_wait_completion-on_wait by_time c code errno h = ground arith
aio_wait_completion-on_wait never c code errno h = ground arith

Used-on_wait : {c d : Completion} → c.on_wait ≡ true → Used c d → d.on_wait ≡ true
Used-on_wait h begun = h
Used-on_wait h (completed {d} retval u e) = complete_with-on_wait retval d e
Used-on_wait h (waited {d} ending code errno u e) =
    aio_wait_completion-on_wait ending d code errno e

-- A completion never gives the result of its request: whatever was done with it since it was created,
-- `aio_return_completion` returns -1 and leaves errno alone, as for a request under way.
pub Used-aio_return_completion :
    {c d : Completion}
    → (aio_create_completion true true).1 ≡ some c
    → Used c d
    → aio_return_completion (some d) ≡ (neg 1, 0)
unfolding aio_create_completion aio_return_completion
Used-aio_return_completion e u = ground (arith, Used-calling u)

-- Once a wait for a completion has returned, be it with -1 since the time was over, every later wait
-- returns 0 at once, whether or not the request is answered.
pub Used-aio_wait_completion :
    (ending ending' : Ending) (code : ℤ) (errno : ℕ) (c : Completion) {d e : Completion}
    → aio_wait_completion ending (some c) ≡ done (code, errno, some d)
    → Used d e
    → aio_wait_completion ending' (some e) ≡ done (pos 0, 0, some e)
unfolding aio_wait_completion
Used-aio_wait_completion ending ending' code errno c h u =
    ground (arith, Used-on_wait (aio_wait_completion-on_wait ending c code errno h) u)
