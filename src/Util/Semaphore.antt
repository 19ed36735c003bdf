-- ===== src/Util/Semaphore.antt =====
-- src/util/SemaphoreWrapper.cpp, over the semaphores of the system: a count that is at most
-- SEM_VALUE_MAX.
pub mod Counts
use gobjfs.Base.{
  ℕ, zero, suc, ◌+◌, ◌-◌, ℤ, pos, neg, Bool, true, false, leb, ltb, ◌==◌, if◌then◌else◌, eintr,
  einval, Outcome, done, fault, Fault, ◌>>=◌,
}

abbrev pub sem_value_max : ℕ
sem_value_max = 2147483647

-- EOVERFLOW
abbrev pub eoverflow : ℕ
eoverflow = 75

-- `init`: the code, and the count of the semaphore, which is not made if the count is too large.
unfoldable pub sem_init : ℕ → ℤ × ℕ
sem_init initial = if leb initial sem_value_max then (pos 0, initial) else (neg einval, 0)

-- `pause`, which a signal can interrupt: the count is then as it was.
unfoldable pub sem_pause : Bool → ℕ → Outcome (ℤ × ℕ)
sem_pause true count = done (neg eintr, count)
sem_pause false zero = fault Fault.would_block
sem_pause false (suc count) = done (pos 0, count)

-- The loop of `wakeup`: each `sem_post` that fails sets the code.
unfoldable pub sem_posts : ℕ → ℤ → ℕ → ℤ × ℕ
sem_posts zero ret count = (ret, count)
sem_posts (suc n) ret count =
    let overflow = sem_posts n (neg eoverflow) count in
    let posted = sem_posts n ret (suc count) in if leb sem_value_max count then overflow else posted

unfoldable pub sem_wakeup : ℕ → ℕ → ℤ × ℕ
unfolding sem_posts
sem_wakeup n count = sem_posts n (pos 0) count

-- `getValue`
abbrev pub sem_get_value : ℕ → ℤ
sem_get_value count = pos count
