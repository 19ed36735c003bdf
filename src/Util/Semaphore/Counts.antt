-- ===== src/Util/Semaphore/Counts.antt =====
-- What a semaphore counts.
use gobjfs.Base.{
  ℕ, zero, suc, ◌+◌, ◌≤◌, ◌≡◌, refl, pos, neg, false, leb, if◌then◌else◌, Outcome, done, ◌>>=◌,
  arith, Bool-cases, inl, inr, subst,
}
use gobjfs.Util.Semaphore.{sem_value_max, eoverflow, sem_posts, sem_wakeup, sem_pause}

full-sem_posts :
    (n count : ℕ)
    → sem_value_max ≤ count
    → sem_posts n (neg eoverflow) count ≡ (neg eoverflow, count)
unfolding sem_posts
full-sem_posts zero count h = refl
full-sem_posts (suc n) count h = ground (arith, full-sem_posts n count h)

sem_posts_lem :
    (n count : ℕ)
    → count ≤ sem_value_max
    → sem_posts n (pos 0) count ≡ (
        if leb (count + n) sem_value_max
        then (pos 0, count + n)
        else (neg eoverflow, sem_value_max))
unfolding sem_posts
sem_posts_lem zero count h = ground arith
sem_posts_lem (suc n) count h = elim (Bool-cases (leb sem_value_max count)) [
  | inl full ↦ ground (arith, full-sem_posts n count)
  | inr room ↦ ground (arith, sem_posts_lem n (suc count))
]

-- A semaphore that is woken up a number of times counts each of them, up to SEM_VALUE_MAX; the code is
-- -EOVERFLOW exactly if some did not fit.
pub sem_wakeup_lem :
    (n count : ℕ)
    → count ≤ sem_value_max
    → sem_wakeup n count ≡ (
        if leb (count + n) sem_value_max
        then (pos 0, count + n)
        else (neg eoverflow, sem_value_max))
unfolding sem_wakeup
sem_wakeup_lem n count h = sem_posts_lem n count h

-- The number of pauses without a signal.
abbrev pub pauses : ℕ → ℕ → Outcome ℕ
pauses zero count = done count
pauses (suc n) count = sem_pause false count >>= λ r. pauses n r.1

pauses-add : (n count : ℕ) → pauses n (count + n) ≡ done count
unfolding sem_pause
pauses-add zero count = ground arith
pauses-add (suc n) count =
    let e : suc (count + n) ≡ count + suc n = omega arith in
    subst (λ k. pauses (suc n) k ≡ done count) e (pauses-add n count)

-- As many pauses as there were wake-ups return, and leave the count as it was before them.
pub pauses-sem_wakeup :
    (n count : ℕ) → count + n ≤ sem_value_max → pauses n (sem_wakeup n count).1 ≡ done count
pauses-sem_wakeup n count h = ground (arith, sem_wakeup_lem n count, pauses-add n count)
