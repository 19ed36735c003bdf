-- ===== src/Executor/Completions/Codes.antt =====
-- The return code of a finished job.
use gobjfs.Base.{
  ℕ, ◌≡◌, refl, ℤ, pos, negsuc, neg, arith, ◌↔◌, ◌⊎◌, inl, inr, Bool-cases, ◌==◌, ◌||◌, eio,
}
use gobjfs.Job.{FilerJob}
use gobjfs.Executor.Completions.{completion_code}

-- A job is answered with 0 exactly if the kernel has transferred what the user asked for, or the whole
-- aligned size; and whatever the kernel reports, the code is 0, its own error, or -EIO for a transfer
-- of any other size.
pub completion_code_lem :
    (res : ℤ) (job : FilerJob)
    → ((completion_code res job ≡ pos 0) ↔ ((res ≡ pos job.user_size) ⊎ (res ≡ pos job.size)))
      × ((completion_code res job ≡ pos 0)
          ⊎ ((n : ℕ) × (res ≡ negsuc n) × (completion_code res job ≡ res))
          ⊎ ((n : ℕ) × (res ≡ pos n) × (completion_code res job ≡ neg eio)))
unfolding completion_code
completion_code_lem (negsuc n) job =
    ((λ e. ground arith, λ e. ground arith), inr (inl (n, refl, refl)))
completion_code_lem (pos n) job = elim (Bool-cases (n == job.user_size || n == job.size)) [
  | inl whole ↦ rw whole ((λ e. ground arith, λ e. refl), inl refl)
  | inr part ↦ rw part ((λ e. ground arith, λ e. ground arith), inr (inr (n, refl, refl)))
]
