-- ===== src/File/Operations/Ownership.antt =====
-- Who closes the file that is read by its name, and what a batch answers.
use gobjfs.Base.{
  ℕ, zero, suc, ◌≡◌, refl, ℤ, pos, Bool, Bool-cases, true, false, List, [], ◌∷◌, ◌++◌, All,
  get_elem?, some, eq_ℤ, done, ◌>>=◌, inl, inr, >>=-cong, >>=_assoc, ap, ◌∙◌, sym,
}
use gobjfs.Job.{FileOp, fd_invalid}
use gobjfs.Executor.{Env, Machine}
use gobjfs.Executor.Submit.{submit_task}
use gobjfs.File.{Fragment, EventFd, FileHandle, Os, Service}
use gobjfs.File.Operations.{
  is_skipped, put, fragment_job, submit_fragments, verdict_code, file_op, file_open, file_close,
  file_read_named,
}

skipped_all :
    (env : Env) (op : FileOp) (fd : ℤ) (close_fd : Bool) (event : ℤ) (frags : List Fragment)
    (code : ℤ) (m : Machine) (next : ℕ)
    → All (λ f. is_skipped f ≡ true) frags
    → submit_fragments env op fd close_fd event frags code m next ≡ done (code, m, next)
unfolding submit_fragments
skipped_all env op fd close_fd event [] code m next h = refl
skipped_all env op fd close_fd event (frag ∷ frags) code m next h =
    rw (h.0) (skipped_all env op fd close_fd event frags code m next h.1)

put-same : (i : ℕ) (xs : List Machine) {m : Machine} → get_elem? xs i ≡ some m → put i m xs ≡ xs
unfolding put
put-same i [] h = refl
put-same zero (x ∷ xs) h = cc
put-same (suc i) (x ∷ xs) h = ap (λ (l : List Machine). x ∷ l) (put-same i xs h)

-- The descriptor of a file that is read by its name is lost if every fragment of the batch is passed
-- over, as in an empty batch: the call returns 0, no job has the descriptor, and nobody closed it.
pub file_read_named-leaks :
    (env : Env) (os : Os) (name : List ℕ) (batch : List Fragment) (event : EventFd) (h : FileHandle)
    (m : Machine) (s : Service)
    → file_open os (some s) name 16384 ≡ done (some h)
    → eq_ℤ event.write_fd fd_invalid ≡ false
    → get_elem? s.executors h.core ≡ some m
    → All (λ f. is_skipped f ≡ true) batch
    → file_read_named env os name batch (some event) s ≡ done (pos 0, s)
unfolding file_read_named file_op file_close
file_read_named-leaks env os name batch event h m s opened ready place skipped =
    rw
      (
        opened,
        ready,
        place,
        skipped_all env FileOp.read h.fd true event.write_fd batch (pos 0) m s.next_job skipped,
        put-same h.core s.executors place,
      )
      refl

-- A batch answers for its last fragment: if that has data, what was answered to those before it is
-- forgotten, and so a batch that was refused but for its last fragment answers 0.
pub submit_fragments-last :
    (env : Env) (op : FileOp) (fd : ℤ) (close_fd : Bool) (event : ℤ) (frags : List Fragment)
    (last : Fragment) (code : ℤ) (m : Machine) (next : ℕ)
    → is_skipped last ≡ false
    → submit_fragments env op fd close_fd event (frags ++ last ∷ []) code m next ≡ (
        submit_fragments env op fd close_fd event frags code m next >>= λ r.
        submit_fragments env op fd close_fd event (last ∷ []) (pos 0) r.1 r.2)
unfolding submit_fragments
submit_fragments-last env op fd close_fd event [] last code m next live = rw live refl
submit_fragments-last env op fd close_fd event (frag ∷ frags) last code m next live =
    let tail = λ (c : ℤ) (n : Machine) (k : ℕ).
      submit_fragments-last env op fd close_fd event frags last c n k live in
    elim (Bool-cases (is_skipped frag)) [
      | inl skip ↦ rw skip (tail code m next)
      | inr here ↦ rw here (
          >>=-cong (fragment_job env next op fd close_fd event frag) _ _ (λ job.
            >>=-cong (submit_task env job false m) _ _ (λ answer.
              >>=-cong (verdict_code answer.0) _ _ (λ c. tail c answer.1 (suc next))
              ∙ sym (>>=_assoc (verdict_code answer.0) _ _))
            ∙ sym (>>=_assoc (submit_task env job false m) _ _))
          ∙ sym (>>=_assoc (fragment_job env next op fd close_fd event frag) _ _))
    ]
