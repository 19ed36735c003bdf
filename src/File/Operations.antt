-- ===== src/File/Operations.antt =====
-- Opening, closing, truncating, reading, writing and deleting files in src/gIOExecFile.cpp.
pub mod Ownership
pub mod Reading
use gobjfs.Base.{
  ℕ, zero, suc, ◌+◌, ℤ, pos, neg, Bool, true, false, List, [], ◌∷◌, get_elem?, ◌==◌, ◌||◌, not,
  if◌then◌else◌, Option, none, some, is_negative, eq_ℤ, Outcome, done, fault, Fault, ◌>>=◌, ◌>>◌,
  assert, demand, eio, einval,
}
use gobjfs.Job.{FilerJob, FileOp, fd_invalid, new_fd, new_named, set_buffer}
use gobjfs.Executor.{Env, Machine}
use gobjfs.Executor.Submit.{
  Submission, accepted, rejected, waits_for_fd_space, waits_for_request_space, submit_task,
}
use gobjfs.File.{Fragment, EventFd, FileHandle, Os, Service}
use gobjfs.File.Init.{is_ready, get_slot, call_translator}

unfoldable pub file_open : Os → Option Service → List ℕ → ℕ → Outcome (Option FileHandle)
unfolding call_translator get_slot
file_open os none name flags = done none
file_open os (some s) name flags =
    let (code, absolute) = call_translator os name in
    let fd = os.open_file absolute flags in
    if not (is_ready s) || is_negative code || is_negative fd
    then done none
    else done (some (record { fd = fd; core = get_slot os name s }))

-- The destructor closes the descriptor that is there.
unfoldable pub file_close : Option FileHandle → Service → Service
file_close none s = s
file_close (some h) s = if eq_ℤ h.fd fd_invalid then s else record s { closed = h.fd ∷ s.closed }

unfoldable pub file_truncate : Os → Option FileHandle → ℕ → ℤ
file_truncate os none size = neg einval
file_truncate os (some h) size = neg (os.ftruncate h.fd size)

-- What `submitTask` returns. A call that would sleep waits for another thread.
abbrev pub verdict_code : Submission → Outcome ℤ
verdict_code accepted = done (pos 0)
verdict_code (rejected code job) = done code
verdict_code _ = fault Fault.would_block

-- A fragment without data is passed over.
abbrev pub is_skipped : Fragment → Bool
is_skipped frag = frag.size == 0 || frag.addr == 0

-- The executor at a place of the vector is replaced by its new state.
pub put : ℕ → Machine → List Machine → List Machine
put i m [] = []
put zero m (x ∷ xs) = m ∷ xs
put (suc i) m (x ∷ xs) = x ∷ put i m xs

module _ (env : Env) where
  -- The job of a fragment.
  unfoldable pub fragment_job : ℕ → FileOp → ℤ → Bool → ℤ → Fragment → Outcome FilerJob
  unfolding new_fd set_buffer
  fragment_job addr op fd close_fd event frag = do
    job ← new_fd addr fd op
    done (record (set_buffer frag.offset frag.addr frag.size job) {
      completion_id = frag.completion_id;
      completion_fd = event;
      can_be_freed = true;
      close_file_handle = close_fd;
    })

  -- The loop over the batch, with the return code so far, the executor and the identity of the next
  -- job. A job that is not submitted is deleted.
  pub submit_fragments :
      FileOp → ℤ → Bool → ℤ → List Fragment → ℤ → Machine → ℕ → Outcome (ℤ × Machine × ℕ)
  unfolding fragment_job
  submit_fragments op fd close_fd event [] code m next = done (code, m, next)
  submit_fragments op fd close_fd event (frag ∷ frags) code m next =
      let passed = submit_fragments op fd close_fd event frags code m next in
      let submitted : Outcome (ℤ × Machine × ℕ) = (do
        job ← fragment_job next op fd close_fd event frag
        answer ← submit_task env job false m
        code' ← verdict_code answer.0
        submit_fragments op fd close_fd event frags code' answer.1 (suc next)) in
      if is_skipped frag then passed else submitted

  -- `IOExecFileOp`
  unfoldable pub file_op :
      FileOp
      → Option FileHandle
      → Bool
      → List Fragment
      → Option EventFd
      → Service
      → Outcome (ℤ × Service)
  unfolding submit_fragments
  file_op op handle close_fd batch none s = done (neg einval, s)
  file_op op none close_fd batch (some e) s = done (neg einval, s)
  file_op op (some h) close_fd batch (some e) s =
      if eq_ℤ e.write_fd fd_invalid
      then done (neg einval, s)
      else elim (get_elem? s.executors h.core) [
        | none ↦ done (neg einval, s)
        | some m ↦ submit_fragments op h.fd close_fd e.write_fd batch (pos 0) m s.next_job >>= λ r.
            done (r.0, record s { executors = put h.core r.1 s.executors; next_job = r.2 })
      ]

  unfoldable pub file_write :
      Option FileHandle → List Fragment → Option EventFd → Service → Outcome (ℤ × Service)
  file_write handle batch event s = file_op FileOp.write handle false batch event s

  unfoldable pub file_read :
      Option FileHandle → List Fragment → Option EventFd → Service → Outcome (ℤ × Service)
  file_read handle batch event s = file_op FileOp.read handle false batch event s

  abbrev pub o_direct_rdonly : ℕ
  o_direct_rdonly = 16384

  -- `IOExecFileRead` by name: the jobs close the file, or the handle does.
  unfoldable pub file_read_named :
      Os → List ℕ → List Fragment → Option EventFd → Service → Outcome (ℤ × Service)
  unfolding file_open file_op file_close
  file_read_named os name batch event s = file_open os (some s) name o_direct_rdonly >>= λ handle.
      elim handle [
        | none ↦ done (neg eio, s)
        | some h ↦ file_op FileOp.read (some h) true batch event s >>= λ r.
            if eq_ℤ (r.0) (pos 0)
            then done (r.0, file_close (some (record h { fd = fd_invalid })) (r.1))
            else (assert (not (eq_ℤ h.fd fd_invalid)) >> done (r.0, file_close (some h) (r.1)))
      ]

  -- The service handle is used before it is looked at.
  unfoldable pub file_delete_sync : Os → Option Service → List ℕ → Outcome ℤ
  unfolding call_translator
  file_delete_sync os none name = fault Fault.null_dereference
  file_delete_sync os (some s) name =
      let (code, absolute) = call_translator os name in
      done (if is_negative code then neg einval else neg (env.unlink absolute))

  -- The job is given to the first executor, and blocks.
  unfoldable pub file_delete :
      Os → Option Service → List ℕ → ℕ → Option EventFd → Outcome (ℤ × Option Service)
  unfolding call_translator new_named
  file_delete os none name id event = done (neg einval, none)
  file_delete os (some s) name id none = done (neg einval, some s)
  file_delete os (some s) name id (some e) =
      let (code, absolute) = call_translator os name in
      let job : FilerJob = record (new_named s.next_job absolute FileOp.delete) {
        completion_id = id;
        completion_fd = e.write_fd;
        can_be_freed = true;
      } in
      if not (is_ready s) || eq_ℤ e.write_fd fd_invalid || is_negative code
      then done (neg einval, some s)
      else elim s.executors [
        | [] ↦ done (neg einval, some s)
        | m ∷ others ↦ (do
          answer ← submit_task env job true m
          code' ← verdict_code answer.0
          done
              (code', some (record s { executors = answer.1 ∷ others; next_job = suc s.next_job })))
      ]
