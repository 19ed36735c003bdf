-- ===== src/File/Operations/Reading.antt =====
-- One fragment of a read, from the interface down to the queue.
use gobjfs.Base.{
  ℕ, suc, ◌+◌, ◌≡◌, ℤ, pos, neg, Bool, true, false, [], arith, ◌⊎◌, ltb, ◌&&◌, not, eagain, u64,
}
use gobjfs.Util.Align.{round_to_next_512}
use gobjfs.Job.{FilerJob, FileOp}
use gobjfs.Executor.{Env, Machine}
use gobjfs.Executor.Invariant.{Inv, occurs}
use gobjfs.Executor.Post.{count}
use gobjfs.Executor.Submit.{reroute, is_running}
use gobjfs.File.{Fragment}

-- The executor has never seen the job of this identity.
abbrev pub IsUnseen : ℕ → Machine → Type 0
IsUnseen addr m =
    occurs addr m.in_flight
      + occurs addr m.request_queue
      + occurs addr m.fd_queue
      + count addr m.world.freed
    ≡ 0

-- A job that carries a fragment: what is read, where to, and who is told.
pub record Carries (op : FileOp) (fd : ℤ) (close_fd : Bool) (event : ℤ) (frag : Fragment)
    (job : FilerJob) : Type 0 where
  pub op_same : job.op ≡ op
  pub fd_same : job.fd ≡ fd
  pub offset_same : job.offset ≡ frag.offset
  pub buffer_same : job.buffer ≡ frag.addr
  pub size_same : job.user_size ≡ frag.size
  pub rounded : job.size ≡ round_to_next_512 frag.size
  pub id_same : job.completion_id ≡ frag.completion_id
  pub told : job.completion_fd ≡ event
  pub freed : job.can_be_freed ≡ true
  pub closes : job.close_file_handle ≡ close_fd

-- The request queue is over its limit.
abbrev pub is_full : Machine → Bool
is_full m = ltb m.config.max_request_queue_size m.request_queue_size

-- What a read of one fragment comes to: it is queued, or refused.
abbrev pub ReadOf : Env → Machine → ℕ → ℤ × Machine × ℕ → Type 0
ReadOf env m next r =
    ((r.0 ≡ pos 0)
      × Inv env 0 [] r.1
      × (r.1.stats.num_queued ≡ u64 (m.stats.num_queued + 1))
      × (is_running m.state ≡ true)
      × (is_full m ≡ false)
      × (r.2 ≡ suc next))
    ⊎ ((r.0 ≡ neg eagain)
        × (r.1 ≡ m)
        × ((is_running m.state && not (is_full m)) ≡ false)
        × (r.2 ≡ suc next))

read_stays : (job : FilerJob) → job.op ≡ FileOp.read → reroute job ≡ job
read_stays job op = ground arith
