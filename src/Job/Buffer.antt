-- ===== src/Job/Buffer.antt =====
-- The sizes of a job, and the check of its parameters.
use gobjfs.Base.{ℕ, ◌+◌, ◌^◌, ◌≤◌, ◌<◌, ◌≡◌, refl, Bool, true, false, arith}
use gobjfs.Util.Align.{is_direct_io_aligned}
use gobjfs.Util.Align.Rounding.{round_to_next_512_least, round_to_next_512-lt}
use gobjfs.Job.{FilerJob, set_buffer, is_valid, is_read_or_write}

-- Below 4 GiB less a block, `set_buffer` gives the kernel an aligned size that holds the user's
-- size with less than a block to spare, and leaves the identity and the operation of the job alone.
pub set_buffer_lem :
    (offset buffer size : ℕ) (job : FilerJob)
    → size + 511 < 2 ^ 32
    → let j = set_buffer offset buffer size job in
      (is_direct_io_aligned j.size ≡ true)
      × (j.user_size ≤ j.size)
      × (j.size < j.user_size + 512)
      × (j.user_size ≡ size)
      × (j.op ≡ job.op)
      × (j.addr ≡ job.addr)
unfolding set_buffer
set_buffer_lem offset buffer size job h =
    let r = round_to_next_512_least size h in
    (r.0, r.1, round_to_next_512-lt size h, refl, refl, refl)

-- The check is inverted: it refuses every read or write whose size was set by `set_buffer`, on an
-- open fd too, below 4 GiB less a block.
pub is_valid-set_buffer :
    (is_fd_open : Bool) (offset buffer size : ℕ) (job : FilerJob)
    → size + 511 < 2 ^ 32
    → is_read_or_write job.op ≡ true
    → is_valid is_fd_open (set_buffer offset buffer size job) ≡ false
unfolding is_valid set_buffer
is_valid-set_buffer is_fd_open offset buffer size job h rw_op =
    ground (arith, (round_to_next_512_least size h).0)
