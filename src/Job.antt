-- ===== src/Job.antt =====
-- src/FilerJob.h, src/FilerJob.cpp and src/Queueable.h: one I/O request and its clock.
-- A job is passed by pointer in the source; `addr` is that pointer, and whoever holds the job holds
-- the record. Times are nanoseconds, and each function that reads the clock is given the reading.
pub mod Buffer
pub mod Times
use gobjfs.Base.{
  ℕ, ◌+◌, ◌-◌, ℤ, pos, negsuc, neg, Bool, true, false, Option, none, some, List, [], ◌==◌, not,
  if◌then◌else◌, edom, Outcome, done, ◌>>=◌, ◌>>◌, assert, ◌&&◌, eq_ℤ,
}
use gobjfs.Util.Align.{is_direct_io_aligned, round_to_next_512}

pub data FileOp : Type 0 where
  nop write read sync delete non_aligned_write : FileOp

abbrev pub fd_invalid : ℤ
fd_invalid = negsuc 0

-- The clock of Queueable.
pub record Timing : Type 0 where
  pub wait_time : ℕ
  pub service_time : ℕ
  pub begin : ℕ

pub record FilerJob : Type 0 where
  pub addr : ℕ
  pub op : FileOp
  pub offset : ℕ
  pub size : ℕ
  pub user_size : ℕ
  pub retcode : ℤ
  pub buffer : ℕ
  pub can_be_freed : Bool
  pub executor : Option ℤ
  pub fd : ℤ
  pub close_file_handle : Bool
  pub file_name : List ℕ
  pub completion_fd : ℤ
  pub completion_id : ℕ
  pub timing : Timing

-- A gIOStatus, as it is written to the completion pipe.
pub record Status : Type 0 where
  pub completion_fd : ℤ
  pub completion_id : ℕ
  pub error_code : ℤ

abbrev blank : ℕ → FileOp → FilerJob
blank addr op = record {
  addr = addr;
  op = op;
  offset = 0;
  size = 0;
  user_size = 0;
  retcode = neg edom;
  buffer = 0;
  can_be_freed = false;
  executor = none;
  fd = fd_invalid;
  close_file_handle = false;
  file_name = [];
  completion_fd = fd_invalid;
  completion_id = 0;
  timing = record { wait_time = 0; service_time = 0; begin = 0 };
}

-- The two constructors. That the file name is no null pointer is in its type.
unfoldable pub new_named : ℕ → List ℕ → FileOp → FilerJob
new_named addr filename op = record (blank addr op) { file_name = filename }

unfoldable pub new_fd : ℕ → ℤ → FileOp → Outcome FilerJob
new_fd addr fd op = do assert (not (eq_ℤ fd fd_invalid)); done (record (blank addr op) { fd = fd })

unfoldable pub set_submit_time : ℕ → Timing → Outcome Timing
set_submit_time now t = do
  assert (t.wait_time == 0)
  assert (t.service_time == 0)
  done (record t { begin = now })

unfoldable pub set_wait_time : ℕ → Timing → Outcome Timing
set_wait_time now t = do
  assert (t.wait_time == 0)
  assert (t.service_time == 0)
  done (record t { wait_time = now - t.begin; begin = now })

unfoldable pub set_service_time : ℕ → Timing → Outcome Timing
set_service_time now t = do
  assert (not (t.wait_time == 0))
  assert (t.service_time == 0)
  done (record t { service_time = now - t.begin })

abbrev pub is_read_or_write : FileOp → Bool
is_read_or_write write = true
is_read_or_write read = true
is_read_or_write _ = false

-- The control block that is handed to the kernel.
pub data Iocb : Type 0 where
  pwrite pread : ℤ → ℕ → ℕ → ℕ → Iocb

abbrev pub iocb_of : FilerJob → Iocb
iocb_of job = elim job.op [
  | write ↦ pwrite job.fd job.buffer job.size job.offset
  | _ ↦ pread job.fd job.buffer job.size job.offset
]

unfoldable pub prepare_callblock : ℕ → FilerJob → Outcome (Iocb × FilerJob)
unfolding set_wait_time
prepare_callblock now job = do
  assert (is_read_or_write job.op)
  t ← set_wait_time now job.timing
  done (iocb_of job, record job { timing = t })

-- Whether the fd is open is the operating system's answer.
unfoldable pub is_valid : Bool → FilerJob → Bool
unfolding is_direct_io_aligned
is_valid is_fd_open job =
    if not (is_read_or_write job.op)
    then true
    else is_fd_open
      && not (is_direct_io_aligned job.offset)
      && not (is_direct_io_aligned job.buffer)
      && not (is_direct_io_aligned job.size)

unfoldable pub set_buffer : ℕ → ℕ → ℕ → FilerJob → FilerJob
set_buffer file_offset buffer size job = record job {
  buffer = buffer;
  offset = file_offset;
  user_size = size;
  size = round_to_next_512 size;
}

-- The status that is written, and the job with its service time. A write that fails is only logged.
unfoldable pub reset : ℕ → FilerJob → Outcome (Status × FilerJob)
unfolding set_service_time
reset now job = do
  t ← set_service_time now job.timing
  done (
    record {
      completion_fd = job.completion_fd;
      completion_id = job.completion_id;
      error_code = job.retcode;
    },
    record job { timing = t },
  )
