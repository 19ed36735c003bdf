-- ===== src/File.antt =====
-- src/gIOExecFile.cpp and include/gIOExecFile.h: the library's interface to files. The children have
-- its service, its batches of fragments, its operations on files and its statistics buffer.
pub mod Batch
pub mod Init
pub mod Operations
pub mod StatsBuffer
use gobjfs.Base.{ℕ, ℤ, List, Option}
use gobjfs.Executor.{Config, Machine}

-- A gIOExecFragment; `addr` is 0 for a null pointer.
pub record Fragment : Type 0 where
  pub completion_id : ℕ
  pub offset : ℕ
  pub size : ℕ
  pub addr : ℕ

-- An IOExecEventFdInt: the read end and the write end of a pipe.
pub record EventFd : Type 0 where
  pub read_fd : ℤ
  pub write_fd : ℤ

-- An IOExecFileInt. Its executor is that of `core` in its service.
pub record FileHandle : Type 0 where
  pub fd : ℤ
  pub core : ℕ

-- What the calls about files ask of the operating system and of the caller: the translator of file
-- names, if there is one, answers a code and a name; `open` and `pipe` answer the descriptors or
-- nothing; `ftruncate` answers 0 or an errno.
pub record Os : Type 0 where
  pub translate : Option (List ℕ → ℤ × List ℕ)
  pub hash : List ℕ → ℕ
  pub open_file : List ℕ → ℕ → ℤ
  pub pipe : Option (ℤ × ℤ)
  pub ftruncate : ℤ → ℕ → ℕ

-- An IOExecServiceInt, with the identity of the next job that is allocated, and the descriptors that
-- the calls here have closed, the newest first.
pub record Service : Type 0 where
  pub config : Config
  pub executors : List Machine
  pub next_job : ℕ
  pub closed : List ℤ
