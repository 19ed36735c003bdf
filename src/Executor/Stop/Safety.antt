-- ===== src/Executor/Stop/Safety.antt =====
-- The accounts at every step of an executor's life.
use gobjfs.Base.{ℕ, ◌+◌, length}
use gobjfs.Executor.{Machine}

-- The number of jobs that the executor has.
abbrev pub load : Machine → ℕ
load m = length m.in_flight + length m.request_queue + length m.fd_queue
