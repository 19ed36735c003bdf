-- ===== src/Executor/Post.antt =====
-- `Statistics::incrementOps` and `doPostProcessingOfJob` in src/IOExecutor.cpp.
use gobjfs.Base.{
  ℕ, ◌+◌, List, [], ◌∷◌, ◌==◌, ltb, if◌then◌else◌, u32, u64, Outcome, done, Fault, ◌>>=◌, ◌>>◌,
  assert, demand,
}
use gobjfs.Job.{FilerJob, FileOp, reset}
use gobjfs.Executor.{OpStats, Statistics, World, Machine, Env}

abbrev record_times : FilerJob → OpStats → OpStats
record_times job s = record s {
  num_ops = u32 (s.num_ops + 1);
  wait_times = job.timing.wait_time ∷ s.wait_times;
  service_times = job.timing.service_time ∷ s.service_times;
}

-- `numBytes_` is a uint32_t.
abbrev record_bytes : FilerJob → OpStats → OpStats
record_bytes job s = record (record_times job s) { num_bytes = u32 (s.num_bytes + job.size) }

abbrev count_op : FileOp → FilerJob → Statistics → Outcome Statistics
count_op FileOp.write job s =
    assert (ltb 0 job.size) >> done (record s { write = record_bytes job s.write })
count_op FileOp.non_aligned_write job s =
    assert (ltb 0 job.size)
    >> done (record s { non_aligned_write = record_bytes job s.non_aligned_write })
count_op FileOp.read job s =
    assert (ltb 0 job.size) >> done (record s { read = record_bytes job s.read })
count_op FileOp.delete job s = done (record s { delete = record_times job s.delete })
count_op _ job s = done s

unfoldable pub increment_ops : FilerJob → Statistics → Outcome Statistics
increment_ops job s = do
  s' ← count_op job.op job s
  done (record s' { num_completed = u64 (s'.num_completed + 1) })

abbrev pub count : ℕ → List ℕ → ℕ
count a [] = 0
count a (x ∷ xs) = (if x == a then 1 else 0) + count a xs

abbrev pub release_job : FilerJob → World → World
release_job job w = record w {
  closed = if job.close_file_handle then job.fd ∷ w.closed else w.closed;
  freed = if job.can_be_freed then job.addr ∷ w.freed else w.freed;
}

-- A job that was freed before must not be touched again.
unfoldable pub do_post_processing_of_job : Env → FilerJob → Machine → Outcome Machine
unfolding reset
do_post_processing_of_job env job m = do
  demand (count job.addr m.world.freed == 0) Fault.use_after_free
  answer ← reset (env.clock m.world.ticks) job
  stats ← increment_ops answer.1 m.stats
  let w = record (m.world) { notified = answer.0 ∷ m.world.notified; ticks = m.world.ticks + 1 }
  done (record m { stats = stats; world = release_job answer.1 w })
