-- ===== src/Tests/Files.antt =====
-- The interface to files on concrete batches.
use gobjfs.Base.{
  suc, ◌≡◌, refl, pos, true, false, [], ◌∷◌, ◌++◌, All, arith, none, some, done, fault, Fault,
  ◌>>=◌,
}
use gobjfs.Util.Align.{is_direct_io_aligned}
use gobjfs.Job.{FileOp}
use gobjfs.Executor.Invariant.{Inv}
use gobjfs.File.{Fragment, EventFd, FileHandle, Os, Service}
use gobjfs.File.Batch.{batch_alloc, batch_free}
use gobjfs.File.Batch.Lifetime.{buffers, batch_free-batch_alloc}
use gobjfs.File.Init.{
  service_init_cores, get_num_executors, new_service, default_config, call_translator, get_slot,
}
use gobjfs.File.Init.Cores.{service_init_cores_lem}
use gobjfs.File.Operations.{file_open, file_read_named, submit_fragments}
use gobjfs.File.Operations.Ownership.{file_read_named-leaks, submit_fragments-last}
use gobjfs.File.StatsBuffer.{get_stats}
use gobjfs.File.StatsBuffer.Copies.{joined, get_stats-fits, get_stats-overruns}
use gobjfs.Tests.Data.{calm, loaded}

abbrev whole_block : Fragment
whole_block = record { completion_id = 8; offset = 512; size = 512; addr = 65536 }

abbrev no_data : Fragment
no_data = record { completion_id = 9; offset = 0; size = 0; addr = 0 }

abbrev os : Os
os = record {
  translate = none;
  hash = λ name. 5;
  open_file = λ name flags. pos 3;
  pipe = some (pos 10, pos 11);
  ftruncate = λ fd size. 0;
}

abbrev service : Service
service = record (new_service default_config) { executors = loaded ∷ []; next_job = 3 }

abbrev handle : FileHandle
handle = record { fd = pos 3; core = 0 }

abbrev event : EventFd
event = record { read_fd = pos 10; write_fd = pos 11 }

block_aligned : is_direct_io_aligned 512 ≡ true
unfolding is_direct_io_aligned
block_aligned = refl

batch_example :
    (batch_free (some (whole_block ∷ [])) [] ≡ done (buffers (whole_block ∷ []) ++ []))
    × (batch_free (some (batch_alloc (suc 0))) [] ≡ fault Fault.assert_failed)
batch_example = batch_free-batch_alloc (whole_block ∷ []) 0 [] ((block_aligned, omega arith), tt)

cores_example :
    (s : Service) × (service_init_cores (pos 2) 7 ≡ some s)
    × (get_num_executors s ≡ 2)
    × All (Inv calm 0 []) s.executors
    × (s.config.queue_depth ≡ 7)
    × (s.config.max_request_queue_size ≡ 40)
cores_example = service_init_cores_lem calm 2 7 (omega arith) (omega arith)

handle_opened : file_open os (some service) [] 16384 ≡ done (some handle)
unfolding file_open call_translator get_slot
handle_opened = refl

leak_example :
    file_read_named calm os [] (no_data ∷ []) (some event) service ≡ done (pos 0, service)
leak_example =
    file_read_named-leaks calm os [] (no_data ∷ []) event handle loaded service handle_opened refl
      refl (refl, tt)

last_example :
    submit_fragments calm FileOp.read
      (pos 3)
      false
      (pos 11)
      (no_data ∷ [] ++ whole_block ∷ [])
      (pos 0)
      loaded
      3
    ≡ (submit_fragments calm FileOp.read (pos 3) false (pos 11) (no_data ∷ []) (pos 0) loaded 3
        >>= λ r.
            submit_fragments calm FileOp.read
              (pos 3)
              false
              (pos 11)
              (whole_block ∷ [])
              (pos 0)
              r.1
              r.2)
last_example =
    submit_fragments-last calm FileOp.read (pos 3) false (pos 11) (no_data ∷ []) whole_block (pos 0)
      loaded 3 refl

fits_example :
    get_stats 9 (1 ∷ 2 ∷ []) ((3 ∷ []) ∷ []) ≡ done ((1 ∷ 2 ∷ []) ++ joined ((3 ∷ []) ∷ []))
fits_example = get_stats-fits 9 (1 ∷ 2 ∷ []) ((3 ∷ []) ∷ []) (omega arith)

overruns_example : get_stats 3 (1 ∷ 2 ∷ []) ((3 ∷ []) ∷ []) ≡ fault Fault.buffer_overrun
overruns_example =
    get_stats-overruns 3 (1 ∷ 2 ∷ []) (3 ∷ []) [] (omega arith) (omega arith) (omega arith)
