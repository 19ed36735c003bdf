-- ===== src/File/Init.antt =====
-- The service and its pipes in src/gIOExecFile.cpp.
pub mod Cores
use gobjfs.Base.{
  ℕ, zero, suc, ◌%◌, ◌+◌, ℤ, pos, negsuc, neg, Bool, true, false, List, [], ◌∷◌, ◌++◌, length, map,
  ◌==◌, ◌||◌, not, if◌then◌else◌, Option, none, some, is_negative, Outcome, done, ◌>>=◌, ◌>>◌,
  assert, einval, enomem, eq_ℤ,
}
use gobjfs.Executor.{Config, Machine, new_config, new_executor}
use gobjfs.File.{Service, EventFd, Os}

-- `doCommonInit`: an executor for each core, and -EINVAL where there is none. That threads can be
-- made is taken for granted.
unfoldable pub do_common_init : Service → ℤ × Service
unfolding new_executor
do_common_init s = elim s.config.cpu_cores [
  | [] ↦ (neg einval, s)
  | core ∷ cores ↦ (
    pos 0,
    record s { executors = s.executors ++ map (λ (c : ℤ). new_executor c s.config) (core ∷ cores) },
  )
]

-- The cores 0, 1, ..., count - 1.
abbrev pub cores_from : ℕ → ℕ → List ℤ
cores_from first zero = []
cores_from first (suc count) = pos first ∷ cores_from (suc first) count

abbrev pub cores_up_to : ℤ → List ℤ
cores_up_to (pos count) = cores_from 0 count
cores_up_to (negsuc n) = []

abbrev pub new_service : Config → Service
new_service config = record { config = config; executors = []; next_job = 0; closed = [] }

abbrev pub default_config : Config
default_config = new_config 200

abbrev kept_if_ready : ℤ × Service → Option Service
kept_if_ready (code, s) = if eq_ℤ code (pos 0) then some s else none

-- `IOExecFileServiceInit(numCoresForIO, queueDepthForIO, ...)`. Of the configuration, the depth is
-- set and nothing that is derived from it.
unfoldable pub service_init_cores : ℤ → ℕ → Option Service
unfolding do_common_init
service_init_cores num_cores queue_depth =
    if eq_ℤ num_cores (pos 0) || queue_depth == 0
    then none
    else kept_if_ready (
        do_common_init (
          new_service (record default_config {
            cpu_cores = cores_up_to num_cores;
            queue_depth = queue_depth;
          })))

-- `IOExecFileServiceInit(pConfigFileName, ...)`, with what the configuration file was read as.
unfoldable pub service_init_file : Option Config → Option Service
unfolding do_common_init
service_init_file none = none
service_init_file (some config) = elim config.cpu_cores [
  | [] ↦ none
  | core ∷ cores ↦ kept_if_ready (do_common_init (new_service config))
]

-- `isValid`
abbrev pub is_ready : Service → Bool
is_ready s = not (length s.executors == 0)

unfoldable pub get_num_executors : Service → ℕ
get_num_executors s = length s.executors

-- `getSlot`
unfoldable pub get_slot : Os → List ℕ → Service → ℕ
get_slot os name s = os.hash name % length s.executors

-- `callTranslator`; without a translator the name is copied.
unfoldable pub call_translator : Os → List ℕ → ℤ × List ℕ
call_translator os name = elim os.translate [
  | none ↦ (pos 0, name)
  | some translate ↦ translate name
]

-- A call on a null handle stops there.
unfoldable pub event_fd_open : Os → Option Service → Outcome (Option EventFd)
event_fd_open os none = done none
event_fd_open os (some s) = if not (is_ready s) then done none else elim os.pipe [
  | none ↦ done none
  | some (r, w) ↦
      assert (not (is_negative r))
      >> assert (not (is_negative w))
      >> done (some (record { read_fd = r; write_fd = w }))
]

unfoldable pub event_fd_close : Option EventFd → List ℤ → List ℤ
event_fd_close none closed = closed
event_fd_close (some e) closed = e.write_fd ∷ e.read_fd ∷ closed

unfoldable pub event_fd_get_read_fd : Option EventFd → ℤ
event_fd_get_read_fd none = neg 1
event_fd_get_read_fd (some e) = e.read_fd
