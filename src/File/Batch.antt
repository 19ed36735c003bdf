-- ===== src/File/Batch.antt =====
-- gIOBatchAlloc and gIOBatchFree in src/gIOExecFile.cpp.
pub mod Lifetime
use gobjfs.Base.{
  ℕ, List, [], ◌∷◌, replicate, ◌==◌, not, if◌then◌else◌, Option, none, some, Outcome, done, ◌>>=◌,
  ◌>>◌, assert,
}
use gobjfs.Util.Align.{is_direct_io_aligned}
use gobjfs.File.{Fragment}

abbrev pub blank_fragment : Fragment
blank_fragment = record { completion_id = 0; offset = 0; size = 0; addr = 0 }

unfoldable pub batch_alloc : ℕ → List Fragment
batch_alloc count = replicate count blank_fragment

-- `gMempool_free` returns at once for a null pointer.
abbrev pub release : ℕ → List ℕ → List ℕ
release addr freed = if addr == 0 then freed else addr ∷ freed

unfoldable pub free_fragments : List Fragment → List ℕ → Outcome (List ℕ)
free_fragments [] freed = done freed
free_fragments (frag ∷ frags) freed =
    assert (is_direct_io_aligned frag.offset)
    >> assert (not (frag.completion_id == 0))
    >> free_fragments frags (release frag.addr freed)

-- The buffers that were freed, newest first.
unfoldable pub batch_free : Option (List Fragment) → List ℕ → Outcome (List ℕ)
unfolding free_fragments
batch_free none freed = done freed
batch_free (some frags) freed = free_fragments frags freed
