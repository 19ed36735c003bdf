-- ===== src/Pool.antt =====
-- src/Mempool.cpp and src/gMempool.cpp: the pools of buffers. What malloc and posix_memalign answer is
-- an argument: an address, or 0 for a failure.
pub mod Sharing
use gobjfs.Base.{
  ℕ, ◌+◌, Bool, true, false, List, [], ◌∷◌, ◌++◌, Option, none, some, ◌==◌, if◌then◌else◌, u64,
  Outcome, done, fault, Fault, ◌>>=◌, ◌>>◌, assert,
}
use gobjfs.Util.Align.{round_to_next_512}

pub record PoolStats : Type 0 where
  pub bytes_allocated : ℕ
  pub num_alloc_calls : ℕ
  pub num_failed_alloc_calls : ℕ
  pub num_free_calls : ℕ
  pub num_reused : ℕ

abbrev pub no_stats : PoolStats
no_stats = record {
  bytes_allocated = 0;
  num_alloc_calls = 0;
  num_failed_alloc_calls = 0;
  num_free_calls = 0;
  num_reused = 0;
}

abbrev count_alloc : ℕ → PoolStats → PoolStats
count_alloc size s = record s {
  num_alloc_calls = u64 (s.num_alloc_calls + 1);
  bytes_allocated = u64 (s.bytes_allocated + size);
}

abbrev count_free : PoolStats → PoolStats
count_free s = record s { num_free_calls = u64 (s.num_free_calls + 1) }

-- An AlignedMempool has nothing but its statistics.
unfoldable pub aligned_alloc : ℕ → ℕ → PoolStats → ℕ × PoolStats
aligned_alloc memaligned size s =
    if memaligned == 0
    then (0, record s { num_failed_alloc_calls = u64 (s.num_failed_alloc_calls + 1) })
    else (memaligned, count_alloc size s)

unfoldable pub aligned_free : PoolStats → PoolStats
aligned_free s = count_free s

-- An ObjectMempool, and the addresses that it has given back to malloc, newest first.
pub record ObjectMempool : Type 0 where
  pub obj_size : ℕ
  pub free_list : List ℕ
  pub released : List ℕ
  pub stats : PoolStats

unfoldable pub take_from : ℕ → ℕ → List ℕ → ObjectMempool → ℕ × ObjectMempool
take_from malloced size [] p = (malloced, record p { stats = count_alloc size p.stats })
take_from malloced size (addr ∷ rest) p = (
  addr,
  record p {
    free_list = rest;
    stats = count_alloc size (record (p.stats) { num_reused = u64 (p.stats.num_reused + 1) });
  },
)

unfoldable pub object_alloc : ℕ → ℕ → ObjectMempool → Outcome (ℕ × ObjectMempool)
unfolding take_from
object_alloc malloced size p =
    assert (size == p.obj_size) >> done (take_from malloced size p.free_list p)

-- The push fails if the list can not grow; then the memory is freed.
unfoldable pub object_free : Bool → ℕ → ObjectMempool → ObjectMempool
object_free pushed addr p =
    let counted = record p { stats = count_free p.stats } in
    if pushed
    then record counted { free_list = p.free_list ++ addr ∷ [] }
    else record counted { released = addr ∷ p.released }

-- `gMempool_alloc` and `gMempool_free`, on the pool that `gMempool_init` made, if it was called:
-- `LOG_IF(FATAL)` only logs.
unfoldable pub g_mempool_alloc : ℕ → ℕ → Option PoolStats → Outcome (ℕ × Option PoolStats)
unfolding aligned_alloc round_to_next_512
g_mempool_alloc memaligned size pool = if size == 0 then done (0, pool) else elim pool [
  | none ↦ fault Fault.null_dereference
  | some s ↦
      let (addr, s') = aligned_alloc memaligned (round_to_next_512 size) s in done (addr, some s')
]

unfoldable pub g_mempool_free : ℕ → Option PoolStats → Outcome (Option PoolStats)
unfolding aligned_free
g_mempool_free addr pool =
    if addr == 0
    then done pool
    else elim pool [ none ↦ fault Fault.null_dereference | some s ↦ done (some (aligned_free s)) ]
