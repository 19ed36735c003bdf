-- ===== src/Tests/Pools.antt =====
-- An object pool, and return codes, on concrete values.
use gobjfs.Base.{ℕ, ◌≡◌, refl, pos, negsuc, neg, true, [], ◌∷◌, arith, Returns, ◌↔◌, ◌⊎◌, eio}
use gobjfs.Executor.Completions.{completion_code}
use gobjfs.Executor.Completions.Codes.{completion_code_lem}
use gobjfs.Pool.{ObjectMempool, no_stats, object_alloc, object_free}
use gobjfs.Pool.Sharing.{times, IsUnshared, object_alloc-IsUnshared, object_free-IsUnshared}
use gobjfs.Tests.Data.{read_job}

abbrev pool : ObjectMempool
pool = record { obj_size = 64; free_list = 300 ∷ []; released = []; stats = no_stats }

pool-IsUnshared : IsUnshared (400 ∷ []) pool
pool-IsUnshared a = ground arith

alloc_example :
    Returns
      (object_alloc 500 pool.obj_size pool)
      λ r. (times (r.0) (400 ∷ []) ≡ 0) × IsUnshared (r.0 ∷ 400 ∷ []) r.1
alloc_example = object_alloc-IsUnshared 500 (400 ∷ []) pool refl pool-IsUnshared

free_example : IsUnshared [] (object_free true 400 pool)
free_example = object_free-IsUnshared true 400 [] pool pool-IsUnshared

completion_code_example :
    ((completion_code (pos 100) read_job ≡ pos 0)
      ↔ ((pos 100 ≡ pos read_job.user_size) ⊎ (pos 100 ≡ pos read_job.size)))
    × ((completion_code (pos 100) read_job ≡ pos 0)
        ⊎ ((n : ℕ) × (pos 100 ≡ negsuc n) × (completion_code (pos 100) read_job ≡ pos 100))
        ⊎ ((n : ℕ) × (pos 100 ≡ pos n) × (completion_code (pos 100) read_job ≡ neg eio)))
completion_code_example = completion_code_lem (pos 100) read_job
