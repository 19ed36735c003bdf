-- ===== src/File/Init/Cores.antt =====
-- What a service is made of.
use gobjfs.Base.{
  ℕ, zero, suc, ◌<◌, ◌≡◌, refl, ℤ, pos, List, [], ◌∷◌, length, map, arith, some, All, ap, ◌∙◌,
  false, ◌==◌,
}
use gobjfs.Executor.{Machine, Config, Env, new_executor, new_config, set_derived_param}
use gobjfs.Executor.Invariant.{Inv, new_executor-Inv}
use gobjfs.File.{Service}
use gobjfs.File.Init.{
  do_common_init, cores_from, new_service, default_config, service_init_cores, get_num_executors,
}

cores_from-length : (first count : ℕ) → length (cores_from first count) ≡ count
cores_from-length first zero = refl
cores_from-length first (suc count) = ap suc (cores_from-length (suc first) count)

map-length : (f : ℤ → Machine) (xs : List ℤ) → length (map f xs) ≡ length xs
map-length f [] = refl
map-length f (x ∷ xs) = ap suc (map-length f xs)

executors-Inv :
    (env : Env) (config : Config) (cores : List ℤ)
    → All (Inv env 0 []) (map (λ (c : ℤ). new_executor c config) cores)
executors-Inv env config [] = tt
executors-Inv env config (c ∷ cores) =
    (new_executor-Inv env c config, executors-Inv env config cores)

not_zero : (n : ℕ) → (suc n == 0) ≡ false
not_zero n = ground arith

abbrev config_of : ℕ → ℕ → Config
config_of count depth = record default_config {
  cpu_cores = cores_from 0 count;
  queue_depth = depth;
}

abbrev service_of : ℕ → ℕ → Service
service_of count depth = record (new_service (config_of count depth)) {
  executors = map (λ (c : ℤ). new_executor c (config_of count depth)) (cores_from 0 count);
}

-- A service for some cores, with queues of some depth, has one executor for each core, whose accounts
-- are in order. Whatever the depth, the limit at which its queues are full is 40, a fifth of the
-- default depth: what is derived from the depth is not derived again.
pub service_init_cores_lem :
    (env : Env) (count depth : ℕ)
    → 0 < count
    → 0 < depth
    → (s : Service) × (service_init_cores (pos count) depth ≡ some s)
      × (get_num_executors s ≡ count)
      × All (Inv env 0 []) s.executors
      × (s.config.queue_depth ≡ depth)
      × (s.config.max_request_queue_size ≡ 40)
unfolding service_init_cores do_common_init get_num_executors new_config set_derived_param
service_init_cores_lem env zero depth c d = absurd (omega arith)
service_init_cores_lem env (suc count) zero c d = absurd (omega arith)
service_init_cores_lem env (suc count) (suc depth) c d = (
  service_of (suc count) (suc depth),
  rw (not_zero count, not_zero depth) refl,
  map-length _ (cores_from 0 (suc count)) ∙ cores_from-length 0 (suc count),
  executors-Inv env _ (cores_from 0 (suc count)),
  refl,
  refl,
)
