-- ===== src/Pool/Sharing.antt =====
-- The owners of the buffers of an object pool, in src/Mempool.cpp.
use gobjfs.Base.{
  ℕ, suc, ◌+◌, ◌≤◌, ◌≡◌, refl, Bool, true, false, List, [], ◌∷◌, ◌++◌, arith, ◌==◌, if◌then◌else◌,
  Returns, ap, inl, inr, Bool-cases, subst,
}
use gobjfs.Pool.{ObjectMempool, take_from, object_alloc, object_free}

-- How often an address is in a list.
abbrev pub times : ℕ → List ℕ → ℕ
times a [] = 0
times a (x ∷ xs) = (if x == a then 1 else 0) + times a xs

times-append : (a : ℕ) (xs ys : List ℕ) → times a (xs ++ ys) ≡ times a xs + times a ys
times-append a [] ys = omega arith
times-append a (x ∷ xs) ys = omega (arith, times-append a xs ys)

-- An address is with one caller, or once in the free list, or neither.
abbrev pub IsUnshared : List ℕ → ObjectMempool → Type 0
IsUnshared live p = (a : ℕ) → times a live + times a p.free_list ≤ 1

self_equal : (n : ℕ) → (n == n) ≡ true
self_equal n = ground arith

self_times : (a : ℕ) (xs : List ℕ) → times a (a ∷ xs) ≡ suc (times a xs)
self_times a xs = rw (self_equal a) (omega arith)

unowned :
    (m a : ℕ) (live free : List ℕ)
    → times m live + times m free ≡ 0
    → times a live + times a free ≤ 1
    → (if m == a then 1 else 0) + times a live + times a free ≤ 1
unowned m a live free none one = elim (Bool-cases (m == a)) [
  | inl hit ↦
      let same : m ≡ a = ground arith in
      let none' = subst (λ k. times k live + times k free ≡ 0) same none in
      rw hit (omega (arith, none'))
  | inr miss ↦ rw miss (omega (arith, one))
]

take_from-IsUnshared :
    (malloced size : ℕ) (live free : List ℕ) (p : ObjectMempool)
    → p.free_list ≡ free
    → times malloced live + times malloced free ≡ 0
    → IsUnshared live p
    → let r = take_from malloced size free p in
      (times (r.0) live ≡ 0) × IsUnshared (r.0 ∷ live) (r.1)
unfolding take_from
take_from-IsUnshared malloced size live [] p e fresh v = (
  omega (arith, fresh),
  λ a. unowned malloced a live p.free_list (omega (arith, fresh, ap (times malloced) e)) (v a),
)
take_from-IsUnshared malloced size live (addr ∷ rest) p e fresh v = (
  omega (arith, v addr, ap (times addr) e, self_times addr rest),
  λ a. omega (arith, v a, ap (times a) e),
)

-- If malloc gives an address that nobody has, an object pool gives out an address that no caller has,
-- from its free list or from malloc, and no address is shared afterwards.
pub object_alloc-IsUnshared :
    (malloced : ℕ) (live : List ℕ) (p : ObjectMempool)
    → times malloced live + times malloced p.free_list ≡ 0
    → IsUnshared live p
    → Returns
        (object_alloc malloced p.obj_size p)
        λ r. (times (r.0) live ≡ 0) × IsUnshared (r.0 ∷ live) r.1
unfolding object_alloc
object_alloc-IsUnshared malloced live p fresh v =
    rw (self_equal p.obj_size)
      (take_from-IsUnshared malloced p.obj_size live p.free_list p refl fresh v)

-- An address that its one owner frees is shared by nobody afterwards, whether it can be kept or not.
pub object_free-IsUnshared :
    (pushed : Bool) (addr : ℕ) (live : List ℕ) (p : ObjectMempool)
    → IsUnshared (addr ∷ live) p
    → IsUnshared live (object_free pushed addr p)
unfolding object_free
object_free-IsUnshared true addr live p v =
    λ a. omega (arith, v a, times-append a p.free_list (addr ∷ []))
object_free-IsUnshared false addr live p v = λ a. omega (arith, v a)
