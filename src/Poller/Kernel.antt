-- ===== src/Poller/Kernel.antt =====
-- The calls of epoll and eventfd that src/util/EPoller.h and src/util/EventFD.h make, and what they
-- rely on of them.
use gobjfs.Base.{ℕ, ◌≡◌, refl, ◌⊎◌, inl, inr, Option, none, some, ◌==◌, if◌then◌else◌}

-- A system call: its result, or the errno that it fails with.
pub data Answer (A : Type 0) : Type 0 where
  ok : A → Answer A
  refused : ℕ → Answer A

pub Answer-cases :
    {A : Type 0} (r : Answer A) → ((a : A) × (r ≡ ok a)) ⊎ ((e : ℕ) × (r ≡ refused e))
Answer-cases (ok a) = inl (a, refl)
Answer-cases (refused e) = inr (e, refl)

-- `Interest` is what an epoll instance has registered; `registered` is the word that it keeps for a
-- descriptor, and hands out with each event of it.
pub record Kernel : Type 1 where
  pub Interest : Type 0
  pub registered : Interest → ℕ → Option ℕ
  pub epoll_create : Answer (ℕ × Interest)
  pub ctl_add : Interest → ℕ → ℕ → Answer Interest
  pub ctl_del : Interest → ℕ → Answer Interest
  pub eventfd : Answer ℕ

-- As documented: a new instance is empty, a descriptor is added only if it is not there, and one that
-- is there can be deleted.
pub record IsKernel (K : Kernel) : Type 0 where
  pub created :
      (fd : ℕ) (i : K.Interest) (j : ℕ) → K.epoll_create ≡ ok (fd, i) → K.registered i j ≡ none
  pub added :
      (i i' : K.Interest) (fd key j : ℕ)
      → K.ctl_add i fd key ≡ ok i'
      → K.registered i' j ≡ (if j == fd then some key else K.registered i j)
  pub add_fresh :
      (i i' : K.Interest) (fd key : ℕ) → K.ctl_add i fd key ≡ ok i' → K.registered i fd ≡ none
  pub deleted :
      (i i' : K.Interest) (fd j : ℕ)
      → K.ctl_del i fd ≡ ok i'
      → K.registered i' j ≡ (if j == fd then none else K.registered i j)
  pub del_registered :
      (i : K.Interest) (fd key : ℕ)
      → K.registered i fd ≡ some key
      → (i' : K.Interest) × (K.ctl_del i fd ≡ ok i')
