-- ===== src/File/Batch/Lifetime.antt =====
-- From the allocation of a batch to its release.
use gobjfs.Base.{
  ℕ, suc, ◌<◌, ◌≡◌, refl, List, [], ◌∷◌, ◌++◌, append_assoc, sym, false, All, arith, true, some,
  done, fault, Fault, ◌∙◌, ◌==◌, if◌then◌else◌, ap, Bool-cases, inl, inr,
}
use gobjfs.Util.Align.{is_direct_io_aligned}
use gobjfs.File.{Fragment}
use gobjfs.File.Batch.{batch_alloc, batch_free, free_fragments, release}

-- The buffers of some fragments, the last first.
abbrev pub buffers : List Fragment → List ℕ
buffers [] = []
buffers (frag ∷ frags) = buffers frags ++ (if frag.addr == 0 then [] else frag.addr ∷ [])

-- A fragment that was filled in.
abbrev pub IsFilled : Fragment → Type 0
IsFilled frag = (is_direct_io_aligned frag.offset ≡ true) × (0 < frag.completion_id)

release-append :
    (addr : ℕ) (freed : List ℕ)
    → release addr freed ≡ (if addr == 0 then [] else addr ∷ []) ++ freed
release-append addr freed = elim (Bool-cases (addr == 0)) [ inl z ↦ rw z refl | inr n ↦ rw n refl ]

has_id : (n : ℕ) → 0 < n → (n == 0) ≡ false
has_id n h = ground arith

free_fragments-frees :
    (frags : List Fragment) (freed : List ℕ)
    → All IsFilled frags
    → free_fragments frags freed ≡ done (buffers frags ++ freed)
unfolding free_fragments
free_fragments-frees [] freed h = refl
free_fragments-frees (frag ∷ frags) freed h =
    rw (h.0.0, has_id frag.completion_id h.0.1)
      (free_fragments-frees frags (release frag.addr freed) h.1
        ∙ ap (λ (l : List ℕ). done (buffers frags ++ l)) (release-append frag.addr freed)
        ∙ ap done (sym (append_assoc (buffers frags) _ freed)))

-- A batch whose fragments all have a completion id and an aligned offset is freed without a fault, and
-- with it every buffer that is there, each once; while a batch of one or more fragments that comes
-- straight from its allocation can not be freed: its completion ids are 0.
pub batch_free-batch_alloc :
    (frags : List Fragment) (count : ℕ) (freed : List ℕ)
    → All IsFilled frags
    → (batch_free (some frags) freed ≡ done (buffers frags ++ freed))
      × (batch_free (some (batch_alloc (suc count))) freed ≡ fault Fault.assert_failed)
unfolding batch_free batch_alloc free_fragments is_direct_io_aligned
batch_free-batch_alloc frags count freed h = (free_fragments-frees frags freed h, refl)
