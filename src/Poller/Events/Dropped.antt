-- ===== src/Poller/Events/Dropped.antt =====
-- `addEvent` followed by `dropEvent`.
use gobjfs.Base.{
  ℕ, suc, ◌≡◌, refl, ap, sym, ◌∙◌, true, false, List, [], ◌∷◌, ◌++◌, Option, none, some, ◌==◌,
  arith, ℤ, pos, All, Bool-cases, inl, inr, subst,
}
use gobjfs.Poller.Kernel.{Kernel, IsKernel, ok}
use gobjfs.Poller.Events.{
  Handler, Ctx, Poller, add_event, drop_event, register, unregister, erase_ctx, magic_word,
}

-- No context of the list is for this descriptor.
abbrev Absent : ℕ → List Ctx → Type 0
Absent fd [] = Unit {0}
Absent fd (c ∷ cs) = ((c.fd == fd) ≡ false) × Absent fd cs

erase_ctx-append :
    (cs : List Ctx) (c : Ctx)
    → Absent c.fd cs
    → erase_ctx c.user_data c.fd (cs ++ c ∷ []) ≡ (true, cs)
unfolding erase_ctx
erase_ctx-append [] c h = ground arith
erase_ctx-append (d ∷ cs) c h = ground (arith, erase_ctx-append cs c h.1)

module _ (K : Kernel) where
  -- The kernel has every context of the list registered.
  abbrev pub IsCovered : K.Interest → List Ctx → Type 0
  IsCovered i cs = All (λ c. K.registered i c.fd ≡ some c.addr) cs

  IsCovered-Absent :
      (i : K.Interest) (fd : ℕ) (cs : List Ctx)
      → K.registered i fd ≡ none
      → IsCovered i cs
      → Absent fd cs
  IsCovered-Absent i fd [] free h = tt
  IsCovered-Absent i fd (c ∷ cs) free h = (
    elim (Bool-cases (c.fd == fd)) [
      | inr other ↦ other
      | inl hit ↦
          let same : c.fd ≡ fd = ground arith in
          let taken = ap (K.registered i) (sym same) ∙ h.0 in cc
    ],
    IsCovered-Absent i fd cs free h.1,
  )

  -- An event was added, and dropping it gives back the poller `q` with the same descriptors registered.
  abbrev pub Restores : ℕ → ℕ → ℕ → K.Interest → Poller K.Interest → ℤ × Poller K.Interest → Type 0
  Restores user_data fd epfd i q (added, p') =
      (added ≡ pos 0)
      × ((i'' : K.Interest) × (drop_event K user_data fd p'
            ≡ (pos 0, record q { epoll = some (epfd, i'') }))
          × ((j : ℕ) → K.registered i'' j ≡ K.registered i j))

  module _ (lawful : IsKernel K) where
    unregister-added :
        (i i' : K.Interest) (epfd : ℕ) (c : Ctx)
        → K.ctl_add i c.fd c.addr ≡ ok i'
        → (i'' : K.Interest) × (unregister K c.fd (some (epfd, i')) ≡ (pos 0, some (epfd, i'')))
          × ((j : ℕ) → K.registered i'' j ≡ K.registered i j)
    unfolding unregister
    unregister-added i i' epfd c added =
        let there : K.registered i' c.fd ≡ some c.addr =
          let now = lawful.added i i' c.fd c.addr c.fd added in ground arith in
        let (i'', gone) = lawful.del_registered i' c.fd c.addr there in
        (
          i'',
          rw (gone, unregister) refl,
          λ j.
              let before = lawful.added i i' c.fd c.addr j added in
              let after = lawful.deleted i' i'' c.fd j gone in
              let free = lawful.add_fresh i i' c.fd c.addr added in
              elim (Bool-cases (j == c.fd)) [
                | inl hit ↦
                    let same : j ≡ c.fd = ground arith in
                    after ∙ rw hit (sym free ∙ ap (K.registered i) (sym same))
                | inr miss ↦ ground arith
              ],
        )

    drop_event-register :
        (c : Ctx) (i i' : K.Interest) (epfd : ℕ) (p : Poller K.Interest)
        → IsCovered i p.event_list
        → K.ctl_add i c.fd c.addr ≡ ok i'
        → Restores c.user_data c.fd epfd i p (register K c (some (epfd, i)) p)
    unfolding register drop_event
    drop_event-register c i i' epfd p covered added =
        let (i'', gone, same) = unregister-added i i' epfd c added in
        let absent =
          IsCovered-Absent i c.fd p.event_list (lawful.add_fresh i i' c.fd c.addr added) covered in
        let found = erase_ctx-append p.event_list c absent in
        rw (added, register) (refl, (i'', rw (gone, found) refl, same))

    -- Where the kernel has every event of a poller registered and takes a new one, `addEvent` returns 0,
    -- and `dropEvent` with the same word and descriptor returns 0 and gives back the poller with its list,
    -- in which only the address of the new context is used up, and with the same descriptors registered.
    pub drop_event-add_event :
        (user_data fd epfd : ℕ) (handler : Handler) (i i' : K.Interest) (p : Poller K.Interest)
        → p.epoll ≡ some (epfd, i)
        → IsCovered i p.event_list
        → K.ctl_add i fd p.allocated ≡ ok i'
        → Restores user_data fd epfd i
            (record p { allocated = suc p.allocated })
            (add_event K user_data (pos fd) handler p)
    unfolding add_event
    drop_event-add_event user_data fd epfd handler i i' p e covered added =
        let c : Ctx = record {
          addr = p.allocated;
          handler = handler;
          user_data = user_data;
          fd = fd;
          magic = magic_word;
        } in
        let q = record p { allocated = suc p.allocated } in
        subst (λ (o : Option (ℕ × K.Interest)). Restores user_data fd epfd i q (register K c o q))
          (sym e) (drop_event-register c i i' epfd q covered added)
