-- ===== src/Poller/Events/Registered.antt =====
-- What the kernel keeps for a poller's descriptors, against the list of its events.
use gobjfs.Base.{
  ℕ, suc, ◌<◌, ◌≡◌, refl, ap, sym, ◌∙◌, false, List, [], ◌∷◌, ◌++◌, Option, none, some, ◌==◌, arith,
  ℤ, pos, negsuc, Bool-cases, inl, inr, subst,
}
use gobjfs.Poller.Kernel.{Kernel, IsKernel, ok, Answer-cases}
use gobjfs.Poller.Events.{
  Handler, Ctx, Poller, add_event, drop_event, unregister, erase_ctx, ctx_at, magic_word, register,
}

-- The list has a context at this address for this descriptor, and it is the one that is found there.
abbrev pub Live : ℕ → ℕ → List Ctx → Type 0
Live key fd cs = (c : Ctx) × (ctx_at key cs ≡ some c) × (c.fd ≡ fd) × (c.magic ≡ magic_word)

-- Every address in the list was given out.
abbrev pub Below : ℕ → List Ctx → Type 0
Below n [] = Unit {0}
Below n (c ∷ cs) = (c.addr < n) × Below n cs

-- No two contexts share an address.
abbrev pub Apart : ℕ → List Ctx → Type 0
Apart a [] = Unit {0}
Apart a (c ∷ cs) = ((c.addr == a) ≡ false) × Apart a cs

abbrev pub Distinct : List Ctx → Type 0
Distinct [] = Unit {0}
Distinct (c ∷ cs) = Apart c.addr cs × Distinct cs

Below-mono : (m n : ℕ) (cs : List Ctx) → m < suc n → Below m cs → Below n cs
Below-mono m n [] h b = tt
Below-mono m n (c ∷ cs) h b = (omega arith, Below-mono m n cs h b.1)

Below-append : (n : ℕ) (cs ds : List Ctx) → Below n cs → Below n ds → Below n (cs ++ ds)
Below-append n [] ds b d = d
Below-append n (c ∷ cs) ds b d = (b.0, Below-append n cs ds b.1 d)

Apart-append :
    (a : ℕ) (cs : List Ctx) (c : Ctx) → Apart a cs → (c.addr == a) ≡ false → Apart a (cs ++ c ∷ [])
Apart-append a [] c h k = (k, tt)
Apart-append a (d ∷ cs) c h k = (h.0, Apart-append a cs c h.1 k)

Distinct-append :
    (cs : List Ctx) (c : Ctx) → Distinct cs → Below c.addr cs → Distinct (cs ++ c ∷ [])
Distinct-append [] c h b = (tt, tt)
Distinct-append (d ∷ cs) c h b =
    (Apart-append d.addr cs c h.0 (ground arith), Distinct-append cs c h.1 b.1)

-- A context at the end is found at a new address, and hides none before it.
ctx_at-new : (cs : List Ctx) (c : Ctx) → Below c.addr cs → ctx_at c.addr (cs ++ c ∷ []) ≡ some c
unfolding ctx_at
ctx_at-new [] c b = ground arith
ctx_at-new (d ∷ cs) c b = ground (arith, ctx_at-new cs c b.1)

ctx_at-append :
    (key : ℕ) (cs ds : List Ctx) {c : Ctx} → ctx_at key cs ≡ some c → ctx_at key (cs ++ ds) ≡ some c
unfolding ctx_at
ctx_at-append key [] ds h = ground arith
ctx_at-append key (d ∷ cs) ds {c} h = ground (arith, ctx_at-append key cs ds {c = c})

-- The loop of `dropEvent` takes one context of the descriptor out at most, and finds the others.
ctx_at-erase_ctx :
    (key user_data fd : ℕ) (cs : List Ctx) {c : Ctx}
    → ctx_at key cs ≡ some c
    → (c.fd == fd) ≡ false
    → ctx_at key (erase_ctx user_data fd cs).1 ≡ some c
unfolding ctx_at erase_ctx
ctx_at-erase_ctx key user_data fd [] h k = ground arith
ctx_at-erase_ctx key user_data fd (d ∷ cs) {c} h k =
    ground (arith, ctx_at-erase_ctx key user_data fd cs {c = c})

Below-erase_ctx :
    (n user_data fd : ℕ) (cs : List Ctx) → Below n cs → Below n (erase_ctx user_data fd cs).1
unfolding erase_ctx
Below-erase_ctx n user_data fd [] b = tt
Below-erase_ctx n user_data fd (c ∷ cs) b = ground (arith, Below-erase_ctx n user_data fd cs b.1)

Apart-erase_ctx :
    (a user_data fd : ℕ) (cs : List Ctx) → Apart a cs → Apart a (erase_ctx user_data fd cs).1
unfolding erase_ctx
Apart-erase_ctx a user_data fd [] b = tt
Apart-erase_ctx a user_data fd (c ∷ cs) b = ground (arith, Apart-erase_ctx a user_data fd cs b.1)

Distinct-erase_ctx :
    (user_data fd : ℕ) (cs : List Ctx) → Distinct cs → Distinct (erase_ctx user_data fd cs).1
unfolding erase_ctx
Distinct-erase_ctx user_data fd [] h = tt
Distinct-erase_ctx user_data fd (c ∷ cs) h =
    ground
      (arith, Distinct-erase_ctx user_data fd cs h.1, Apart-erase_ctx c.addr user_data fd cs h.0)

Live-append : (key fd : ℕ) (cs ds : List Ctx) → Live key fd cs → Live key fd (cs ++ ds)
Live-append key fd cs ds (c, at, same, word) = (c, ctx_at-append key cs ds at, same, word)

Live-erase_ctx :
    (key fd user_data x : ℕ) (cs : List Ctx)
    → (fd == x) ≡ false
    → Live key fd cs
    → Live key fd (erase_ctx user_data x cs).1
Live-erase_ctx key fd user_data x cs other (c, at, same, word) =
    (c, ctx_at-erase_ctx key user_data x cs at (rw same other), same, word)

module _ (K : Kernel) where
  -- The kernel can report an event of this descriptor, with this word.
  abbrev pub Reported : Option (ℕ × K.Interest) → ℕ → ℕ → Type 0
  Reported none fd key = ⊥
  Reported (some (epfd, i)) fd key = K.registered i fd ≡ some key

  -- Whatever the kernel can report is a context in the list, for the descriptor that it is of.
  pub record IsSynced (p : Poller K.Interest) : Type 0 where
    pub live : (fd key : ℕ) → Reported p.epoll fd key → Live key fd p.event_list
    pub below : Below p.allocated p.event_list
    pub distinct : Distinct p.event_list

  module _ (lawful : IsKernel K) where
    Live-added :
        (i i' : K.Interest) (epfd fd key x : ℕ) (cs : List Ctx) (c : Ctx)
        → K.ctl_add i fd c.addr ≡ ok i'
        → c.fd ≡ fd
        → c.magic ≡ magic_word
        → Below c.addr cs
        → ((x k : ℕ) → Reported (some (epfd, i)) x k → Live k x cs)
        → Reported (some (epfd, i')) x key
        → Live key x (cs ++ c ∷ [])
    Live-added i i' epfd fd key x cs c added same word below live reported =
        let now = sym (lawful.added i i' fd c.addr x added) ∙ reported in
        elim (Bool-cases (x == fd)) [
          | inl hit ↦
              let k : key ≡ c.addr = ground arith in
              let f : c.fd ≡ x = ground arith in (c, rw k (ctx_at-new cs c below), f, word)
          | inr miss ↦
              let before : K.registered i x ≡ some key = ground arith in
              Live-append key x cs (c ∷ []) (live x key before)
        ]

    register-IsSynced :
        (c : Ctx) (o : Option (ℕ × K.Interest)) (p : Poller K.Interest)
        → c.magic ≡ magic_word
        → o ≡ p.epoll
        → Below c.addr p.event_list
        → c.addr < p.allocated
        → IsSynced p
        → IsSynced (register K c o p).1
    unfolding register
    register-IsSynced c none p word e b n s = s
    register-IsSynced c (some (epfd, i)) p word e b n s =
        elim (Answer-cases (K.ctl_add i c.fd c.addr)) [
          | inr (_, refusal) ↦ rw (refusal, register) s
          | inl (i', added) ↦
              let live = λ (x k : ℕ) (h : Reported (some (epfd, i)) x k).
                s.live x k (subst (λ (o : Option (ℕ × K.Interest)). Reported o x k) e h) in
              rw (added, register)
                (record {
                  live = λ x k h.
                      Live-added i i' epfd c.fd k x p.event_list c added refl word b live h;
                  below = Below-append p.allocated p.event_list (c ∷ []) s.below (n, tt);
                  distinct = Distinct-append p.event_list c s.distinct b;
                })
        ]

    pub add_event-IsSynced :
        (user_data : ℕ) (fd : ℤ) (handler : Handler) (p : Poller K.Interest)
        → IsSynced p
        → IsSynced (add_event K user_data fd handler p).1
    unfolding add_event
    add_event-IsSynced user_data (negsuc n) handler p s = s
    add_event-IsSynced user_data (pos fd) handler p s =
        register-IsSynced _ p.epoll (record p { allocated = suc p.allocated }) refl refl s.below
          (omega arith)
          (record {
            live = s.live;
            below = Below-mono p.allocated (suc p.allocated) p.event_list (omega arith) s.below;
            distinct = s.distinct;
          })

    Live-dropped :
        (fd x key user_data : ℕ) (o : Option (ℕ × K.Interest)) (cs : List Ctx)
        → ((x k : ℕ) → Reported o x k → Live k x cs)
        → Reported (unregister K fd o).1 x key
        → Live key x (erase_ctx user_data fd cs).1
    unfolding unregister
    Live-dropped fd x key user_data none cs live h = absurd h
    Live-dropped fd x key user_data (some (epfd, i)) cs live h =
        elim (Answer-cases (K.ctl_del i fd)) [
          | inl (i', gone) ↦
              let after : K.registered i' x ≡ some key = rw (gone, unregister) at h in
              let now = sym (lawful.deleted i i' fd x gone) ∙ after in
              let other : (x == fd) ≡ false = ground arith in
              let before : K.registered i x ≡ some key = ground arith in
              Live-erase_ctx key x user_data fd cs other (live x key before)
          | inr (e, refusal) ↦
              let before : K.registered i x ≡ some key = rw (refusal, unregister) at h in
              elim (Bool-cases (x == fd)) [
                | inl hit ↦
                    let same : x ≡ fd = ground arith in
                    let (i', gone) =
                      lawful.del_registered i fd key (ap (K.registered i) (sym same) ∙ before) in
                    cc
                | inr miss ↦ Live-erase_ctx key x user_data fd cs miss (live x key before)
              ]
        ]

    pub drop_event-IsSynced :
        (user_data fd : ℕ) (p : Poller K.Interest)
        → IsSynced p
        → IsSynced (drop_event K user_data fd p).1
    unfolding drop_event
    drop_event-IsSynced user_data fd p s = record {
      live = λ x k h. Live-dropped fd x k user_data p.epoll p.event_list s.live h;
      below = Below-erase_ctx p.allocated user_data fd p.event_list s.below;
      distinct = Distinct-erase_ctx user_data fd p.event_list s.distinct;
    }
