-- ===== src/Poller/Loop/Freed.antt =====
-- A handler that drops an event that is ready in the same batch.
use gobjfs.Base.{
  ℕ, ◌≡◌, refl, ap, ◌∙◌, ℤ, false, List, [], ◌∷◌, ◌++◌, Option, none, some, ◌==◌, ◌&&◌, arith,
  Outcome, done, fault, Fault, ◌>>=◌,
}
use gobjfs.Poller.Kernel.{Kernel}
use gobjfs.Poller.Events.{
  caller, Ctx, Poller, Callbacks, drop_event, process_event, handle_ctx, ctx_at, erase_ctx,
  magic_word,
}
use gobjfs.Poller.Events.Registered.{Apart, Distinct}
use gobjfs.Poller.Loop.{process_events}

-- No context of the list was added with this word and descriptor.
abbrev pub Unmatched : ℕ → ℕ → List Ctx → Type 0
Unmatched user_data fd [] = Unit {0}
Unmatched user_data fd (c ∷ cs) =
    ((c.user_data == user_data && c.fd == fd) ≡ false) × Unmatched user_data fd cs

ctx_at-Apart : (a : ℕ) (cs : List Ctx) → Apart a cs → ctx_at a cs ≡ none
unfolding ctx_at
ctx_at-Apart a [] h = refl
ctx_at-Apart a (c ∷ cs) h = ground (arith, ctx_at-Apart a cs h.1)

Apart-middle : (a : ℕ) (cs ds : List Ctx) (c : Ctx) → Apart a (cs ++ c ∷ ds) → (c.addr == a) ≡ false
Apart-middle a [] ds c h = h.0
Apart-middle a (d ∷ cs) ds c h = Apart-middle a cs ds c h.1

-- The context that leaves the list is found no more.
ctx_at-erased :
    (cs ds : List Ctx) (c : Ctx)
    → Unmatched c.user_data c.fd cs
    → Distinct (cs ++ c ∷ ds)
    → ctx_at c.addr (erase_ctx c.user_data c.fd (cs ++ c ∷ ds)).1 ≡ none
unfolding ctx_at erase_ctx
ctx_at-erased [] ds c u d = ground (arith, ctx_at-Apart c.addr ds d.0)
ctx_at-erased (b ∷ cs) ds c u d =
    ground (arith, ctx_at-erased cs ds c u.1 d.1, Apart-middle b.addr cs ds c d.0)

module _ (K : Kernel) where
  handle_ctx-caller :
      (callbacks : Callbacks K) (h : ℕ) (c : Ctx) (p : Poller K.Interest)
      → c.magic ≡ magic_word
      → c.handler ≡ caller h
      → handle_ctx K callbacks (some c) p ≡ callbacks h c.fd c.user_data p
  handle_ctx-caller callbacks h c p word handler = ground arith

  -- Where two events are ready at once, and the handler of the first drops the second, the freed context
  -- of the second is read: it is the first in the list with its word and descriptor, and no two contexts
  -- of the list have the same address.
  pub process_events-freed :
      (callbacks : Callbacks K) (h : ℕ) (a b : Ctx) (cs ds : List Ctx) (keys : List ℕ) (code : ℤ)
      (p : Poller K.Interest)
      → p.event_list ≡ (cs ++ b ∷ ds)
      → Distinct (cs ++ b ∷ ds)
      → Unmatched b.user_data b.fd cs
      → ctx_at a.addr (cs ++ b ∷ ds) ≡ some a
      → a.magic ≡ magic_word
      → a.handler ≡ caller h
      → callbacks h a.fd a.user_data p ≡ done (code, (drop_event K b.user_data b.fd p).1)
      → process_events K callbacks (a.addr ∷ b.addr ∷ keys) p ≡ fault Fault.use_after_free
  unfolding process_events process_event drop_event
  process_events-freed callbacks h a b cs ds keys code p e distinct first at word handler dropped =
      let handled =
        ap (λ (o : Option Ctx). handle_ctx K callbacks o p) (ap (ctx_at a.addr) e ∙ at)
        ∙ handle_ctx-caller callbacks h a p word handler
        ∙ dropped in
      let gone =
        ap (λ (xs : List Ctx). ctx_at b.addr (erase_ctx b.user_data b.fd xs).1) e
        ∙ ctx_at-erased cs ds b first distinct in
      ap
        (λ (o : Outcome (ℤ × Poller K.Interest)). o >>= λ r.
          process_event K callbacks b.addr r.1 >>= λ r'. process_events K callbacks keys r'.1)
        handled
      ∙ ap
          (λ (o : Option Ctx). handle_ctx K callbacks o (drop_event K b.user_data b.fd p).1 >>= λ r.
            process_events K callbacks keys r.1)
          gone
