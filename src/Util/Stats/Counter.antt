-- ===== src/Util/Stats/Counter.antt =====
-- The extremes and the count that a StatsCounter keeps.
use gobjfs.Base.{
  ◌+◌, ◌^◌, ◌<◌, ℤ, pos, negsuc, ltb_ℤ, ◌≤ℤ◌, ◌≡◌, refl, ◌⊎◌, inl, inr, List, [], ◌∷◌, length,
  arith, u32, done, Returns, Returns->>=, Returns-map, if◌then◌else◌, lt→ltb, ◌∙◌, ap,
}
use gobjfs.Util.Stats.{FloatOps, StatsCounter, new_counter, update_stats, feed, merge}

≤ℤ_refl : (a : ℤ) → a ≤ℤ a
≤ℤ_refl (pos n) = ground arith
≤ℤ_refl (negsuc n) = ground arith

≤ℤ_trans : (a b c : ℤ) → a ≤ℤ b → b ≤ℤ c → a ≤ℤ c
≤ℤ_trans a b c h k = ground arith

-- Every sample lies between the bounds.
abbrev pub Between : ℤ → ℤ → List ℤ → Type 0
Between lo hi [] = Unit {0}
Between lo hi (x ∷ xs) = (lo ≤ℤ x) × (x ≤ℤ hi) × Between lo hi xs

-- One of the samples is `x`.
abbrev pub Occurs : ℤ → List ℤ → Type 0
Occurs x [] = ⊥
Occurs x (y ∷ ys) = (x ≡ y) ⊎ Occurs x ys

Between-mono :
    (lo hi lo' hi' : ℤ) (xs : List ℤ)
    → lo' ≤ℤ lo
    → hi ≤ℤ hi'
    → Between lo hi xs
    → Between lo' hi' xs
Between-mono lo hi lo' hi' [] h k b = tt
Between-mono lo hi lo' hi' (x ∷ xs) h k b =
    (≤ℤ_trans lo' lo x h b.0, ≤ℤ_trans x hi hi' b.1 k, Between-mono lo hi lo' hi' xs h k b.2)

min-le_old : (x m : ℤ) → (if ltb_ℤ x m then x else m) ≤ℤ m
min-le_old x m = ground (arith, ≤ℤ_refl m)

min-le_new : (x m : ℤ) → (if ltb_ℤ x m then x else m) ≤ℤ x
min-le_new x m = ground (arith, ≤ℤ_refl x)

max-ge_old : (x m : ℤ) → m ≤ℤ (if ltb_ℤ m x then x else m)
max-ge_old x m = ground (arith, ≤ℤ_refl m)

max-ge_new : (x m : ℤ) → x ≤ℤ (if ltb_ℤ m x then x else m)
max-ge_new x m = ground (arith, ≤ℤ_refl x)

min_seen : (x m : ℤ) → let k = if ltb_ℤ x m then x else m in (k ≡ m) ⊎ ((k ≡ x) ⊎ ⊥)
min_seen x m = ground arith

max_seen : (x m : ℤ) → let k = if ltb_ℤ m x then x else m in (k ≡ m) ⊎ ((k ≡ x) ⊎ ⊥)
max_seen x m = ground arith

seen_cons :
    (a b c x : ℤ) (xs : List ℤ)
    → (a ≡ b) ⊎ Occurs a xs
    → (b ≡ c) ⊎ ((b ≡ x) ⊎ ⊥)
    → (a ≡ c) ⊎ ((a ≡ x) ⊎ Occurs a xs)
seen_cons a b c x xs (inr o) k = inr (inr o)
seen_cons a b c x xs (inl e) (inl f) = inl (e ∙ f)
seen_cons a b c x xs (inl e) (inr (inl f)) = inr (inl (e ∙ f))
seen_cons a b c x xs (inl e) (inr (inr z)) = absurd z

≤ℤ_antisym : (a b : ℤ) → a ≤ℤ b → b ≤ℤ a → a ≡ b
≤ℤ_antisym a b h k = ground arith

Between-Occurs :
    (lo hi : ℤ) (xs : List ℤ) (x : ℤ) → Occurs x xs → Between lo hi xs → (lo ≤ℤ x) × (x ≤ℤ hi)
Between-Occurs lo hi [] x o b = absurd o
Between-Occurs lo hi (y ∷ ys) x (inl e) b = rw e (b.0, b.1)
Between-Occurs lo hi (y ∷ ys) x (inr o) b = Between-Occurs lo hi ys x o b.2

-- The lower bound `c` of some samples, and that of further samples `ys`, which began at `top`,
-- together make the lower bound `e` of all.
lower_joined :
    (c d e top hi hi' : ℤ) (ys : List ℤ)
    → c ≤ℤ top
    → e ≤ℤ c
    → Between d hi ys
    → Between e hi' ys
    → (d ≡ top) ⊎ Occurs d ys
    → (e ≡ c) ⊎ Occurs e ys
    → d ≤ℤ top
    → (if ltb_ℤ c d then c else d) ≡ e
lower_joined c d e top hi hi' ys ct ec bd be sd se dt = elim se [
  | inl ec' ↦ elim sd [
    | inl dt' ↦ ground (arith, ≤ℤ_trans e c top)
    | inr o ↦ ground (arith, Between-Occurs e hi' ys d o be)
  ]
  | inr p ↦ elim sd [
    | inl dt' ↦
        ground
          (arith, Between-Occurs d hi ys e p bd, ≤ℤ_trans e c top, ≤ℤ_antisym e d, ≤ℤ_antisym e c)
    | inr o ↦ ground (arith, Between-Occurs d hi ys e p bd, Between-Occurs e hi' ys d o be)
  ]
]

upper_joined :
    (c d e bottom lo lo' : ℤ) (ys : List ℤ)
    → bottom ≤ℤ c
    → c ≤ℤ e
    → Between lo d ys
    → Between lo' e ys
    → (d ≡ bottom) ⊎ Occurs d ys
    → (e ≡ c) ⊎ Occurs e ys
    → bottom ≤ℤ d
    → (if ltb_ℤ d c then c else d) ≡ e
upper_joined c d e bottom lo lo' ys bc ce bd be sd se bd' = elim se [
  | inl ec' ↦ elim sd [
    | inl dt' ↦ ground (arith, ≤ℤ_trans bottom c e)
    | inr o ↦ ground (arith, Between-Occurs lo' e ys d o be)
  ]
  | inr p ↦ elim sd [
    | inl dt' ↦ ground (arith, Between-Occurs lo d ys e p bd, ≤ℤ_trans bottom c e)
    | inr o ↦ ground (arith, Between-Occurs lo d ys e p bd, Between-Occurs lo' e ys d o be)
  ]
]

module _ (ops : FloatOps) where
  -- What a counter that began as `c` holds after the samples `xs`.
  pub record Holds (c : StatsCounter ops) (xs : List ℤ) (d : StatsCounter ops) : Type 0 where
    pub counted : d.num_samples ≡ c.num_samples + length xs
    pub lower : d.min ≤ℤ c.min
    pub upper : c.max ≤ℤ d.max
    pub within : Between d.min d.max xs
    pub min_seen : (d.min ≡ c.min) ⊎ Occurs d.min xs
    pub max_seen : (d.max ≡ c.max) ⊎ Occurs d.max xs

  update_stats-Holds :
      (c : StatsCounter ops) (x : ℤ)
      → c.num_samples + 1 < 2 ^ 32
      → Returns (update_stats ops c x) (Holds c (x ∷ []))
  unfolding update_stats
  update_stats-Holds c x h = rw (lt→ltb 0 (u32 (c.num_samples + 1)) (omega arith)) (record {
    counted = omega arith;
    lower = min-le_old x c.min;
    upper = max-ge_old x c.max;
    within = (min-le_new x c.min, max-ge_new x c.max, tt);
    min_seen = min_seen x c.min;
    max_seen = max_seen x c.max;
  })

  Holds-cons :
      (c d e : StatsCounter ops) (x : ℤ) (xs : List ℤ)
      → Holds c (x ∷ []) d
      → Holds d xs e
      → Holds c (x ∷ xs) e
  Holds-cons c d e x xs f g = record {
    counted = omega (arith, f.counted, g.counted);
    lower = ≤ℤ_trans e.min d.min c.min g.lower f.lower;
    upper = ≤ℤ_trans c.max d.max e.max f.upper g.upper;
    within = (
      ≤ℤ_trans e.min d.min x g.lower f.within.0,
      ≤ℤ_trans x d.max e.max f.within.1 g.upper,
      g.within,
    );
    min_seen = seen_cons e.min d.min c.min x xs g.min_seen f.min_seen;
    max_seen = seen_cons e.max d.max c.max x xs g.max_seen f.max_seen;
  }

  -- A counter that takes fewer than 2^32 samples in all never fails its assertion. Afterwards its
  -- count has grown by the number of samples, every sample and the old bounds lie between `min` and
  -- `max`, and each of the two is the old bound or one of the samples.
  pub feed-Holds :
      (c : StatsCounter ops) (xs : List ℤ)
      → c.num_samples + length xs < 2 ^ 32
      → Returns (feed ops c xs) (Holds c xs)
  unfolding feed
  feed-Holds c [] h = record {
    counted = omega arith;
    lower = ≤ℤ_refl c.min;
    upper = ≤ℤ_refl c.max;
    within = tt;
    min_seen = inl refl;
    max_seen = inl refl;
  }
  feed-Holds c (x ∷ xs) h =
      Returns->>= (update_stats ops c x) (λ d. feed ops d xs) (Holds c (x ∷ [])) (Holds c (x ∷ xs))
        (update_stats-Holds c x (omega arith))
        λ d f.
          Returns-map (feed ops d xs) (Holds d xs) (Holds c (x ∷ xs))
            (feed-Holds d xs (omega (arith, f.counted))) λ e g. Holds-cons c d e x xs f g

  -- Two counters that were fed from new, and one fed with both their samples.
  merge-Holds :
      (z c d e : StatsCounter ops) (xs ys : List ℤ)
      → z ≡ new_counter ops
      → length xs + length ys < 2 ^ 32
      → Holds z xs c
      → Holds z ys d
      → Holds c ys e
      → let m = merge ops c d in (m.num_samples ≡ e.num_samples) × (m.min ≡ e.min) × (m.max ≡ e.max)
  unfolding merge new_counter
  merge-Holds z c d e xs ys zn h f g k = (
    omega (arith, f.counted, g.counted, k.counted, ap (λ (t : StatsCounter ops). t.num_samples) zn),
    lower_joined c.min d.min e.min z.min d.max e.max ys f.lower k.lower g.within k.within g.min_seen
        k.min_seen g.lower,
    upper_joined c.max d.max e.max z.max d.min e.min ys f.upper k.upper g.within k.within g.max_seen
        k.max_seen g.upper,
  )

  new_counter-empty : (new_counter ops).num_samples ≡ 0
  unfolding new_counter
  new_counter-empty = refl

  -- To merge the counters of two threads, which took fewer than 2^32 samples together, is to count
  -- the samples of both in one counter, as far as the number of samples and the extremes go.
  pub merge-feed :
      (c d e : StatsCounter ops) (xs ys : List ℤ)
      → length xs + length ys < 2 ^ 32
      → feed ops (new_counter ops) xs ≡ done c
      → feed ops (new_counter ops) ys ≡ done d
      → feed ops c ys ≡ done e
      → let m = merge ops c d in (m.num_samples ≡ e.num_samples) × (m.min ≡ e.min) × (m.max ≡ e.max)
  merge-feed c d e xs ys h p q r =
      let z = new_counter ops in
      let f : Holds z xs c = rw p at (feed-Holds z xs (omega (arith, new_counter-empty))) in
      let g : Holds z ys d = rw q at (feed-Holds z ys (omega (arith, new_counter-empty))) in
      let k : Holds c ys e =
        rw r at (feed-Holds c ys (omega (arith, f.counted, new_counter-empty))) in
      merge-Holds z c d e xs ys refl h f g k
