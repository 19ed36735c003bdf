-- ===== src/Server/Lifetime.antt =====
-- The references to a client's data, and what the server's steps do to them.
pub mod Moves
pub mod Runs
use gobjfs.Base.{
  ℕ, zero, suc, ◌+◌, ◌-◌, ◌<◌, ◌≡◌, refl, Bool, true, false, List, [], ◌∷◌, ◌++◌, length, All,
  All-append, length-append, arith, none, some, Option, Option-cases, ◌==◌, ==_iff, if◌then◌else◌,
  Bool-cases, inl, inr, ap, ◌∙◌, sym, subst, ltb, ◌&&◌, done, Returns, Returns->>=, Outcome, ◌>>=◌,
  ◌>>◌, lt→ltb,
}
use gobjfs.Server.{Request, Client, Server, Net, set_client, owned}
use gobjfs.Server.Steps.{free_request, deallocate_request, client_at, is_read_rsp}

-- The requests of a client that the server has, those in hand included, and not the answered ones.
abbrev pub load : List Request → ℕ → Server → ℕ
load held c s = owned c held + owned c s.inflight + owned c s.reading + owned c s.finished

-- The reference count is the number of requests; data of a client that is gone is kept only while
-- there are some; and where there is no data there are none.
abbrev pub Accounted : List Request → ℕ → Option Client → Server → Type 0
Accounted held c none s = load held c s ≡ 0
Accounted held c (some d) s =
    (d.refcnt ≡ load held c s + length d.done_reqs)
    × (d.disconnected ≡ true → 0 < d.refcnt)
    × All (λ r. r.client ≡ c) d.done_reqs

abbrev pub IsAccounted : List Request → Server → Type 0
IsAccounted held s = (c : ℕ) → Accounted held c (s.clients c) s

pub owned-append : (c : ℕ) (xs ys : List Request) → owned c (xs ++ ys) ≡ owned c xs + owned c ys
owned-append c [] ys = omega arith
owned-append c (x ∷ xs) ys = omega (arith, owned-append c xs ys)

same-Accounted :
    (held held' : List Request) (c : ℕ) (o : Option Client) (s s' : Server)
    → load held' c s' ≡ load held c s
    → Accounted held c o s
    → Accounted held' c o s'
same-Accounted held held' c none s s' e a = e ∙ a
same-Accounted held held' c (some d) s s' e a =
    (a.0 ∙ ap (λ (n : ℕ). n + length d.done_reqs) (sym e), a.1, a.2)

-- Where no client changes, its load decides.
pub moved-IsAccounted :
    (held held' : List Request) (s s' : Server)
    → s'.clients ≡ s.clients
    → ((c : ℕ) → load held' c s' ≡ load held c s)
    → IsAccounted held s
    → IsAccounted held' s'
moved-IsAccounted held held' s s' e same v c =
    subst (λ (o : Option Client). Accounted held' c o s')
      (sym (ap (λ (f : ℕ → Option Client). f c) e))
      (same-Accounted held held' c (s.clients c) s s' (same c) (v c))

-- The data of one client is changed.
pub set-IsAccounted :
    (held held' : List Request) (c : ℕ) (o : Option Client) (s s' : Server)
    → s'.clients ≡ set_client c o s.clients
    → Accounted held' c o s'
    → ((x : ℕ) → (x == c) ≡ false → load held' x s' ≡ load held x s)
    → IsAccounted held s
    → IsAccounted held' s'
set-IsAccounted held held' c o s s' e here same v x =
    let at = ap (λ (f : ℕ → Option Client). f x) e in
    elim (Bool-cases (x == c)) [
      | inl hit ↦
          let k : x ≡ c = ground arith in
          subst (λ (q : Option Client). Accounted held' x q s') (sym (at ∙ rw hit refl))
            (subst (λ y. Accounted held' y o s') (sym k) here)
      | inr miss ↦
          subst (λ (q : Option Client). Accounted held' x q s') (sym (at ∙ rw miss refl))
            (same-Accounted held held' x (s.clients x) s s' (same x miss) (v x))
    ]

self-owned : (req : Request) → owned req.client (req ∷ []) ≡ 1
self-owned req = ground arith

other-owned : (req : Request) (x : ℕ) → (x == req.client) ≡ false → owned x (req ∷ []) ≡ 0
other-owned req x miss = ground arith

gone-absurd :
    (req : Request) (s : Server) {A : Type 0}
    → IsAccounted (req ∷ []) s
    → s.clients req.client ≡ none
    → A
gone-absurd req s v gone =
    let a =
      subst (λ (o : Option Client). Accounted (req ∷ []) req.client o s) gone (v req.client) in
    absurd (omega (arith, a, self-owned req))

last_reference :
    (d : Client)
    → (d.disconnected && d.refcnt == 1) ≡ true
    → (d.disconnected ≡ true) × (d.refcnt ≡ 1)
last_reference d h = ground arith

more_references :
    (d : Client)
    → (d.disconnected && d.refcnt == 1) ≡ false
    → 0 < d.refcnt
    → d.disconnected ≡ true
    → 0 < d.refcnt - 1
more_references d h p g = ground arith

-- A reference to a client's data that is in hand is given back.
pub free_request-IsAccounted :
    (req : Request) (s : Server)
    → IsAccounted (req ∷ []) s
    → Returns (free_request req s) (IsAccounted [])
unfolding free_request
free_request-IsAccounted req s v = elim (Option-cases (s.clients req.client)) [
  | inl gone ↦ gone-absurd req s v gone
  | inr (d, here) ↦
      let a =
        subst (λ (o : Option Client). Accounted (req ∷ []) req.client o s) here (v req.client) in
      let positive : 0 < d.refcnt = omega (arith, a.0, self-owned req) in
      let others = λ (x : ℕ) (miss : (x == req.client) ≡ false). other-owned req x miss in
      rw (here, free_request, client_at, lt→ltb 0 d.refcnt positive)
        (elim (Bool-cases (d.disconnected && d.refcnt == 1)) [
          | inl last ↦ rw last (
              set-IsAccounted (req ∷ []) [] req.client none s _ refl
                (omega (arith, a.0, self-owned req, (last_reference d last).1))
                (λ x miss. omega (arith, others x miss)) v)
          | inr more ↦ rw more (
              set-IsAccounted (req ∷ []) [] req.client (some (record d { refcnt = d.refcnt - 1 })) s
                _ refl (omega (arith, a.0, self-owned req), more_references d more positive, a.2)
                (λ x miss. omega (arith, others x miss)) v)
        ])
]

-- Giving back the buffer changes no account.
pub deallocate_request-IsAccounted :
    (req : Request) (s : Server)
    → IsAccounted (req ∷ []) s
    → Returns (deallocate_request req s) (IsAccounted [])
unfolding deallocate_request
deallocate_request-IsAccounted req s v = elim (Bool-cases (is_read_rsp req.op && req.has_data)) [
  | inl back ↦ rw back (
      free_request-IsAccounted req (record s { released = req.id ∷ s.released })
        (moved-IsAccounted (req ∷ []) (req ∷ []) s _ refl (λ c. refl) v))
  | inr none_there ↦ rw none_there (free_request-IsAccounted req s v)
]
