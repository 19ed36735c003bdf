-- ===== src/Base/Faults.antt =====
-- A call that returns, or that ends in a fault: a failed `assert`, a read of freed memory, a
-- buffer overrun, a null dereference, or a wait that only another thread can end.
use mathlib.Core.Path.{◌≡◌, refl, subst}
use mathlib.Core.Bool.{Bool, true, false}

pub data Fault : Type 0 where
  assert_failed use_after_free null_dereference buffer_overrun would_block negative_size
        undefined_cast :
      Fault

pub data Outcome {ℓ} (A : Type ℓ) : Type ℓ where
  done : A → Outcome A
  fault : Fault → Outcome A

infixl 5 ◌>>=◌ ◌>>◌
abbrev pub ◌>>=◌ {ℓ κ} : {A : Type ℓ} {B : Type κ} → Outcome A → (A → Outcome B) → Outcome B
done a >>= f = f a
fault e >>= f = fault e

abbrev pub ◌>>◌ {ℓ} : {B : Type ℓ} → Outcome (Unit {0}) → Outcome B → Outcome B
m >> k = m >>= λ _. k

-- `assert(b)`.
abbrev pub assert : Bool → Outcome (Unit {0})
assert true = done tt
assert false = fault Fault.assert_failed

abbrev pub demand : Bool → Fault → Outcome (Unit {0})
demand true e = done tt
demand false e = fault e

-- The call returns, and `P` holds of what it returns.
abbrev pub Returns {ℓ} : {A : Type ℓ} → Outcome A → (A → Type 0) → Type 0
Returns (done a) P = P a
Returns (fault e) P = ⊥

pub Returns->>= {ℓ κ} :
    {A : Type ℓ} {B : Type κ} (m : Outcome A) (f : A → Outcome B) (P : A → Type 0) (Q : B → Type 0)
    → Returns m P
    → ((a : A) → P a → Returns (f a) Q)
    → Returns (m >>= f) Q
Returns->>= (done a) f P Q h k = k a h
Returns->>= (fault e) f P Q h k = absurd h

pub Returns-map {ℓ} :
    {A : Type ℓ} (m : Outcome A) (P Q : A → Type 0)
    → Returns m P
    → ((a : A) → P a → Q a)
    → Returns m Q
Returns-map (done a) P Q h k = k a h
Returns-map (fault e) P Q h k = absurd h

pub Returns-done {ℓ} :
    {A : Type ℓ} (m : Outcome A) (P : A → Type 0) → Returns m P → (a : A) × (m ≡ done a) × P a
Returns-done (done a) P h = (a, refl, h)
Returns-done (fault e) P h = absurd h

pub >>=-eq-done {ℓ κ} :
    {A : Type ℓ} {B : Type κ} (m : Outcome A) (f : A → Outcome B) {b : B}
    → (m >>= f) ≡ done b
    → (a : A) × (m ≡ done a) × (f a ≡ done b)
>>=-eq-done (done a) f h = (a, refl, h)
>>=-eq-done (fault e) f h = cc

-- If the call returns, `P` holds of what it returns. For a step that a thread takes only when it does
-- not have to wait.
abbrev pub Ends {ℓ} : {A : Type ℓ} → Outcome A → (A → Type 0) → Type 0
Ends (done a) P = P a
Ends (fault e) P = Unit

pub Returns-Ends {ℓ} : {A : Type ℓ} (m : Outcome A) (P : A → Type 0) → Returns m P → Ends m P
Returns-Ends (done a) P h = h
Returns-Ends (fault e) P h = tt

pub Ends->>= {ℓ κ} :
    {A : Type ℓ} {B : Type κ} (m : Outcome A) (f : A → Outcome B) (P : A → Type 0) (Q : B → Type 0)
    → Ends m P
    → ((a : A) → P a → Ends (f a) Q)
    → Ends (m >>= f) Q
Ends->>= (done a) f P Q h k = k a h
Ends->>= (fault e) f P Q h k = tt

pub Ends-done {ℓ} :
    {A : Type ℓ} (m : Outcome A) (P : A → Type 0) {a : A} → Ends m P → m ≡ done a → P a
Ends-done m P h e = subst (λ o. Ends o P) e h

pub >>=-cong {ℓ κ} :
    {A : Type ℓ} {B : Type κ} (m : Outcome A) (f g : A → Outcome B)
    → ((a : A) → f a ≡ g a)
    → (m >>= f) ≡ (m >>= g)
>>=-cong (done a) f g h = h a
>>=-cong (fault e) f g h = refl

-- Two ways to go on agree where they agree on what the call can return.
pub Returns-cong {ℓ κ} :
    {A : Type ℓ} {B : Type κ} (m : Outcome A) (P : A → Type 0) (f g : A → Outcome B)
    → Returns m P
    → ((a : A) → P a → f a ≡ g a)
    → (m >>= f) ≡ (m >>= g)
Returns-cong (done a) P f g h k = k a h
Returns-cong (fault e) P f g h k = absurd h

pub >>=_assoc {ℓ κ ν} :
    {A : Type ℓ} {B : Type κ} {C : Type ν} (m : Outcome A) (f : A → Outcome B) (g : B → Outcome C)
    → ((m >>= f) >>= g) ≡ (m >>= λ a. f a >>= g)
>>=_assoc (done a) f g = refl
>>=_assoc (fault e) f g = refl
