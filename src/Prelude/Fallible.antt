-- ===== src/Prelude/Fallible.antt =====
-- Rust's `Result`, with a third case for a panic: a failed `expect`, an index or a slice out of
-- range.
use mathlib.Core.Logic.{◌≢◌, ◌⊎◌, inl, inr}
use mathlib.Core.Path.{◌≡◌, refl}
use mathlib.Core.Bool.{Bool, true, false}
use racnet.Prelude.Tests.{if◌then◌else◌}
use mathlib.Core.Option.{Option, none, some}

pub data Outcome {ℓ κ} (E : Type ℓ) (A : Type κ) : Type (ℓ ⊔ κ) where
  ok : A → Outcome E A
  err : E → Outcome E A
  panic : Outcome E A

infixl 5 ◌>>=◌ ◌>>◌
abbrev pub ◌>>=◌ {ε ℓ κ} :
    {E : Type ε} {A : Type ℓ} {B : Type κ} → Outcome E A → (A → Outcome E B) → Outcome E B
ok a >>= f = f a
err e >>= f = err e
panic >>= f = panic

abbrev pub ◌>>◌ {ε ℓ} : {E : Type ε} {B : Type ℓ} → Outcome E (Unit {0}) → Outcome E B → Outcome E B
m >> k = m >>= λ _. k

-- `ok_or`: an `Option` as a result.
abbrev pub ok_or {ε ℓ} : {E : Type ε} {A : Type ℓ} → Option A → E → Outcome E A
ok_or none e = err e
ok_or (some a) e = ok a

-- `expect`, and what Rust does out of range.
abbrev pub expect {ε ℓ} : {E : Type ε} {A : Type ℓ} → Option A → Outcome E A
expect none = panic
expect (some a) = ok a

pub Outcome-cases {ε ℓ} :
    {E : Type ε} {A : Type ℓ} (r : Outcome E A)
    → ((a : A) × (r ≡ ok a)) ⊎ ((e : E) × (r ≡ err e)) ⊎ (r ≡ panic)
Outcome-cases (ok a) = inl (a, refl)
Outcome-cases (err e) = inr (inl (e, refl))
Outcome-cases panic = inr (inr refl)

pub ok-injective {ε ℓ} :
    {E : Type ε} {A : Type ℓ} {a b : A} → ◌≡◌ {A = Outcome E A} (ok a) (ok b) → a ≡ b
ok-injective e = cc

pub ok-ne-err {ε ℓ} :
    {E : Type ε} {A : Type ℓ} {a : A} {x : E} → ◌≢◌ {A = Outcome E A} (ok a) (err x)
ok-ne-err e = cc

-- No panic, and where there is a value it has a property.
abbrev pub Yields {ε ℓ} : {E : Type ε} {A : Type ℓ} → (A → Type 0) → Outcome E A → Type 0
Yields P (ok a) = P a
Yields P (err e) = Unit {0}
Yields P panic = ⊥

pub bind-Yields {ε ℓ κ} :
    {E : Type ε} {A : Type ℓ} {B : Type κ} (P : A → Type 0) (Q : B → Type 0) (m : Outcome E A)
    (f : A → Outcome E B)
    → Yields P m
    → ((a : A) → P a → Yields Q (f a))
    → Yields Q (m >>= f)
bind-Yields P Q (ok a) f h k = k a h
bind-Yields P Q (err e) f h k = tt
bind-Yields P Q panic f h k = absurd h

pub Yields-ok {ε ℓ} :
    {E : Type ε} {A : Type ℓ} (P : A → Type 0) (m : Outcome E A) (a : A)
    → m ≡ ok a
    → P a
    → Yields P m
Yields-ok P m a e h = rw (e, Yields) h

pub Yields-if {ε ℓ} :
    {E : Type ε} {A : Type ℓ} (P : A → Type 0) (b : Bool) (m n : Outcome E A)
    → (b ≡ true → Yields P m)
    → (b ≡ false → Yields P n)
    → Yields P (if b then m else n)
Yields-if P true m n h k = h refl
Yields-if P false m n h k = k refl

pub Yields-weaken {ε ℓ} :
    {E : Type ε} {A : Type ℓ} (P Q : A → Type 0) (m : Outcome E A)
    → Yields P m
    → ((a : A) → P a → Q a)
    → Yields Q m
Yields-weaken P Q (ok a) h k = k a h
Yields-weaken P Q (err e) h k = tt
Yields-weaken P Q panic h k = h

pub Yields-refine {ε ℓ} :
    {E : Type ε} {A : Type ℓ} (P Q : A → Type 0) (m : Outcome E A)
    → Yields P m
    → ((a : A) → m ≡ ok a → Q a)
    → Yields Q m
Yields-refine P Q (ok a) h k = k a refl
Yields-refine P Q (err e) h k = tt
Yields-refine P Q panic h k = h

pub expect-Yields {ε ℓ} :
    (E : Type ε) {A : Type ℓ} (o : Option A) → o ≢ none → Yields {E = E} (λ _. Unit {0}) (expect o)
expect-Yields E none h = h refl
expect-Yields E (some a) h = tt

pub Yields-not_panic {ε ℓ} :
    {E : Type ε} {A : Type ℓ} (P : A → Type 0) (m : Outcome E A) → Yields P m → m ≢ panic
Yields-not_panic P (ok a) h e = cc
Yields-not_panic P (err x) h e = cc
Yields-not_panic P panic h e = h

-- A sequence that succeeds succeeds in both parts.
pub bind_ok {ε ℓ κ} :
    {E : Type ε} {A : Type ℓ} {B : Type κ} (m : Outcome E A) (f : A → Outcome E B) (b : B)
    → (m >>= f) ≡ ok b
    → (a : A) × (m ≡ ok a) × (f a ≡ ok b)
bind_ok (ok a) f b e = (a, refl, e)
bind_ok (err x) f b e = absurd cc
bind_ok panic f b e = absurd cc
