-- ===== src/Prelude/Method.antt =====
-- Methods that change an object through `&mut self` and may fail: what was written before the failure
-- stays written, so the object comes back beside the outcome. The `?` operator is `◌>>=◌`.
use mathlib.Core.Option.{Option, none, some}
use racnet.Prelude.Fallible.{Outcome, ok, err, panic}

abbrev pub Method : Type 0 → Type 0 → Type 0 → Type 0
Method S E A = S → Outcome E A × S

module _ {S E : Type 0} where
  abbrev pub resume : {A B : Type 0} → Outcome E A → S → (A → Method S E B) → Outcome E B × S
  resume (ok a) s f = f a s
  resume (err e) s f = (err e, s)
  resume panic s f = (panic, s)

  infixl 5 ◌>>=◌ ◌>>◌
  abbrev pub ◌>>=◌ : {A B : Type 0} → Method S E A → (A → Method S E B) → Method S E B
  ◌>>=◌ m f s = let (r, s') = m s in resume r s' f

  abbrev pub ◌>>◌ : {A B : Type 0} → Method S E A → Method S E B → Method S E B
  m >> k = m >>= λ _. k

  abbrev pub pure : {A : Type 0} → A → Method S E A
  pure a s = (ok a, s)

  abbrev pub fail : {A : Type 0} → E → Method S E A
  fail e s = (err e, s)

  abbrev pub gets : {A : Type 0} → (S → A) → Method S E A
  gets f s = (ok (f s), s)

  abbrev pub modify : (S → S) → Method S E (Unit {0})
  modify f s = (ok tt, f s)

  -- `ok_or(e)?`
  abbrev pub get_or_fail : {A : Type 0} → E → Option A → Method S E A
  get_or_fail e none = fail e
  get_or_fail e (some a) = pure a

  -- `unreachable!()`
  abbrev pub unreachable : {A : Type 0} → Method S E A
  unreachable s = (panic, s)
