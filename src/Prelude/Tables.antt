-- ===== src/Prelude/Tables.antt =====
-- Hash maps as association lists, over keys with an `==` that decides equality. A new key is put at the end,
-- and the order of the entries stands for the unspecified order in which the program iterates.
use Prim.Native.Nat.{ℕ, suc, ◌≤◌, ◌<◌}
use mathlib.Core.Path.{◌≡◌, refl}
use mathlib.Core.Logic.{◌↔◌, inl, inr}
use mathlib.Core.Bool.{Bool, true, false, ◌&&◌}
use mathlib.Core.Option.{Option, none, some}
use mathlib.Core.List.{List, [], ◌∷◌}
use native.Mathlib.Omega.{arith}
use racnet.Prelude.Tests.{◌==◌, ==_iff, if◌then◌else◌, Bool-cases}
use racnet.Prelude.Lists.{length}
use racnet.Prelude.Octets.{Bytes}

pub record Hashable {ℓ} (A : Type ℓ) : Type ℓ where
  pub same : A → A → Bool
  -- `==` decides equality.
  pub same_iff : (x y : A) → (same x y ≡ true) ↔ (x ≡ y)

infix 50 ◌=?◌
abbrev pub ◌=?◌ {ℓ} : {A : Type ℓ} ⦃e : Hashable A⦄ → A → A → Bool
◌=?◌ ⦃e⦄ = e.same

abbrev pub nat_beq : ℕ → ℕ → Bool
nat_beq a b = a == b

instance abbrev pub nat_eq : Hashable ℕ
nat_eq = record { same = nat_beq; same_iff = ==_iff }

abbrev pub bytes_beq : Bytes → Bytes → Bool
bytes_beq [] [] = true
bytes_beq [] (b ∷ bs) = false
bytes_beq (a ∷ as') [] = false
bytes_beq (a ∷ as') (b ∷ bs) = (a == b) && bytes_beq as' bs

pub bytes_beq_iff : (a b : Bytes) → (bytes_beq a b ≡ true) ↔ (a ≡ b)
bytes_beq_iff [] [] = (λ _. refl, λ _. refl)
bytes_beq_iff [] (b ∷ bs) = (λ e. cc, λ e. cc)
bytes_beq_iff (a ∷ as') [] = (λ e. cc, λ e. cc)
bytes_beq_iff (a ∷ as') (b ∷ bs) =
    (λ e. ground (arith, bytes_beq_iff as' bs), λ e. ground (arith, bytes_beq_iff as' bs))

instance abbrev pub bytes_eq : Hashable Bytes
bytes_eq = record { same = bytes_beq; same_iff = bytes_beq_iff }

abbrev pub Table {ℓ κ} : Type ℓ → Type κ → Type (ℓ ⊔ κ)
Table K V = List (K × V)

module _ {ℓ κ} {K : Type ℓ} {V : Type κ} ⦃e : Hashable K⦄ where
  unfoldable pub lookup : K → Table K V → Option V
  lookup k [] = none
  lookup k ((j, v) ∷ t) = if j =? k then some v else lookup k t

  unfoldable pub contains_key : K → Table K V → Bool
  contains_key k [] = false
  contains_key k ((j, v) ∷ t) = if j =? k then true else contains_key k t

  unfoldable pub insert : K → V → Table K V → Table K V
  insert k v [] = (k, v) ∷ []
  insert k v ((j, w) ∷ t) = if j =? k then (k, v) ∷ t else (j, w) ∷ insert k v t

  -- Every entry with the key is dropped; there is one at most.
  unfoldable pub remove : K → Table K V → Table K V
  remove k [] = []
  remove k ((j, w) ∷ t) = let rest = remove k t in if j =? k then rest else (j, w) ∷ rest

  pub lookup-insert :
      (k j : K) (v : V) (t : Table K V)
      → lookup j (insert k v t) ≡ (if k =? j then some v else lookup j t)
  unfolding lookup insert
  lookup-insert k j v [] = refl
  lookup-insert k j v ((i, w) ∷ t) =
      ground (arith, e.same_iff k j, e.same_iff i k, e.same_iff i j, lookup-insert k j v t)

  pub lookup-remove :
      (k j : K) (t : Table K V) → lookup j (remove k t) ≡ (if k =? j then none else lookup j t)
  unfolding lookup remove
  lookup-remove k j [] = ground arith
  lookup-remove k j ((i, w) ∷ t) =
      ground (arith, e.same_iff k j, e.same_iff i k, e.same_iff i j, lookup-remove k j t)

  pub length-insert_new :
      (k : K) (v : V) (t : Table K V) → lookup k t ≡ none → length (insert k v t) ≡ suc (length t)
  unfolding lookup insert
  length-insert_new k v [] h = refl
  length-insert_new k v ((i, w) ∷ t) h = ground (arith, length-insert_new k v t)

  pub length-insert_found :
      (k : K) (v w : V) (t : Table K V) → lookup k t ≡ some w → length (insert k v t) ≡ length t
  unfolding lookup insert
  length-insert_found k v w [] h = cc
  length-insert_found k v w ((i, u) ∷ t) h = ground (arith, length-insert_found k v w t)

  -- Every key has a property.
  abbrev pub AllKeys {μ} : (K → Type μ) → Table K V → Type μ
  AllKeys P [] = Unit {μ}
  AllKeys P ((k, v) ∷ t) = P k × AllKeys P t

  pub AllKeys-insert {μ} :
      (P : K → Type μ) (k : K) (v : V) (t : Table K V)
      → P k
      → AllKeys P t
      → AllKeys P (insert k v t)
  unfolding insert
  AllKeys-insert P k v [] h hs = (h, tt)
  AllKeys-insert P k v ((i, u) ∷ t) h (h', hs) = elim (Bool-cases (i =? k)) [
    | inl same ↦ rw same (h, hs)
    | inr other ↦ rw other (h', AllKeys-insert P k v t h hs)
  ]

  pub AllKeys-remove {μ} :
      (P : K → Type μ) (k : K) (t : Table K V) → AllKeys P t → AllKeys P (remove k t)
  unfolding remove
  AllKeys-remove P k [] hs = tt
  AllKeys-remove P k ((i, u) ∷ t) (h', hs) = elim (Bool-cases (i =? k)) [
    | inl same ↦ rw same (AllKeys-remove P k t hs)
    | inr other ↦ rw other (h', AllKeys-remove P k t hs)
  ]

  pub length-remove : (k : K) (t : Table K V) → length (remove k t) ≤ length t
  unfolding remove
  length-remove k [] = omega arith
  length-remove k ((i, w) ∷ t) = ground (arith, length-remove k t)

  pub length-remove_found :
      (k : K) (v : V) (t : Table K V) → lookup k t ≡ some v → length (remove k t) < length t
  unfolding lookup remove
  length-remove_found k v [] h = cc
  length-remove_found k v ((i, w) ∷ t) h =
      ground (arith, length-remove k t, length-remove_found k v t)

  pub contains_key-lookup : (k : K) (t : Table K V) → contains_key k t ≡ false → lookup k t ≡ none
  unfolding lookup contains_key
  contains_key-lookup k [] h = refl
  contains_key-lookup k ((i, w) ∷ t) h = ground (arith, contains_key-lookup k t)

  pub lookup-contains_key :
      (k : K) (v : V) (t : Table K V) → lookup k t ≡ some v → contains_key k t ≡ true
  unfolding lookup contains_key
  lookup-contains_key k v [] h = cc
  lookup-contains_key k v ((i, w) ∷ t) h = ground (arith, lookup-contains_key k v t)

  -- Every key stands once.
  abbrev pub HasDistinctKeys : Table K V → Type 0
  HasDistinctKeys [] = Unit {0}
  HasDistinctKeys ((k, v) ∷ t) = (contains_key k t ≡ false) × HasDistinctKeys t

  contains_key-remove :
      (k j : K) (t : Table K V) → contains_key j t ≡ false → contains_key j (remove k t) ≡ false
  unfolding contains_key remove
  contains_key-remove k j [] h = refl
  contains_key-remove k j ((i, w) ∷ t) h = ground (arith, contains_key-remove k j t)

  contains_key-insert :
      (k j : K) (v : V) (t : Table K V)
      → (k =? j) ≡ false
      → contains_key j t ≡ false
      → contains_key j (insert k v t) ≡ false
  unfolding contains_key insert
  contains_key-insert k j v [] n h = ground arith
  contains_key-insert k j v ((i, w) ∷ t) n h = ground (arith, contains_key-insert k j v t)

  pub HasDistinctKeys-remove :
      (k : K) (t : Table K V) → HasDistinctKeys t → HasDistinctKeys (remove k t)
  unfolding remove
  HasDistinctKeys-remove k [] h = tt
  HasDistinctKeys-remove k ((i, w) ∷ t) (h, hs) =
      ground (arith, contains_key-remove k i t h, HasDistinctKeys-remove k t hs)

  pub HasDistinctKeys-insert :
      (k : K) (v : V) (t : Table K V) → HasDistinctKeys t → HasDistinctKeys (insert k v t)
  unfolding insert contains_key
  HasDistinctKeys-insert k v [] h = (refl, tt)
  HasDistinctKeys-insert k v ((i, w) ∷ t) (h, hs) = elim (Bool-cases (i =? k)) [
    | inl same ↦ rw same (ground (arith, e.same_iff i k, same, h), hs)
    | inr other ↦ rw other (
      contains_key-insert k i v t (ground (arith, e.same_iff i k, e.same_iff k i)) h,
      HasDistinctKeys-insert k v t hs,
    )
  ]

  -- `retain`
  unfoldable pub retain : (K → V → Bool) → Table K V → Table K V
  retain keep [] = []
  retain keep ((j, v) ∷ t) = let rest = retain keep t in if keep j v then (j, v) ∷ rest else rest

  contains_key-retain :
      (keep : K → V → Bool) (k : K) (t : Table K V)
      → contains_key k t ≡ false
      → contains_key k (retain keep t) ≡ false
  unfolding contains_key retain
  contains_key-retain keep k [] h = refl
  contains_key-retain keep k ((i, w) ∷ t) h = ground (arith, contains_key-retain keep k t)

  pub HasDistinctKeys-retain :
      (keep : K → V → Bool) (t : Table K V) → HasDistinctKeys t → HasDistinctKeys (retain keep t)
  unfolding retain
  HasDistinctKeys-retain keep [] h = tt
  HasDistinctKeys-retain keep ((i, w) ∷ t) (h, hs) =
      ground (arith, contains_key-retain keep i t h, HasDistinctKeys-retain keep t hs)

  abbrev pub kept : (K → V → Bool) → K → Option V → Option V
  kept keep k none = none
  kept keep k (some v) = if keep k v then some v else none

  pub lookup-retain :
      (keep : K → V → Bool) (k : K) (t : Table K V)
      → HasDistinctKeys t
      → lookup k (retain keep t) ≡ kept keep k (lookup k t)
  unfolding lookup retain
  lookup-retain keep k [] h = refl
  lookup-retain keep k ((i, w) ∷ t) (h, hs) = elim (Bool-cases (i =? k)) [
    | inl same ↦
        ground (arith, same, e.same_iff i k, lookup-retain keep k t hs, contains_key-lookup i t h)
    | inr other ↦ ground (arith, other, lookup-retain keep k t hs)
  ]
