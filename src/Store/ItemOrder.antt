-- ===== src/Store/ItemOrder.antt =====
-- The derived order of core/src/store/item.rs: sort key first, then the bytes of the id.
use Prim.Native.Nat.{compare, Ordering}
use Prim.Native.Nat.Ordering.{lt, eq, gt}
use racnet.Prelude.{◌≡◌, refl, Bool, true, false, Bytes, [], ◌∷◌, arith}
use racnet.Store.{Item}

abbrev pub cmp_bytes : Bytes → Bytes → Ordering
cmp_bytes [] [] = eq
cmp_bytes [] (y ∷ ys) = lt
cmp_bytes (x ∷ xs) [] = gt
cmp_bytes (x ∷ xs) (y ∷ ys) = elim (compare x y) [ lt ↦ lt | eq ↦ cmp_bytes xs ys | gt ↦ gt ]

pub cmp_bytes-eq : (xs ys : Bytes) → cmp_bytes xs ys ≡ eq → xs ≡ ys
cmp_bytes-eq [] [] h = refl
cmp_bytes-eq [] (y ∷ ys) h = cc
cmp_bytes-eq (x ∷ xs) [] h = cc
cmp_bytes-eq (x ∷ xs) (y ∷ ys) h = ground (arith, cmp_bytes-eq xs ys)

pub cmp_bytes_refl : (xs : Bytes) → cmp_bytes xs xs ≡ eq
cmp_bytes_refl [] = refl
cmp_bytes_refl (x ∷ xs) = ground (arith, cmp_bytes_refl xs)

pub cmp_bytes-gt : (xs ys : Bytes) → cmp_bytes xs ys ≡ gt → cmp_bytes ys xs ≡ lt
cmp_bytes-gt [] [] h = cc
cmp_bytes-gt [] (y ∷ ys) h = cc
cmp_bytes-gt (x ∷ xs) [] h = refl
cmp_bytes-gt (x ∷ xs) (y ∷ ys) h = ground (arith, cmp_bytes-gt xs ys)

pub cmp_bytes-lt : (xs ys : Bytes) → cmp_bytes xs ys ≡ lt → cmp_bytes ys xs ≡ gt
cmp_bytes-lt [] [] h = cc
cmp_bytes-lt [] (y ∷ ys) h = refl
cmp_bytes-lt (x ∷ xs) [] h = cc
cmp_bytes-lt (x ∷ xs) (y ∷ ys) h = ground (arith, cmp_bytes-lt xs ys)

pub cmp_bytes_trans :
    (xs ys zs : Bytes) → cmp_bytes xs ys ≡ lt → cmp_bytes ys zs ≡ lt → cmp_bytes xs zs ≡ lt
cmp_bytes_trans xs [] [] h k = cc
cmp_bytes_trans xs (y ∷ ys) [] h k = cc
cmp_bytes_trans [] ys (z ∷ zs) h k = refl
cmp_bytes_trans (x ∷ xs) [] (z ∷ zs) h k = cc
cmp_bytes_trans (x ∷ xs) (y ∷ ys) (z ∷ zs) h k = ground (arith, cmp_bytes_trans xs ys zs)

-- `Ord::cmp` of items.
unfoldable pub cmp : Item → Item → Ordering
cmp a b = elim (compare a.sort_key b.sort_key) [ lt ↦ lt | eq ↦ cmp_bytes a.id b.id | gt ↦ gt ]

abbrev pub is_lt : Ordering → Bool
is_lt lt = true
is_lt eq = false
is_lt gt = false

-- `<` of items.
abbrev pub lt_item : Item → Item → Bool
lt_item a b = is_lt (cmp a b)

pub cmp-eq : (a b : Item) → cmp a b ≡ eq → a ≡ b
unfolding cmp
cmp-eq a b h = ground (arith, cmp_bytes-eq a.id b.id)

pub cmp_refl : (a : Item) → cmp a a ≡ eq
unfolding cmp
cmp_refl a = ground (arith, cmp_bytes_refl a.id)

pub cmp-gt : (a b : Item) → cmp a b ≡ gt → cmp b a ≡ lt
unfolding cmp
cmp-gt a b h = ground (arith, cmp_bytes-gt a.id b.id)

pub cmp-lt : (a b : Item) → cmp a b ≡ lt → cmp b a ≡ gt
unfolding cmp
cmp-lt a b h = ground (arith, cmp_bytes-lt a.id b.id)

pub cmp_trans : (a b c : Item) → cmp a b ≡ lt → cmp b c ≡ lt → cmp a c ≡ lt
unfolding cmp
cmp_trans a b c h k = ground (arith, cmp_bytes_trans a.id b.id c.id)
