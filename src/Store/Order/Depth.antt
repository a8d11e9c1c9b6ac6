-- ===== src/Store/Order/Depth.antt =====
-- How deep a tree of core/src/store/order.rs is: the bound on the loops and on the recursion over it.
use racnet.Prelude.{
  ◌<◌, refl, ap, List, [], ◌∷◌, Option, some, none, length, All, Bool, true, false, if◌then◌else◌,
  ℕ, suc, ◌+◌, ◌*◌, ◌^◌, ◌≤◌, ◌≡◌, max, arith, leb, leb→le, leb→gt, Bool-cases, inl, inr,
}
use native.Mathlib.Nat.{mul-le-mul_left, mul_left_comm, mul_assoc, pow-succ'}
use racnet.Store.{Item}
use racnet.Sync.IdSum.Sums.{IsEntryId}
use racnet.Store.Order.Insertion.{insert}
use racnet.Store.Order.Inserted.{insert-IsIndex}
use racnet.Store.Order.Sorted.{is_new, length-insert_sorted}
use racnet.Store.Order.{Tree}
use racnet.Store.Order.Tree.{nil, node}
use racnet.Store.Order.Shape.{items, size, size-items, IsBalanced, IsIndex}

abbrev pub depth : Tree → ℕ
depth nil = 0
depth (node item left right c s) = 1 + max (depth left) (depth right)

step : (p q v w : ℕ) → p ≤ q * v → 4 * v ≤ 3 * w → 4 * p ≤ 3 * q * w
step p q v w h k =
    let l : q * (4 * v) ≤ q * (3 * w) = mul-le-mul_left q k in
    omega (arith, l, h, mul_left_comm q 4 v, mul_left_comm q 3 w, mul_assoc 3 q w)

power : (b n : ℕ) → b ^ (1 + n) ≡ b * b ^ n
power b n = let e : 1 + n ≡ suc n = omega arith in rw e (pow-succ' b n)

deeper : (d v w : ℕ) → 4 ^ d ≤ 3 ^ d * v → 4 * v ≤ 3 * w → 4 ^ (1 + d) ≤ 3 ^ (1 + d) * w
deeper d v w h k = rw (power 4 d, power 3 d) (step (4 ^ d) (3 ^ d) v w h k)

-- A balanced tree of `n` items is at most as deep as the logarithm of `n + 1` to the base 4/3.
depth-IsBalanced : (t : Tree) → IsBalanced t → 4 ^ depth t ≤ 3 ^ depth t * (size t + 1)
depth-IsBalanced nil h = omega arith
depth-IsBalanced (node item left right c s) (w, hl, hr) =
    elim (Bool-cases (leb (depth left) (depth right))) [
      | inl y ↦
          let e : max (depth left) (depth right) ≡ depth right = omega (arith, leb→le _ _ y) in
          rw e (
            deeper (depth right) (size right + 1) (1 + size left + size right + 1)
              (depth-IsBalanced right hr) (omega arith))
      | inr y ↦
          let e : max (depth left) (depth right) ≡ depth left = omega (arith, leb→gt _ _ y) in
          rw e (
            deeper (depth left) (size left + 1) (1 + size left + size right + 1)
              (depth-IsBalanced left hl) (omega arith))
    ]

-- Insertions one after the other.
abbrev pub insert_all : List Item → Tree → Option Tree
insert_all [] t = some t
insert_all (x ∷ xs) t = elim (insert t x) [ none ↦ none | some (t', new) ↦ insert_all xs t' ]

one_more : (b : Bool) (n : ℕ) → (if b then 1 else 0) + n ≤ 1 + n
one_more true n = omega arith
one_more false n = omega arith

grown_by :
    (t : Tree) (xs : List Item)
    → IsIndex t
    → All (λ x. IsEntryId x.id) xs
    → length xs + size t < 2 ^ 32
    → (t' : Tree) × (insert_all xs t ≡ some t') × IsIndex t' × (size t' ≤ length xs + size t)
grown_by t [] h ids k = (t, refl, h, omega arith)
grown_by t (x ∷ xs) h (i, ids) k =
    let (t', e, same, h') = insert-IsIndex t x h i (omega (arith, k)) in
    let small : size t' ≤ 1 + size t = omega (
      arith,
      size-items t,
      size-items t',
      ap length same,
      length-insert_sorted x (items t) h.0,
      one_more (is_new x (items t)) (length (items t)),
    ) in
    let (t'', e', h'', m) = grown_by t' xs h' ids (omega (arith, k, small)) in
    (t'', rw (e, insert_all) e', h'', omega (arith, m, small))

-- Fewer than 2^32 insertions of items with ids of 32 bytes into the empty tree, in whatever order, do not
-- panic, and the tree that they make is at most as deep as the logarithm of their number plus one to the
-- base 4/3.
pub insert_all-depth :
    (xs : List Item)
    → All (λ x. IsEntryId x.id) xs
    → length xs < 2 ^ 32
    → (t : Tree) × (insert_all xs nil ≡ some t) × (4 ^ depth t ≤ 3 ^ depth t * (length xs + 1))
insert_all-depth xs ids k =
    let (t, e, (o, s, b), m) = grown_by nil xs (tt, tt, tt) ids (omega (arith, k)) in
    let wider : 3 ^ depth t * (size t + 1) ≤ 3 ^ depth t * (length xs + 1) =
      mul-le-mul_left (3 ^ depth t) (omega (arith, m)) in
    (t, e, omega (arith, depth-IsBalanced t b, wider))
