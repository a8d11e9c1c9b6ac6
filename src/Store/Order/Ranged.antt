-- ===== src/Store/Order/Ranged.antt =====
-- What a loop over `iter_range` of core/src/store/order.rs sees, in terms of the items in order.
use racnet.Prelude.{
  ℕ, zero, suc, ◌+◌, ◌-◌, ◌%◌, ◌^◌, ◌≤◌, ◌<◌, ◌≡◌, ◌==◌, refl, ap, sym, ◌∙◌, some, List, [], ◌∷◌,
  ◌++◌, append_assoc, append-nil, length, take, drop, arith, ltb, ltb→lt, drop-append, Bool-cases,
  inl, inr, true,
}
use racnet.Store.{Item}
use racnet.Store.Order.{Tree, subtree_count, is_range}
use racnet.Store.Order.Tree.{nil, node}
use racnet.Store.Order.Shape.{items, size, IsSummarized, subtree_count-size, size-items}
use racnet.Store.Order.Summed.{slice}
use racnet.Store.Order.Range.{RangeIter, seed, iter_range, push_left, next_from, collect}

-- The items that a stack still yields: of each subtree on it the root and what is right of it.
abbrev pub pending : List Tree → List Item
pending [] = []
pending (nil ∷ stack) = pending stack
pending (node item left right c s ∷ stack) = item ∷ (items right ++ pending stack)

-- No index on the stack is `NIL`.
abbrev pub IsStack : List Tree → Type 0
IsStack [] = Unit {0}
IsStack (nil ∷ stack) = ⊥
IsStack (node item left right c s ∷ stack) = IsStack stack

drop-middle :
    (xs : List Item) (x : Item) (ys : List Item) → drop (length xs) (xs ++ (x ∷ ys)) ≡ x ∷ ys
drop-middle [] x ys = refl
drop-middle (z ∷ zs) x ys = drop-middle zs x ys

drop-past :
    (k : ℕ) (xs : List Item) (x : Item) (ys : List Item)
    → length xs < k
    → drop k (xs ++ (x ∷ ys)) ≡ drop (k - (length xs + 1)) ys
drop-past zero xs x ys h = absurd (omega arith)
drop-past (suc k) [] x ys h = ap (λ n. drop n ys) (omega arith)
drop-past (suc k) (z ∷ zs) x ys h =
    drop-past k zs x ys (omega arith) ∙ ap (λ n. drop n ys) (omega arith)

push_left-pending :
    (stack : List Tree) (t : Tree) → pending (push_left stack t) ≡ items t ++ pending stack
unfolding push_left
push_left-pending stack nil = refl
push_left-pending stack (node item left right c s) =
    push_left-pending (node item left right c s ∷ stack) left
    ∙ sym (append_assoc (items left) (item ∷ items right) (pending stack))

seed-pending :
    (stack : List Tree) (t : Tree) (rank : ℕ)
    → IsSummarized t
    → pending (seed stack t rank) ≡ drop rank (items t) ++ pending stack
unfolding seed
seed-pending stack nil zero h = refl
seed-pending stack nil (suc n) h = refl
seed-pending stack (node item left right c s) rank (_, _, _, hl, hr) =
    let n = subtree_count-size left hl in
    let m = size-items left in
    elim (Bool-cases (ltb rank (subtree_count left))) [
      | inl y ↦
          rw
            (
              y,
              drop-append rank (items left) (item ∷ items right)
                  (omega (arith, ltb→lt _ _ y, n, m)),
            )
            (seed-pending (node item left right c s ∷ stack) left rank hl
              ∙ sym (append_assoc (drop rank (items left)) (item ∷ items right) (pending stack)))
      | inr y ↦ elim (Bool-cases (rank == subtree_count left)) [
        | inl z ↦
            let it : rank ≡ length (items left) = ground (arith, z, n, m) in
            rw (y, z, it, drop-middle (items left) item (items right)) refl
        | inr z ↦
            let it : length (items left) < rank = ground (arith, y, z, n, m) in
            let at : rank - (subtree_count left + 1) ≡ rank - (length (items left) + 1) =
              omega (arith, n, m) in
            rw (y, z, drop-past rank (items left) item (items right) it, at)
              (seed-pending stack right (rank - (length (items left) + 1)) hr)
      ]
    ]

push_left-IsStack : (stack : List Tree) (t : Tree) → IsStack stack → IsStack (push_left stack t)
unfolding push_left
push_left-IsStack stack nil h = h
push_left-IsStack stack (node item left right c s) h =
    push_left-IsStack (node item left right c s ∷ stack) left h

seed-IsStack :
    (stack : List Tree) (t : Tree) (rank : ℕ) → IsStack stack → IsStack (seed stack t rank)
unfolding seed
seed-IsStack stack nil rank h = h
seed-IsStack stack (node item left right c s) rank h =
    elim (Bool-cases (ltb rank (subtree_count left))) [
      | inl y ↦ rw (y, IsStack, seed) (seed-IsStack (node item left right c s ∷ stack) left rank h)
      | inr y ↦ elim (Bool-cases (rank == subtree_count left)) [
        | inl z ↦ rw (y, z, IsStack, seed) h
        | inr z ↦
            rw (y, z, IsStack, seed) (seed-IsStack stack right (rank - (subtree_count left + 1)) h)
      ]
    ]

collect-take :
    (fuel n : ℕ) (stack : List Tree)
    → IsStack stack
    → n ≤ fuel
    → collect fuel (record { stack = stack; remaining = n }) ≡ take n (pending stack)
unfolding collect next_from
collect-take zero zero stack h k = refl
collect-take zero (suc n) stack h k = absurd (omega arith)
collect-take (suc fuel) zero [] h k = refl
collect-take (suc fuel) zero (t ∷ stack) h k = refl
collect-take (suc fuel) (suc n) [] h k = refl
collect-take (suc fuel) (suc n) (nil ∷ stack) h k = absurd h
collect-take (suc fuel) (suc n) (node item left right c s ∷ stack) h k =
    ap (λ r. item ∷ r)
      (collect-take fuel n (push_left stack right) (push_left-IsStack stack right h) (omega arith)
        ∙ ap (take n) (push_left-pending stack right))

-- In an index with the right counts and fewer than 2^32 items, `iter_range` of a range of ranks does not
-- panic, and a loop of at least that many rounds over its iterator sees the items of the range in order,
-- with no index `NIL` met.
pub iter_range-slice :
    (t : Tree) (lo hi fuel : ℕ)
    → IsSummarized t
    → size t < 2 ^ 32
    → lo ≤ hi
    → hi ≤ size t
    → hi - lo ≤ fuel
    → (iter : RangeIter) × (iter_range t lo hi ≡ some iter)
      × IsStack iter.stack
      × (collect fuel iter ≡ slice lo hi (items t))
unfolding iter_range
iter_range-slice t lo hi fuel h k a b f =
    let n = subtree_count-size t h in
    let e : is_range t lo hi ≡ true = ground (arith, a, b, n) in
    let small : lo % 2 ^ 32 ≡ lo = omega arith in
    let stacked = seed-IsStack [] t lo tt in
    rw (e, small)
      (
        _,
        refl,
        stacked,
        collect-take fuel (hi - lo) (seed [] t lo) stacked f
            ∙ ap (take (hi - lo)) (seed-pending [] t lo h ∙ append-nil (drop lo (items t))),
      )
