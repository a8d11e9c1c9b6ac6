-- ===== src/Store/Order/Queries.antt =====
-- What the queries of core/src/store/order.rs answer, in terms of the items in order.
use racnet.Prelude.{
  ℕ, zero, suc, ◌+◌, ◌-◌, ◌%◌, ◌^◌, ◌≤◌, ◌<◌, ◌≡◌, ◌==◌, refl, ap, ◌∙◌, none, some, List, [], ◌∷◌,
  ◌++◌, length, get_elem?, arith, ltb, ltb→lt, ltb→ge, Bool-cases, inl, inr,
}
use racnet.Store.{Item}
use racnet.Store.ItemOrder.{cmp}
use racnet.Store.Order.{
  Tree, subtree_count, len, item_at_from, item_at, lower_bound_from, lower_bound,
}
use racnet.Store.Order.Tree.{nil, node}
use racnet.Store.Order.Shape.{items, size, IsIndex, IsSummarized, subtree_count-size, size-items}
use racnet.Store.Order.Sorted.{
  IsSorted, rank_of, rank_of-left, rank_of-right, Ordering-cases, IsSorted-split,
}

-- An item of a list cut at one of its items.
get_elem?-left :
    (xs : List Item) (x : Item) (ys : List Item) (i : ℕ)
    → i < length xs
    → get_elem? (xs ++ (x ∷ ys)) i ≡ get_elem? xs i
get_elem?-left [] x ys i h = absurd (omega arith)
get_elem?-left (z ∷ zs) x ys zero h = refl
get_elem?-left (z ∷ zs) x ys (suc i) h = get_elem?-left zs x ys i (omega arith)

get_elem?-middle :
    (xs : List Item) (x : Item) (ys : List Item) → get_elem? (xs ++ (x ∷ ys)) (length xs) ≡ some x
get_elem?-middle [] x ys = refl
get_elem?-middle (z ∷ zs) x ys = get_elem?-middle zs x ys

get_elem?-right :
    (xs : List Item) (x : Item) (ys : List Item) (i : ℕ)
    → length xs < i
    → get_elem? (xs ++ (x ∷ ys)) i ≡ get_elem? ys (i - (length xs + 1))
get_elem?-right [] x ys zero h = absurd (omega arith)
get_elem?-right [] x ys (suc i) h = ap (get_elem? ys) (omega arith)
get_elem?-right (z ∷ zs) x ys zero h = absurd (omega arith)
get_elem?-right (z ∷ zs) x ys (suc i) h =
    get_elem?-right zs x ys i (omega arith) ∙ ap (get_elem? ys) (omega arith)

item_at_from-get_elem? :
    (t : Tree) (rank : ℕ) → IsSummarized t → item_at_from t rank ≡ get_elem? (items t) rank
unfolding item_at_from
item_at_from-get_elem? nil rank h = refl
item_at_from-get_elem? (node item left right c s) rank (_, _, _, hl, hr) =
    let n = subtree_count-size left hl in
    let m = size-items left in
    elim (Bool-cases (ltb rank (subtree_count left))) [
      | inl y ↦
          rw
            (
              y,
              get_elem?-left (items left) item (items right) rank
                  (omega (arith, ltb→lt _ _ y, n, m)),
            )
            (item_at_from-get_elem? left rank hl)
      | inr y ↦ elim (Bool-cases (rank == subtree_count left)) [
        | inl z ↦
            let it : rank ≡ length (items left) = ground (arith, z, n, m) in
            rw (y, z, it, get_elem?-middle (items left) item (items right)) refl
        | inr z ↦
            let it : length (items left) < rank = ground (arith, y, z, n, m) in
            let at : rank - (subtree_count left + 1) ≡ rank - (length (items left) + 1) =
              omega (arith, n, m) in
            rw (y, z, get_elem?-right (items left) item (items right) rank it, at)
              (item_at_from-get_elem? right (rank - (length (items left) + 1)) hr)
      ]
    ]

get_elem?-out : (xs : List Item) (i : ℕ) → length xs ≤ i → get_elem? xs i ≡ none
get_elem?-out [] i h = refl
get_elem?-out (x ∷ xs) zero h = absurd (omega arith)
get_elem?-out (x ∷ xs) (suc i) h = get_elem?-out xs i (omega arith)

-- In an index with the right counts and fewer than 2^32 items, `item_at` is the item of that rank in order,
-- and a panic beyond the last.
pub item_at-get_elem? :
    (t : Tree) (rank : ℕ)
    → IsSummarized t
    → size t < 2 ^ 32
    → item_at t rank ≡ get_elem? (items t) rank
unfolding item_at
item_at-get_elem? t rank h k =
    let n = subtree_count-size t h in
    elim (Bool-cases (ltb rank (len t))) [
      | inl y ↦
          let small : rank % 2 ^ 32 ≡ rank = omega (arith, ltb→lt _ _ y) in
          rw (y, small) (item_at_from-get_elem? t rank h)
      | inr y ↦
          rw (y, get_elem?-out (items t) rank (omega (arith, ltb→ge _ _ y, n, size-items t))) refl
    ]

lower_bound_from-rank_of :
    (acc : ℕ) (t : Tree) (bound : Item)
    → IsSorted (items t)
    → IsSummarized t
    → lower_bound_from acc t bound ≡ acc + rank_of bound (items t)
unfolding lower_bound_from rank_of
lower_bound_from-rank_of acc nil bound o h = omega arith
lower_bound_from-rank_of acc (node item left right c s) bound o (_, _, _, hl, hr) =
    let (ol, below, above, o') = IsSorted-split (items left) item (items right) o in
    elim (Ordering-cases (cmp item bound)) [
      | inl e ↦
          rw (e, rank_of-right bound (items left) item (items right) below e)
            (omega (
              arith,
              lower_bound_from-rank_of (acc + (subtree_count left + 1)) right bound o' hr,
              subtree_count-size left hl,
              size-items left,
            ))
      | inr (inl e) ↦
          rw (e, rank_of-left bound (items left) item (items right) (rw e refl))
            (lower_bound_from-rank_of acc left bound ol hl)
      | inr (inr e) ↦
          rw (e, rank_of-left bound (items left) item (items right) (rw e refl))
            (lower_bound_from-rank_of acc left bound ol hl)
    ]

-- In an index that is in order with the right counts, `lower_bound` is the number of items before the bound.
pub lower_bound-rank_of :
    (t : Tree) (bound : Item) → IsIndex t → lower_bound t bound ≡ rank_of bound (items t)
unfolding lower_bound
lower_bound-rank_of t bound (o, h, b) = lower_bound_from-rank_of 0 t bound o h ∙ omega arith
