-- ===== src/Store/Order/Range.antt =====
-- `iter_range` of core/src/store/order.rs and its iterator `RangeIter`. A stack of indices is a list
-- of subtrees, its top first.
use racnet.Prelude.{
  ℕ, zero, suc, ◌+◌, ◌-◌, ◌%◌, ◌^◌, List, [], ◌∷◌, Option, none, some, ltb, ◌==◌, if◌then◌else◌,
}
use racnet.Store.{Item}
use racnet.Store.Order.{Tree, subtree_count, is_range}
use racnet.Store.Order.Tree.{nil, node}

pub record RangeIter : Type 0 where
  pub stack : List Tree
  pub remaining : ℕ

-- The loop of `iter_range`.
unfoldable pub seed : List Tree → Tree → ℕ → List Tree
seed stack nil rank = stack
seed stack (node item left right c s) rank =
    let this = node item left right c s in
    let below = seed (this ∷ stack) left rank in
    let above = seed stack right (rank - (subtree_count left + 1)) in
    if ltb rank (subtree_count left)
    then below
    else if rank == subtree_count left
    then this ∷ stack
    else above

unfoldable pub iter_range : Tree → ℕ → ℕ → Option RangeIter
iter_range tree lo hi =
    if is_range tree lo hi
    then some (record { stack = seed [] tree (lo % 2 ^ 32); remaining = hi - lo })
    else none

-- The loop of `next`.
unfoldable pub push_left : List Tree → Tree → List Tree
push_left stack nil = stack
push_left stack (node item left right c s) = push_left (node item left right c s ∷ stack) left

-- What `next` answers, and the iterator after it; a `NIL` on the stack would be out of the arena.
unfoldable pub next_from : List Tree → ℕ → Option (Item × RangeIter)
next_from stack zero = none
next_from [] (suc n) = none
next_from (nil ∷ stack) (suc n) = none
next_from (node item left right c s ∷ stack) (suc n) =
    some (item, record { stack = push_left stack right; remaining = n })

abbrev pub next : RangeIter → Option (Item × RangeIter)
next iter = next_from iter.stack iter.remaining

-- The items that a loop over the iterator sees, in at most `fuel` rounds.
unfoldable pub collect : ℕ → RangeIter → List Item
collect zero iter = []
collect (suc fuel) iter = elim (next iter) [
  | none ↦ []
  | some (item, iter') ↦ item ∷ collect fuel iter'
]
