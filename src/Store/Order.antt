-- ===== src/Store/Order.antt =====
-- core/src/store/order.rs: the order index, a weight-balanced tree with a count and a sum of ids in
-- every node. An index into the arena of nodes stands for the subtree that it leads to, and `NIL` is
-- `nil`: every node of the arena has one parent, so a subtree is never shared. `none` is a panic.
pub mod Insertion
pub mod Range
pub mod Sorted
pub mod Shape
pub mod Rotated
pub mod Inserted
pub mod Queries
pub mod Summed
pub mod Ranged
pub mod Depth
pub mod Runs
use racnet.Prelude.{
  ℕ, ◌+◌, ◌-◌, ◌%◌, ◌^◌, Bool, true, false, ◌&&◌, not, Option, none, some, ltb, leb, ◌==◌,
  if◌then◌else◌,
}
use racnet.Store.{Item}
use racnet.Store.ItemOrder.{lt_item}
use racnet.Sync.IdSum.{IdSum, zero_sum, add_id, combine, negate}

-- `Node`, with `NIL` for no child.
pub data Tree : Type 0 where
  nil : Tree
  node : (item : Item) (left right : Tree) (count : ℕ) (sum : IdSum) → Tree

abbrev pub subtree_count : Tree → ℕ
subtree_count nil = 0
subtree_count (node item left right count sum) = count

abbrev pub len : Tree → ℕ
len tree = subtree_count tree

-- The loop of `item_at`; an index `NIL` is out of the arena.
unfoldable pub item_at_from : Tree → ℕ → Option Item
item_at_from nil rank = none
item_at_from (node item left right count sum) rank =
    let below = item_at_from left rank in
    let above = item_at_from right (rank - (subtree_count left + 1)) in
    if ltb rank (subtree_count left)
    then below
    else if rank == subtree_count left
    then some item
    else above

unfoldable pub item_at : Tree → ℕ → Option Item
item_at tree rank = if ltb rank (len tree) then item_at_from tree (rank % 2 ^ 32) else none

-- The loop of `lower_bound`, from what it has counted.
unfoldable pub lower_bound_from : ℕ → Tree → Item → ℕ
lower_bound_from acc nil bound = acc
lower_bound_from acc (node item left right count sum) bound =
    let below = lower_bound_from acc left bound in
    let above = lower_bound_from (acc + (subtree_count left + 1)) right bound in
    if lt_item item bound then above else below

unfoldable pub lower_bound : Tree → Item → ℕ
lower_bound tree bound = lower_bound_from 0 tree bound

-- What the block of `if node.left != NIL` adds.
unfoldable pub take_left : Tree → ℕ → IdSum → ℕ × IdSum
take_left nil count sum = (count, sum)
take_left (node item left right c s) count sum = (count + c, combine sum s)

-- The loop of `prefix_summary`, from what it has taken.
unfoldable pub prefix_from : Tree → ℕ → ℕ → IdSum → ℕ × IdSum
prefix_from nil remaining count sum = (count, sum)
prefix_from (node item left right c s) remaining count sum =
    let (count', sum') = take_left left count sum in
    let below = prefix_from left remaining count sum in
    let above =
      prefix_from right (remaining - (subtree_count left + 1)) (count' + 1) (add_id sum' item.id) in
    if remaining == 0
    then (count, sum)
    else if leb remaining (subtree_count left)
    then below
    else above

unfoldable pub prefix_summary : Tree → ℕ → ℕ × IdSum
prefix_summary tree k = prefix_from tree (k % 2 ^ 32) 0 zero_sum

-- The guard of `summary` and of `iter_range`.
abbrev pub is_range : Tree → ℕ → ℕ → Bool
is_range tree lo hi = leb lo hi && leb hi (len tree)

unfoldable pub difference : ℕ × IdSum → ℕ × IdSum → ℕ × IdSum
difference (hi_count, hi_sum) (lo_count, lo_sum) =
    (hi_count - lo_count, combine hi_sum (negate lo_sum))

unfoldable pub summary : Tree → ℕ → ℕ → Option (ℕ × IdSum)
summary tree lo hi =
    if is_range tree lo hi
    then some (difference (prefix_summary tree hi) (prefix_summary tree lo))
    else none
