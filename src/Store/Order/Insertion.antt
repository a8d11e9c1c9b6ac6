-- ===== src/Store/Order/Insertion.antt =====
-- `insert` of core/src/store/order.rs and the rebalancing under it.
use racnet.Prelude.{
  ℕ, ◌+◌, ◌*◌, ◌%◌, ◌^◌, Bool, true, false, Option, none, some, ltb, if◌then◌else◌,
}
use Prim.Native.Nat.Ordering.{lt, eq, gt}
use racnet.Store.{Item}
use racnet.Store.ItemOrder.{cmp}
use racnet.Store.Order.{Tree, subtree_count}
use racnet.Store.Order.Tree.{nil, node}
use racnet.Sync.IdSum.{IdSum, zero_sum, add_id, combine}

abbrev pub delta : ℕ
delta = 3

abbrev pub gamma : ℕ
gamma = 2

abbrev pub weight : Tree → ℕ
weight tree = subtree_count tree + 1

-- One round of the loop of `pull_up`.
unfoldable pub add_child : Tree → ℕ → IdSum → ℕ × IdSum
add_child nil count sum = (count, sum)
add_child (node item left right c s) count sum = ((count + c) % 2 ^ 32, combine sum s)

unfoldable pub pull_up : Tree → Tree
pull_up nil = nil
pull_up (node item left right c s) =
    let (count, sum) = add_child left 1 (add_id zero_sum item.id) in
    let (count', sum') = add_child right count sum in node item left right count' sum'

unfoldable pub rotate_left : Tree → Option Tree
rotate_left nil = none
rotate_left (node item left nil c s) = none
rotate_left (node item left (node r rl rr rc rs) c s) =
    some (pull_up (node r (pull_up (node item left rl c s)) rr rc rs))

unfoldable pub rotate_right : Tree → Option Tree
rotate_right nil = none
rotate_right (node item nil right c s) = none
rotate_right (node item (node l ll lr lc ls) right c s) =
    some (pull_up (node l ll (pull_up (node item lr right c s)) lc ls))

-- The branch of `balance` for a right child that is too heavy.
unfoldable pub lift_right : Item → Tree → Tree → ℕ → IdSum → Option Tree
lift_right item left nil c s = none
lift_right item left (node r rl rr rc rs) c s =
    if ltb (weight rl) (gamma * weight rr)
    then rotate_left (node item left (node r rl rr rc rs) c s)
    else elim (rotate_right (node r rl rr rc rs)) [
      | none ↦ none
      | some right ↦ rotate_left (pull_up (node item left right c s))
    ]

-- The branch of `balance` for a left child that is too heavy.
unfoldable pub lift_left : Item → Tree → Tree → ℕ → IdSum → Option Tree
lift_left item nil right c s = none
lift_left item (node l ll lr lc ls) right c s =
    if ltb (weight lr) (gamma * weight ll)
    then rotate_right (node item (node l ll lr lc ls) right c s)
    else elim (rotate_left (node l ll lr lc ls)) [
      | none ↦ none
      | some left ↦ rotate_right (pull_up (node item left right c s))
    ]

unfoldable pub balance : Tree → Option Tree
balance nil = none
balance (node item left right c s) =
    if ltb (weight left * delta) (weight right)
    then lift_right item left right c s
    else if ltb (weight right * delta) (weight left)
    then lift_left item left right c s
    else some (node item left right c s)

-- The end of `insert_at`, on the node with its new child: `pull_up` and `balance`, if the child
-- grew.
unfoldable pub settle : Tree → Bool → Option (Tree × Bool)
settle tree inserted =
    if inserted
    then elim (balance (pull_up tree)) [ none ↦ none | some tree' ↦ some (tree', true) ]
    else some (tree, false)

unfoldable pub insert_at : Tree → Item → Option (Tree × Bool)
insert_at nil item = some (node item nil nil 1 (add_id zero_sum item.id), true)
insert_at (node own left right c s) item = elim (cmp item own) [
  | eq ↦ some (node own left right c s, false)
  | lt ↦ elim (insert_at left item) [
    | none ↦ none
    | some (child, inserted) ↦ settle (node own child right c s) inserted
  ]
  | gt ↦ elim (insert_at right item) [
    | none ↦ none
    | some (child, inserted) ↦ settle (node own left child c s) inserted
  ]
]

-- `insert`: the index after it, and whether the item was new.
abbrev pub insert : Tree → Item → Option (Tree × Bool)
insert tree item = insert_at tree item
