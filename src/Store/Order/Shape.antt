-- ===== src/Store/Order/Shape.antt =====
-- What a tree of core/src/store/order.rs stands for, and when its counts, sums and weights are right.
use racnet.Prelude.{
  ℕ, ◌+◌, ◌*◌, ◌≤◌, ◌≡◌, refl, List, [], ◌∷◌, ◌++◌, length, arith, length-append, from_le_bytes,
}
use racnet.Store.{Item}
use racnet.Store.Order.{Tree, subtree_count}
use racnet.Store.Order.Tree.{nil, node}
use racnet.Store.Order.Sorted.{IsSorted}
use racnet.Sync.IdSum.Sums.{Represents, IsEntryId}

-- The items in order.
abbrev pub items : Tree → List Item
items nil = []
items (node item left right count sum) = items left ++ (item ∷ items right)

abbrev pub size : Tree → ℕ
size nil = 0
size (node item left right count sum) = 1 + size left + size right

-- The ids of items as numbers, added up.
abbrev pub id_total : List Item → ℕ
id_total [] = 0
id_total (x ∷ xs) = from_le_bytes x.id + id_total xs

abbrev pub total : Tree → ℕ
total nil = 0
total (node item left right count sum) = from_le_bytes item.id + total left + total right

pub size-items : (t : Tree) → length (items t) ≡ size t
size-items nil = refl
size-items (node item left right c s) =
    omega
      (arith, length-append (items left) (item ∷ items right), size-items left, size-items right)

pub id_total-append : (xs ys : List Item) → id_total (xs ++ ys) ≡ id_total xs + id_total ys
id_total-append [] ys = omega arith
id_total-append (x ∷ xs) ys = omega (arith, id_total-append xs ys)

pub total-items : (t : Tree) → id_total (items t) ≡ total t
total-items nil = refl
total-items (node item left right c s) =
    omega (
      arith,
      id_total-append (items left) (item ∷ items right),
      total-items left,
      total-items right,
    )

-- Every node has the count and the sum of its subtree, and every id is one.
abbrev pub IsSummarized : Tree → Type 0
IsSummarized nil = Unit {0}
IsSummarized (node item left right count sum) =
    (count ≡ 1 + size left + size right)
    × Represents sum (total (node item left right count sum))
    × IsEntryId item.id
    × IsSummarized left
    × IsSummarized right

-- Neither of two sibling subtrees weighs more than three times the other.
abbrev pub AreBalanced : ℕ → ℕ → Type 0
AreBalanced l r = (l + 1 ≤ 3 * (r + 1)) × (r + 1 ≤ 3 * (l + 1))

abbrev pub IsBalanced : Tree → Type 0
IsBalanced nil = Unit {0}
IsBalanced (node item left right count sum) =
    AreBalanced (size left) (size right) × IsBalanced left × IsBalanced right

-- The state of the index that its operations keep.
abbrev pub IsIndex : Tree → Type 0
IsIndex t = IsSorted (items t) × IsSummarized t × IsBalanced t

pub subtree_count-size : (t : Tree) → IsSummarized t → subtree_count t ≡ size t
subtree_count-size nil h = refl
subtree_count-size (node item left right c s) h = h.0
