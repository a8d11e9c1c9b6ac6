-- ===== src/Sync/Negentropy/Sealed.antt =====
-- core/src/sync/negentropy/store.rs: the two stores that an engine can work over, the sealed vector
-- and the order index.
use racnet.Prelude.{
  ℕ, suc, ◌+◌, ◌-◌, ◌&&◌, Bytes, List, [], ◌∷◌, Option, none, some, length, take, drop, get_elem?,
  leb, if◌then◌else◌, max, min,
}
use Prim.Native.Nat.Ordering.{lt, eq, gt}
use racnet.Store.{Item}
use racnet.Store.ItemOrder.{cmp, lt_item}
use racnet.Store.Order.{Tree, summary, item_at, lower_bound, len}
use racnet.Store.Order.Range.{iter_range, collect}
use racnet.Sync.Bound.{Bound}
use racnet.Sync.IdSum.{IdSum, zero_sum, add_id, fingerprint}
use racnet.Sync.Negentropy.{NegentropyStore}

unfoldable pub bound_as_item : Bound → Item
bound_as_item bound = record { sort_key = bound.ts; id = bound.padded_id }

-- `sort_unstable`, which leaves equal items side by side.
unfoldable pub sort_in : Item → List Item → List Item
sort_in item [] = item ∷ []
sort_in item (x ∷ xs) =
    let rest = sort_in item xs in
    elim (cmp item x) [ lt ↦ item ∷ x ∷ xs | eq ↦ item ∷ x ∷ xs | gt ↦ x ∷ rest ]

unfoldable pub sort : List Item → List Item
sort [] = []
sort (x ∷ xs) = sort_in x (sort xs)

-- `dedup`: of equal neighbours the first stays.
unfoldable pub dedup_from : Item → List Item → List Item
dedup_from last [] = []
dedup_from last (x ∷ xs) = elim (cmp last x) [
  | lt ↦ x ∷ dedup_from x xs
  | eq ↦ dedup_from last xs
  | gt ↦ x ∷ dedup_from x xs
]

unfoldable pub dedup : List Item → List Item
dedup [] = []
dedup (x ∷ xs) = x ∷ dedup_from x xs

-- `SealedVec` is its items.
unfoldable pub seal : List Item → List Item
seal items = dedup (sort items)

-- A slice of the items, if the range is one.
abbrev pub items_in : List Item → ℕ → ℕ → Option (List Item)
items_in items lo hi =
    if leb lo hi && leb hi (length items) then some (take (hi - lo) (drop lo items)) else none

-- `partition_point(|item| *item < key)` of a sorted slice.
unfoldable pub partition_point : Item → List Item → ℕ
partition_point key [] = 0
partition_point key (x ∷ xs) =
    let rest = partition_point key xs in if lt_item x key then suc rest else 0

-- The loop of `fingerprint`.
unfoldable pub sum_ids : IdSum → List Item → IdSum
sum_ids sum [] = sum
sum_ids sum (x ∷ xs) = sum_ids (add_id sum x.id) xs

abbrev clamp : ℕ → ℕ → ℕ → ℕ
clamp n lo hi = max lo (min n hi)

abbrev map_option : {A B : Type 0} → (A → B) → Option A → Option B
map_option f none = none
map_option f (some a) = some (f a)

-- `sha256` is `Sha256::digest`.
module _ (sha256 : Bytes → Bytes) where
  abbrev pub sealed_store : NegentropyStore (List Item)
  sealed_store = record {
    len = λ items. length items;
    item_at = get_elem?;
    lower_bound = λ items lo hi bound.
        map_option (λ s. lo + partition_point (bound_as_item bound) s) (items_in items lo hi);
    fingerprint = λ items lo hi.
        map_option (λ s. fingerprint sha256 (sum_ids zero_sum s) (hi - lo)) (items_in items lo hi);
    for_each = items_in;
  }

  -- `clamp` panics on an empty range of values.
  abbrev pub tree_store : NegentropyStore Tree
  tree_store = record {
    len = len;
    item_at = item_at;
    lower_bound = λ tree lo hi bound.
        if leb lo hi then some (clamp (lower_bound tree (bound_as_item bound)) lo hi) else none;
    fingerprint = λ tree lo hi.
        map_option (λ (p : ℕ × IdSum). fingerprint sha256 p.1 p.0) (summary tree lo hi);
    for_each = λ tree lo hi. map_option (collect (hi - lo)) (iter_range tree lo hi);
  }
