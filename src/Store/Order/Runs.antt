-- ===== src/Store/Order/Runs.antt =====
-- An index of two items, and the theorems on the tree at it.
use racnet.Prelude.{
  ◌∷◌, [], ◌+◌, ◌-◌, ◌*◌, ◌^◌, ◌≤◌, ◌≡◌, refl, some, arith, replicate, from_le_bytes,
}
use racnet.Store.{Item}
use racnet.Store.Order.{Tree, summary}
use racnet.Store.Order.Tree.{nil, node}
use racnet.Store.Order.Insertion.{insert}
use racnet.Store.Order.Range.{RangeIter, iter_range, collect}
use racnet.Store.Order.Sorted.{insert_sorted, is_new}
use racnet.Store.Order.Shape.{items, id_total, total, IsIndex, IsSummarized}
use racnet.Store.Order.Rotated.{Represents-same}
use racnet.Store.Order.Inserted.{insert-IsIndex}
use racnet.Store.Order.Summed.{slice, summary-slice}
use racnet.Store.Order.Ranged.{IsStack, iter_range-slice}
use racnet.Store.Order.Depth.{depth, insert_all, insert_all-depth}
use racnet.Store.ItemOrder.{cmp}
use racnet.Sync.IdSum.{IdSum, zero_sum, add_id, combine}
use racnet.Sync.IdSum.Sums.{
  Represents, IsEntryId, zero_sum-Represents, add_id-Represents, combine-Represents,
}

abbrev pub low : Item
low = record { sort_key = 5; id = replicate 32 7 }

abbrev pub high : Item
high = record { sort_key = 9; id = replicate 32 3 }

abbrev pub between : Item
between = record { sort_key = 5; id = replicate 32 200 }

abbrev low_sum : IdSum
low_sum = add_id zero_sum low.id

abbrev leaf : Tree
leaf = node low nil nil 1 low_sum

abbrev pub pair : Tree
pair = node high leaf nil 2 (combine (add_id zero_sum high.id) low_sum)

pub low-IsEntryId : IsEntryId low.id
low-IsEntryId = omega arith

high-IsEntryId : IsEntryId high.id
high-IsEntryId = omega arith

pub between-IsEntryId : IsEntryId between.id
between-IsEntryId = omega arith

low_sum-Represents : Represents low_sum (0 + from_le_bytes low.id)
low_sum-Represents = add_id-Represents zero_sum 0 low.id zero_sum-Represents low-IsEntryId

high_sum-Represents : Represents (add_id zero_sum high.id) (0 + from_le_bytes high.id)
high_sum-Represents = add_id-Represents zero_sum 0 high.id zero_sum-Represents high-IsEntryId

leaf-IsSummarized : IsSummarized leaf
leaf-IsSummarized = (
  refl,
  Represents-same low_sum (0 + from_le_bytes low.id) (from_le_bytes low.id + 0 + 0)
      low_sum-Represents (omega arith),
  low-IsEntryId,
  tt,
  tt,
)

pair_sum-Represents :
    Represents (combine (add_id zero_sum high.id) low_sum) (from_le_bytes high.id + total leaf + 0)
pair_sum-Represents =
    let both =
      combine-Represents (add_id zero_sum high.id) low_sum (0 + from_le_bytes high.id)
        (0 + from_le_bytes low.id) high_sum-Represents low_sum-Represents in
    Represents-same (combine (add_id zero_sum high.id) low_sum)
      (0 + from_le_bytes high.id + (0 + from_le_bytes low.id))
      (from_le_bytes high.id + total leaf + 0) both (omega arith)

pub pair-IsSummarized : IsSummarized pair
pair-IsSummarized = (refl, pair_sum-Represents, high-IsEntryId, leaf-IsSummarized, tt)

pub pair-IsIndex : IsIndex pair
unfolding cmp
pair-IsIndex = (((refl, tt), (tt, tt)), pair-IsSummarized, (omega arith, (omega arith, tt, tt), tt))

insert-IsIndex_example :
    (t' : Tree) × (insert pair between ≡ some (t', is_new between (items pair)))
    × (items t' ≡ insert_sorted between (items pair))
    × IsIndex t'
insert-IsIndex_example = insert-IsIndex pair between pair-IsIndex between-IsEntryId (omega arith)

summary-slice_example :
    (sum : IdSum) × (summary pair 1 2 ≡ some (2 - 1, sum))
    × Represents sum (id_total (slice 1 2 (items pair)))
summary-slice_example =
    summary-slice pair 1 2 pair-IsSummarized (omega arith) (omega arith) (omega arith)

iter_range-slice_example :
    (iter : RangeIter) × (iter_range pair 0 2 ≡ some iter)
    × IsStack iter.stack
    × (collect 2 iter ≡ slice 0 2 (items pair))
iter_range-slice_example =
    iter_range-slice pair 0 2 2 pair-IsSummarized (omega arith) (omega arith) (omega arith)
      (omega arith)

insert_all-depth_example :
    (t : Tree) × (insert_all (high ∷ between ∷ low ∷ []) nil ≡ some t)
    × (4 ^ depth t ≤ 3 ^ depth t * (3 + 1))
insert_all-depth_example =
    insert_all-depth (high ∷ between ∷ low ∷ [])
      (high-IsEntryId, (between-IsEntryId, (low-IsEntryId, tt))) (omega arith)
