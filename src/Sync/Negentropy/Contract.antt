-- ===== src/Sync/Negentropy/Contract.antt =====
-- The two stores of core/src/sync/negentropy/store.rs agree, and both keep the contract of the engine.
use racnet.Prelude.{
  ℕ, zero, suc, ◌+◌, ◌-◌, ◌^◌, ◌≤◌, ◌<◌, ◌≡◌, refl, ap, sym, ◌∙◌, false, Bytes, List, [], ◌∷◌, some,
  All, All-take, All-drop, length, length-take, take, drop, le→leb, max, min, arith, Bool-cases,
  inl, inr,
}
use racnet.Store.{Item}
use racnet.Store.ItemOrder.{cmp, lt_item, cmp_trans}
use racnet.Store.Indexed.{items-IsEntryId}
use racnet.Store.Order.{Tree}
use racnet.Store.Order.Sorted.{IsSorted, IsBelow, rank_of, Ordering-cases}
use racnet.Store.Order.Shape.{items, size, size-items, id_total, IsIndex, subtree_count-size}
use racnet.Store.Order.Rotated.{Represents-same}
use racnet.Store.Order.Queries.{item_at-get_elem?, lower_bound-rank_of}
use racnet.Store.Order.Summed.{slice, summary-slice}
use racnet.Store.Order.Ranged.{iter_range-slice}
use racnet.Sync.Bound.{Bound}
use racnet.Sync.IdSum.{IdSum, zero_sum, add_id, fingerprint}
use racnet.Sync.IdSum.Sums.{
  Represents, IsEntryId, zero_sum-Represents, add_id-Represents, value-injective,
}
use racnet.Sync.Negentropy.Sealed.{
  bound_as_item, partition_point, sum_ids, items_in, sealed_store, tree_store,
}
use racnet.Sync.Negentropy.Total.{Presents}

partition_point-rank_of : (key : Item) (xs : List Item) → partition_point key xs ≡ rank_of key xs
unfolding partition_point rank_of
partition_point-rank_of key [] = refl
partition_point-rank_of key (x ∷ xs) = ground (arith, partition_point-rank_of key xs)

partition_point-length : (key : Item) (xs : List Item) → partition_point key xs ≤ length xs
unfolding partition_point
partition_point-length key [] = omega arith
partition_point-length key (x ∷ xs) = ground (arith, partition_point-length key xs)

rank_of-take :
    (key : Item) (n : ℕ) (xs : List Item) → rank_of key (take n xs) ≡ min (rank_of key xs) n
unfolding rank_of
rank_of-take key zero xs = omega arith
rank_of-take key (suc n) [] = omega arith
rank_of-take key (suc n) (x ∷ xs) = ground (arith, rank_of-take key n xs)

rank_of-none :
    (key x : Item) (xs : List Item)
    → lt_item x key ≡ false
    → All (IsBelow x) xs
    → rank_of key xs ≡ 0
unfolding rank_of
rank_of-none key x [] h hs = refl
rank_of-none key x (y ∷ ys) h (k, ks) = elim (Ordering-cases (cmp y key)) [
  | inl e ↦ absurd (ground (arith, h, cmp_trans x y key k e))
  | inr (inl e) ↦ rw (e, rank_of) refl
  | inr (inr e) ↦ rw (e, rank_of) refl
]

rank_of-slice :
    (key : Item) (lo hi : ℕ) (xs : List Item)
    → IsSorted xs
    → lo ≤ hi
    → hi ≤ length xs
    → lo + rank_of key (slice lo hi xs) ≡ max lo (min (rank_of key xs) hi)
unfolding rank_of
rank_of-slice key zero hi xs s h k =
    let e : hi - 0 ≡ hi = omega arith in rw e (omega (arith, rank_of-take key hi xs))
rank_of-slice key (suc lo) zero xs s h k = absurd (omega arith)
rank_of-slice key (suc lo) (suc hi) [] s h k = absurd (omega arith)
rank_of-slice key (suc lo) (suc hi) (x ∷ xs) (a, s) h k =
    let e : suc hi - suc lo ≡ hi - lo = omega arith in
    let rest = rank_of-slice key lo hi xs s (omega arith) (omega arith) in
    elim (Bool-cases (lt_item x key)) [
      | inl y ↦ rw (e, y, rank_of) (omega (arith, rest))
      | inr y ↦ rw (e, y, rank_of) (omega (arith, rest, rank_of-none key x xs y a))
    ]

in_range :
    (lo hi : ℕ) (xs : List Item)
    → lo ≤ hi
    → hi ≤ length xs
    → items_in xs lo hi ≡ some (slice lo hi xs)
in_range lo hi xs h k = rw (le→leb lo hi h, le→leb hi (length xs) k) refl

sum_ids-Represents :
    (sum : IdSum) (n : ℕ) (xs : List Item)
    → Represents sum n
    → All (λ x. IsEntryId x.id) xs
    → Represents (sum_ids sum xs) (n + id_total xs)
unfolding sum_ids
sum_ids-Represents sum n [] r h = Represents-same sum n (n + 0) r (omega arith)
sum_ids-Represents sum n (x ∷ xs) r (h, hs) =
    Represents-same (sum_ids (add_id sum x.id) xs) _ _
      (sum_ids-Represents (add_id sum x.id) _ xs (add_id-Represents sum n x.id r h) hs)
      (omega arith)

module _ (sha256 : Bytes → Bytes) where
  -- The sealed vector keeps the contract.
  pub sealed_store-Presents :
      (xs : List Item)
      → IsSorted xs
      → All (λ x. length x.id ≡ 32) xs
      → Presents (sealed_store sha256) xs xs
  sealed_store-Presents xs s ids = record {
    sorted = s;
    ids = ids;
    len = refl;
    item_at = λ i. refl;
    lower_bound = λ lo hi b h k.
        let n = partition_point-length (bound_as_item b) (slice lo hi xs) in
        let m = length-take (hi - lo) (drop lo xs) in
        rw (in_range lo hi xs h k) (_, refl, omega arith, omega (arith, n, m));
    fingerprint = λ lo hi h k. rw (in_range lo hi xs h k) (_, refl);
    for_each = λ lo hi h k. in_range lo hi xs h k;
  }

  -- For an index that is in order with its counts and sums right, and fewer than 2^32 items: the order index
  -- and the sealed vector of its items answer alike wherever the engine asks.
  pub tree_store-sealed_store :
      (t : Tree) (lo hi : ℕ) (b : Bound)
      → IsIndex t
      → size t < 2 ^ 32
      → lo ≤ hi
      → hi ≤ size t
      → ((tree_store sha256).len t ≡ (sealed_store sha256).len (items t))
        × ((tree_store sha256).item_at t lo ≡ (sealed_store sha256).item_at (items t) lo)
        × ((tree_store sha256).lower_bound t lo hi b
            ≡ (sealed_store sha256).lower_bound (items t) lo hi b)
        × ((tree_store sha256).fingerprint t lo hi
            ≡ (sealed_store sha256).fingerprint (items t) lo hi)
        × ((tree_store sha256).for_each t lo hi ≡ (sealed_store sha256).for_each (items t) lo hi)
  tree_store-sealed_store t lo hi b index m h k =
      let n = size-items t in
      let key = bound_as_item b in
      let rank = rank_of-slice key lo hi (items t) index.0 h (omega (arith, n, k)) in
      let point = partition_point-rank_of key (slice lo hi (items t)) in
      let bound = lower_bound-rank_of t key index in
      let inside = in_range lo hi (items t) h (omega (arith, n, k)) in
      let (iter, ranged, stacked, collected) =
        iter_range-slice t lo hi (hi - lo) index.1 m h k (omega arith) in
      let is_id : Item → Type 0 = λ x. IsEntryId x.id in
      let ids =
        All-take is_id (hi - lo) (drop lo (items t))
          (All-drop is_id lo (items t) (items-IsEntryId t index.1)) in
      let (sum, summed, (l, v)) = summary-slice t lo hi index.1 m h k in
      let (l', v') =
        sum_ids-Represents zero_sum 0 (slice lo hi (items t)) zero_sum-Represents ids in
      let same : sum ≡ sum_ids zero_sum (slice lo hi (items t)) =
        value-injective sum _ l l' (omega (arith, v, v')) in
      (
        subtree_count-size t index.1 ∙ sym n,
        item_at-get_elem? t lo index.1 m,
        rw (inside, le→leb lo hi h) (ap some (omega (arith, rank, point, bound))),
        rw (inside, summed) (ap (λ s. some (fingerprint sha256 s (hi - lo))) same),
        rw (inside, ranged) (ap some collected),
      )
