-- ===== src/Store/Indexed.antt =====
-- The store of core/src/store/mod.rs over the order index of core/src/store/order.rs: `OrderIndex`
-- filled with the tree, and the index in step with the entries.
use racnet.Prelude.{
  subst, ℕ, zero, suc, ◌-◌, ◌^◌, ◌≤◌, ◌<◌, ◌≡◌, refl, ap, ◌∙◌, true, false, ◌&&◌, List, [], ◌∷◌,
  All, All-append, Bytes, none, some, length, zeros, max, take, leb, ltb, arith, if◌then◌else◌,
  Bool-cases, inl, inr, ltb→ge,
}
use Prim.Native.Nat.Ordering.{lt}
use racnet.Wire.Payload.{SortKeyWindow}
use racnet.Store.{Item, OrderIndex, EntryStore, snapshot}
use racnet.Store.ItemOrder.{cmp, cmp_bytes, lt_item}
use racnet.Store.Order.{Tree, lower_bound}
use racnet.Store.Order.Tree.{nil, node}
use racnet.Store.Order.Insertion.{insert}
use racnet.Store.Order.Range.{iter_range, collect}
use racnet.Store.Order.Sorted.{IsSorted, IsBelow, rank_of}
use racnet.Store.Order.Shape.{items, size, size-items, IsIndex, IsSummarized}
use racnet.Store.Order.Queries.{lower_bound-rank_of}
use racnet.Store.Order.Summed.{slice}
use racnet.Sync.IdSum.Sums.{IsEntryId}
use racnet.Store.Order.Ranged.{iter_range-slice}

abbrev pub tree_index : OrderIndex Tree
tree_index = record {
  empty = nil;
  insert_item =
      λ item tree. elim (insert tree item) [ none ↦ none | some (tree', inserted) ↦ some tree' ];
  lower_bound = lower_bound;
  iter_range = λ tree lo hi. elim (iter_range tree lo hi) [
    | none ↦ none
    | some iter ↦ some (collect (hi - lo) iter)
  ];
}

-- The items with a sort key in a window, its start included and its end not.
unfoldable pub within : SortKeyWindow → List Item → List Item
within window [] = []
within window (x ∷ xs) =
    let rest = within window xs in
    if leb window.since x.sort_key && ltb x.sort_key window.until then x ∷ rest else rest

abbrev pub Has32 : Item → Type 0
Has32 x = length x.id ≡ 32

-- No id of 32 bytes is before the zeros.
cmp_bytes-zeros :
    (n : ℕ) (bs : Bytes) → n ≤ length bs → cmp_bytes bs (zeros n) ≡ lt → zero ≡ suc zero
cmp_bytes-zeros zero [] h e = cc
cmp_bytes-zeros zero (b ∷ bs) h e = cc
cmp_bytes-zeros (suc n) [] h e = absurd (omega arith)
cmp_bytes-zeros (suc n) (b ∷ bs) h e = ground (arith, cmp_bytes-zeros n bs)

lt_item-key :
    (x : Item) (key : ℕ)
    → Has32 x
    → lt_item x (record { sort_key = key; id = zeros 32 }) ≡ ltb x.sort_key key
unfolding cmp
lt_item-key x key h = ground (arith, cmp_bytes-zeros 32 x.id (omega arith))

IsBelow-key : (x y : Item) → IsBelow x y → x.sort_key ≤ y.sort_key
unfolding cmp
IsBelow-key x y h = ground arith

-- How many items at the start of a list have a sort key below a given one.
abbrev key_rank : ℕ → List Item → ℕ
key_rank key [] = 0
key_rank key (x ∷ xs) = let rest = key_rank key xs in if ltb x.sort_key key then suc rest else 0

rank_of-key :
    (key : ℕ) (xs : List Item)
    → All Has32 xs
    → rank_of (record { sort_key = key; id = zeros 32 }) xs ≡ key_rank key xs
unfolding rank_of
rank_of-key key [] h = refl
rank_of-key key (x ∷ xs) (h, hs) = elim (Bool-cases (ltb x.sort_key key)) [
  | inl y ↦ rw (lt_item-key x key h, y, rank_of) (ap suc (rank_of-key key xs hs))
  | inr y ↦ rw (lt_item-key x key h, y, rank_of) refl
]

key_rank-none :
    (key : ℕ) (x : Item) (xs : List Item)
    → key ≤ x.sort_key
    → All (IsBelow x) xs
    → key_rank key xs ≡ 0
key_rank-none key x [] h hs = refl
key_rank-none key x (y ∷ ys) h (k, ks) = ground (arith, IsBelow-key x y k)

within-none :
    (window : SortKeyWindow) (x : Item) (xs : List Item)
    → window.until ≤ x.sort_key
    → All (IsBelow x) xs
    → within window xs ≡ []
unfolding within
within-none window x [] h hs = refl
within-none window x (y ∷ ys) h (k, ks) =
    ground (arith, IsBelow-key x y k, within-none window x ys h ks)

-- In a sorted list the items of a window are those between two ranks.
slice-within :
    (window : SortKeyWindow) (xs : List Item)
    → IsSorted xs
    → slice
        (key_rank window.since xs)
        (max (key_rank window.until xs) (key_rank window.since xs))
        xs
      ≡ within window xs
unfolding within
slice-within window [] h = refl
slice-within window (x ∷ xs) (h, hs) =
    let r = key_rank window.since xs in
    let u = key_rank window.until xs in
    elim (Bool-cases (ltb x.sort_key window.since)) [
      | inl y ↦
          let past : leb window.since x.sort_key ≡ false = ground (arith, y) in
          elim (Bool-cases (ltb x.sort_key window.until)) [
            | inl z ↦
                let e : max (suc u) (suc r) ≡ suc (max u r) = omega arith in
                let f : suc (max u r) - suc r ≡ max u r - r = omega arith in
                rw (past, y, z, within, e, f) (slice-within window xs hs)
            | inr z ↦
                let e : max 0 (suc r) - suc r ≡ 0 = omega arith in
                rw (past, y, z, within, e, within-none window x xs (ltb→ge _ _ z) h) refl
          ]
      | inr y ↦
          let past : leb window.since x.sort_key ≡ true = ground (arith, y) in
          elim (Bool-cases (ltb x.sort_key window.until)) [
            | inl z ↦
                let e : max (suc u) 0 - 0 ≡ suc u = omega arith in
                let f : max u 0 - 0 ≡ u = omega arith in
                let none_below = key_rank-none window.since x xs (ltb→ge _ _ y) h in
                let rest : take u xs ≡ within window xs =
                  subst (λ n. take n xs ≡ within window xs) f
                    (subst (λ n. slice n (max u n) xs ≡ within window xs) none_below
                      (slice-within window xs hs)) in
                rw (past, y, z, within, e) (ap (λ l. x ∷ l) rest)
            | inr z ↦ rw (past, y, z, within, within-none window x xs (ltb→ge _ _ z) h) refl
          ]
    ]

key_rank-length : (key : ℕ) (xs : List Item) → key_rank key xs ≤ length xs
key_rank-length key [] = omega arith
key_rank-length key (x ∷ xs) = ground (arith, key_rank-length key xs)

-- The ids in a tree are ids.
pub items-IsEntryId : (t : Tree) → IsSummarized t → All (λ x. IsEntryId x.id) (items t)
items-IsEntryId nil h = tt
items-IsEntryId (node item left right c s) (_, _, i, hl, hr) =
    All-append (λ x. IsEntryId x.id) (items left) (item ∷ items right) (items-IsEntryId left hl)
      (i, items-IsEntryId right hr)

pub IsEntryId-Has32 : (xs : List Item) → All (λ x. IsEntryId x.id) xs → All Has32 xs
IsEntryId-Has32 [] h = tt
IsEntryId-Has32 (x ∷ xs) (h, hs) = (h.0, IsEntryId-Has32 xs hs)

iter_range-tree :
    (t : Tree) (lo hi : ℕ)
    → IsSummarized t
    → size t < 2 ^ 32
    → lo ≤ hi
    → hi ≤ size t
    → tree_index.iter_range t lo hi ≡ some (slice lo hi (items t))
iter_range-tree t lo hi h k a b =
    let (iter, ranged, stacked, collected) =
      iter_range-slice t lo hi (hi - lo) h k a b (omega arith) in
    rw (ranged, tree_index) (ap some collected)

module _ {J : Type 0} where
  -- Over an index that is in order with the right counts and fewer than 2^32 items, `snapshot` does not
  -- panic, and it is the items of the window, all of them and in order.
  pub snapshot-within :
      (store : EntryStore Tree J) (window : SortKeyWindow)
      → IsIndex store.order
      → size store.order < 2 ^ 32
      → snapshot tree_index store window ≡ some (within window (items store.order))
  unfolding snapshot
  snapshot-within store window index k =
      let ids = IsEntryId-Has32 (items store.order) (items-IsEntryId store.order index.1) in
      let xs = items store.order in
      let since : Item = record { sort_key = window.since; id = zeros 32 } in
      let until : Item = record { sort_key = window.until; id = zeros 32 } in
      let lo = lower_bound store.order since in
      let hi = lower_bound store.order until in
      let e = lower_bound-rank_of store.order since index ∙ rank_of-key window.since xs ids in
      let f = lower_bound-rank_of store.order until index ∙ rank_of-key window.until xs ids in
      let same : slice lo (max hi lo) xs ≡ within window xs =
        rw (e, f) (slice-within window xs index.0) in
      let l = key_rank-length window.since xs in
      let u = key_rank-length window.until xs in
      iter_range-tree store.order lo (max hi lo) index.1 k (omega arith)
        (omega (arith, size-items store.order, e, f, l, u))
      ∙ ap some same
