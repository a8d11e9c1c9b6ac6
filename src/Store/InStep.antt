-- ===== src/Store/InStep.antt =====
-- The index of core/src/store/mod.rs in step with the entries: `insert` over the tree of
-- core/src/store/order.rs never panics on its own and indexes exactly what is held.
use racnet.Prelude.{
  u64_max, ◌+◌, ◌^◌, ◌<◌, ◌≡◌, ◌≢◌, ◌==◌, ◌=?◌, refl, ap, sym, ◌∙◌, Bool, true, false, ◌&&◌, not,
  List, [], ◌∷◌, Option, none, some, length, leb, arith, if◌then◌else◌, Bool-cases, inl, inr, subst,
  Outcome, ok, panic, Outcome-cases, bytes_eq, bytes_beq_iff, lookup-insert, length-insert_new,
  contains_key-lookup, contains_key,
}
use Prim.Native.Nat.{Ordering}
use Prim.Native.Nat.Ordering.{lt, eq, gt}
use racnet.Wire.Payload.{Entry}
use racnet.Wire.Entry
use racnet.Wire.Entry.{Signing, verify}
use racnet.Store.{
  Item, StoreError, Journal, EntryStore, insert_entry, append_and_hold, hold, get, max_entries,
}
use racnet.Store.ItemOrder.{cmp_bytes_refl, cmp_bytes-eq, cmp, cmp-eq}
use racnet.Store.Order.{Tree}
use racnet.Store.Order.Sorted.{length-insert_sorted, insert_sorted, is_new}
use racnet.Store.Order.Shape.{items, size, size-items, IsIndex}
use racnet.Store.Order.Inserted.{insert-IsIndex}
use racnet.Store.Indexed.{tree_index}
use racnet.Sync.IdSum.Sums.{IsEntryId}

is_other : Ordering → Bool
is_other lt = true
is_other eq = false
is_other gt = true

is_new-insert_sorted :
    (item i : Item) (xs : List Item)
    → is_new item (insert_sorted i xs) ≡ (is_other (cmp item i) && is_new item xs)
unfolding is_new insert_sorted is_other
is_new-insert_sorted item i [] = ground arith
is_new-insert_sorted item i (x ∷ xs) = ground (arith, cmp-eq i x, is_new-insert_sorted item i xs)

-- Whether the entry found under the id of an item is that item.
abbrev pub is_item : Item → Option Entry → Bool
is_item item none = false
is_item item (some entry) = item.sort_key == entry.sort_key

module _ {J : Type 0} (c : Signing) (journals : Journal J) where
  -- The index is right, and its items are those of the entries held.
  pub record IsInStep (store : EntryStore Tree J) : Type 0 where
    pub index : IsIndex store.order
    pub count : size store.order ≡ length store.entries
    pub same :
        (item : Item) → is_new item (items store.order) ≡ not (is_item item (get store item.id))

  same_held :
      (item other : Item) (entry : Entry) (before : Option Entry) (new : Bool)
      → item.sort_key ≡ entry.sort_key
      → (item.id ≡ other.id → before ≡ none)
      → new ≡ not (is_item other before)
      → (is_other (cmp other item) && new)
        ≡ not (is_item other (if item.id =? other.id then some entry else before))
  unfolding cmp is_other
  same_held item other entry before new k fresh e = elim (Bool-cases (item.id =? other.id)) [
    | inl y ↦
        let ids = (bytes_beq_iff item.id other.id).0 y in
        let none_before = fresh ids in
        let it = cmp_bytes_refl other.id in rw (y, ids) (ground (arith, e, none_before, k, it))
    | inr y ↦
        rw y (ground (arith, e, k, bytes_beq_iff item.id other.id, cmp_bytes-eq other.id item.id))
  ]

  hold-IsInStep :
      (store : EntryStore Tree J) (entry : Entry)
      → IsEntryId (Entry.id c entry)
      → get store (Entry.id c entry) ≡ none
      → 1 + length store.entries < 2 ^ 32
      → IsInStep store
      → ((hold c tree_index journals store (Entry.id c entry) entry).0 ≡ ok true)
        × IsInStep (hold c tree_index journals store (Entry.id c entry) entry).1
  unfolding hold get
  hold-IsInStep store entry i fresh k h =
      let id = Entry.id c entry in
      let item : Item = record { sort_key = entry.sort_key; id = id } in
      let (t, done, e, index) =
        insert-IsIndex store.order item h.index i (omega (arith, h.count)) in
      let new : is_new item (items store.order) ≡ true =
        h.same item ∙ ap (λ o. not (is_item item o)) fresh in
      let more = length-insert_sorted item (items store.order) h.index.0 in
      let n = size-items store.order in
      let m = size-items t in
      let longer = ap length e in
      let entries = length-insert_new id entry store.entries fresh in
      rw (done, hold)
        (
          refl,
          record {
            index = index;
            count = ground (arith, new, more, n, m, longer, entries, h.count);
            same = λ other.
                ap (is_new other) e
                ∙ is_new-insert_sorted other item (items store.order)
                ∙ same_held item other entry (get store other.id) (is_new other (items store.order))
                    refl (λ ids. subst (λ j. get store j ≡ none) ids fresh) (h.same other)
                ∙ ap (λ o. not (is_item other o))
                    (sym (lookup-insert id other.id entry store.entries));
          },
        )

  verify_decides : (entry : Entry) → verify c entry ≢ panic
  unfolding verify
  verify_decides entry e =
      ground (arith, Bool-cases (c.verify_strict entry.author (Entry.tbs_bytes c entry) entry.sig))

  abbrev pub IsKept : Outcome StoreError Bool × EntryStore Tree J → Type 0
  IsKept (r, store) = (r ≢ panic) × IsInStep store

  append_and_hold-IsInStep :
      (store : EntryStore Tree J) (entry : Entry) (journal : Option J)
      → IsEntryId (Entry.id c entry)
      → get store (Entry.id c entry) ≡ none
      → 1 + length store.entries < 2 ^ 32
      → ((j : J) → (journals.append j entry).0 ≢ panic)
      → IsInStep store
      → IsKept (append_and_hold c tree_index journals store (Entry.id c entry) entry journal)
  unfolding append_and_hold get
  append_and_hold-IsInStep store entry none i fresh k safe h =
      let (e, h') = hold-IsInStep store entry i fresh k h in (λ p. cc, h')
  append_and_hold-IsInStep store entry (some j) i fresh k safe h =
      elim (Bool-cases (leb max_entries (length store.entries))) [
        | inl full ↦ rw full (λ p. cc, h)
        | inr room ↦
            let store' : EntryStore Tree J = record store {
              journal = some (journals.append j entry).1;
            } in
            let h0 : IsInStep store' = record { index = h.index; count = h.count; same = h.same } in
            elim (Outcome-cases (journals.append j entry).0) [
              | inl (u, e) ↦
                  let (f, h') = hold-IsInStep store' entry i fresh k h0 in
                  rw (room, e) (λ p. cc, h')
              | inr (inl (x, e)) ↦ rw (room, e) (λ p. cc, h0)
              | inr (inr e) ↦ absurd (safe j e)
            ]
      ]

  -- Over the tree, with ids of 32 bytes and a journal that does not panic, `insert` does not panic on a
  -- store of fewer than 2^32 - 1 entries, and whatever it answers the index stays right and in step: its
  -- items are those of the entries held, no more and no fewer.
  pub insert_entry-IsInStep :
      (entry : Entry) (store : EntryStore Tree J)
      → IsEntryId (Entry.id c entry)
      → 1 + length store.entries < 2 ^ 32
      → ((j : J) → (journals.append j entry).0 ≢ panic)
      → IsInStep store
      → IsKept (insert_entry c tree_index journals entry store)
  unfolding insert_entry get
  insert_entry-IsInStep entry store i k safe h = elim (Bool-cases (entry.sort_key == u64_max)) [
    | inl reserved ↦ rw (reserved, insert_entry) (λ p. cc, h)
    | inr free ↦ elim (Outcome-cases (verify c entry)) [
      | inl (u, e) ↦ elim (Bool-cases (contains_key (Entry.id c entry) store.entries)) [
        | inl held ↦ rw (free, e, held, insert_entry) (λ p. cc, h)
        | inr new ↦
            rw (free, e, new, insert_entry)
              (append_and_hold-IsInStep store entry store.journal i
                (contains_key-lookup (Entry.id c entry) store.entries new) k safe h)
      ]
      | inr (inl (x, e)) ↦ rw (free, e, insert_entry) (λ p. cc, h)
      | inr (inr e) ↦ absurd (verify_decides entry e)
    ]
  ]
