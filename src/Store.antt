-- ===== src/Store.antt =====
-- core/src/store/mod.rs and core/src/store/item.rs: the store of signed entries. The order index of
-- core/src/store/order.rs and the journal of core/src/store/journal.rs are the interfaces
-- `OrderIndex` and `Journal`.
pub mod ItemOrder
pub mod Order
pub mod Indexed
pub mod InStep
pub mod Held
pub mod Runs
use racnet.Prelude.{
  ℕ, Bool, true, false, Bytes, List, Option, none, some, length, zeros, leb, ◌==◌, if◌then◌else◌,
  Outcome, ok, err, panic, max, u64_max, Table, lookup, contains_key, insert, bytes_eq, [],
}
use racnet.Wire.Payload.{Entry, SortKeyWindow}
use racnet.Wire.Entry
use racnet.Wire.Entry.{Signing, verify}

pub record Item : Type 0 where
  pub sort_key : ℕ
  pub id : Bytes

pub data StoreError : Type 0 where
  storage capacity bad_signature sort_key_reserved : StoreError

-- `insert`, `lower_bound` and `iter_range` of `OrderIndex`; `none` is a panic.
pub record OrderIndex (O : Type 0) : Type 0 where
  pub empty : O
  pub insert_item : Item → O → Option O
  pub lower_bound : O → Item → ℕ
  pub iter_range : O → ℕ → ℕ → Option (List Item)

-- `append` of `Journal`: the journal comes back beside the result.
pub record Journal (J : Type 0) : Type 0 where
  pub append : J → Entry → Outcome StoreError (Unit {0}) × J

-- `journal::MAX_ENTRIES`
abbrev pub max_entries : ℕ
max_entries = 10000

pub record EntryStore (O J : Type 0) : Type 0 where
  pub entries : Table Bytes Entry
  pub order : O
  pub journal : Option J

module _ {O J : Type 0} where
  unfoldable pub get : EntryStore O J → Bytes → Option Entry
  get store id = lookup id store.entries

  unfoldable pub contains : EntryStore O J → Bytes → Bool
  contains store id = contains_key id store.entries

  unfoldable pub snapshot : OrderIndex O → EntryStore O J → SortKeyWindow → Option (List Item)
  snapshot index store window =
      let lo = index.lower_bound store.order (record { sort_key = window.since; id = zeros 32 }) in
      let hi = index.lower_bound store.order (record { sort_key = window.until; id = zeros 32 }) in
      index.iter_range store.order lo (max hi lo)

module _ {O J : Type 0} (c : Signing) (index : OrderIndex O) (journals : Journal J) where
  abbrev pub new : EntryStore O J
  new = record { entries = []; order = index.empty; journal = none }

  -- The end of `insert`, once the journal has the entry.
  unfoldable pub hold : EntryStore O J → Bytes → Entry → Outcome StoreError Bool × EntryStore O J
  hold store id entry =
      elim (index.insert_item (record { sort_key = entry.sort_key; id = id }) store.order) [
        | none ↦ (panic, store)
        | some order ↦
            (ok true, record store { entries = insert id entry store.entries; order = order })
      ]

  -- The block of `if let Some(journal)` and what follows it.
  unfoldable pub append_and_hold :
      EntryStore O J → Bytes → Entry → Option J → Outcome StoreError Bool × EntryStore O J
  append_and_hold store id entry none = hold store id entry
  append_and_hold store id entry (some journal) =
      if leb max_entries (length store.entries)
      then (err capacity, store)
      else let (r, journal') = journals.append journal entry in
        let store' = record store { journal = some journal' } in
        elim r [ ok _ ↦ hold store' id entry | err e ↦ (err e, store') | panic ↦ (panic, store') ]

  unfoldable pub insert_entry : Entry → EntryStore O J → Outcome StoreError Bool × EntryStore O J
  insert_entry entry store =
      if entry.sort_key == u64_max then (err sort_key_reserved, store) else elim (verify c entry) [
        | err _ ↦ (err bad_signature, store)
        | panic ↦ (panic, store)
        | ok _ ↦
            let id = Entry.id c entry in
            if contains_key id store.entries
            then (ok false, store)
            else append_and_hold store id entry store.journal
      ]
