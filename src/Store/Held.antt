-- ===== src/Store/Held.antt =====
-- What `insert` of core/src/store/mod.rs lets into the store, and what it leaves alone.
use racnet.Prelude.{
  ◌≡◌, ◌≢◌, inl, inr, refl, Bool, true, Bytes, Option, none, some, leb, length, ◌==◌, ◌=?◌,
  if◌then◌else◌, arith, Outcome, ok, u64_max, bytes_eq, subst, bytes_beq_iff, contains_key,
  Option-cases, lookup-insert, contains_key-lookup, Bool-cases, Outcome-cases,
}
use racnet.Wire.Payload.{Entry}
use racnet.Wire.Entry
use racnet.Wire.Entry.{Signing, verify}
use racnet.Store.{
  StoreError, OrderIndex, Journal, EntryStore, insert_entry, append_and_hold, hold, get,
  max_entries,
}

module _ {O J : Type 0} (c : Signing) (index : OrderIndex O) (journals : Journal J) where
  -- An entry that may be held under an id: its signature verifies, the id is its own, and its sort key is
  -- not the reserved one.
  pub record IsHoldable (id : Bytes) (entry : Entry) : Type 0 where
    pub verified : verify c entry ≡ ok tt
    pub own_id : Entry.id c entry ≡ id
    pub unreserved : entry.sort_key ≢ u64_max

  abbrev pub IsSound : EntryStore O J → Type 0
  IsSound store = (id : Bytes) (entry : Entry) → get store id ≡ some entry → IsHoldable id entry

  -- What is found under an id after an insertion is the entry inserted there, or was there before.
  chosen :
      (id id' : Bytes) (entry entry' : Entry) (before : Option Entry)
      → IsHoldable id entry
      → (before ≡ some entry' → IsHoldable id' entry')
      → (if id =? id' then some entry else before) ≡ some entry'
      → IsHoldable id' entry'
  chosen id id' entry entry' before h old e = elim (Bool-cases (id =? id')) [
    | inl same ↦
        let it : entry ≡ entry' = ground (arith, e, same) in
        subst (λ i. IsHoldable i entry') ((bytes_beq_iff id id').0 same)
          (subst (λ x. IsHoldable id x) it h)
    | inr other ↦ old (ground (arith, e, other))
  ]

  hold-IsSound :
      (store : EntryStore O J) (id : Bytes) (entry : Entry)
      → IsHoldable id entry
      → IsSound store
      → IsSound (hold c index journals store id entry).1
  unfolding hold get
  hold-IsSound store id entry h sound id' entry' =
      elim (Option-cases
        (index.insert_item (record { sort_key = entry.sort_key; id = id }) store.order)) [
          | inl e ↦ rw (e, hold) (sound id' entry')
          | inr (order, e) ↦
              rw (e, hold)
                (λ f.
                  chosen id id' entry entry' (get store id') h (sound id' entry')
                    (subst (λ o. o ≡ some entry') (lookup-insert id id' entry store.entries) f))
        ]

  append_and_hold-IsSound :
      (store : EntryStore O J) (id : Bytes) (entry : Entry) (journal : Option J)
      → IsHoldable id entry
      → IsSound store
      → IsSound (append_and_hold c index journals store id entry journal).1
  unfolding append_and_hold get
  append_and_hold-IsSound store id entry none h sound = hold-IsSound store id entry h sound
  append_and_hold-IsSound store id entry (some j) h sound =
      elim (Bool-cases (leb max_entries (length store.entries))) [
        | inl full ↦ rw full sound
        | inr room ↦ elim (Outcome-cases (journals.append j entry).0) [
          | inl (u, e) ↦
              rw (room, e)
                (hold-IsSound (record store { journal = some (journals.append j entry).1 }) id entry
                  h sound)
          | inr (inl (x, e)) ↦ rw (room, e) sound
          | inr (inr e) ↦ rw (room, e) sound
        ]
      ]

  -- Whatever `insert` is given and answers, a store that holds verified entries only, each under its own id
  -- and none with the reserved sort key, stays such a store.
  pub insert_entry-IsSound :
      (entry : Entry) (store : EntryStore O J)
      → IsSound store
      → IsSound (insert_entry c index journals entry store).1
  unfolding insert_entry
  insert_entry-IsSound entry store sound = elim (Bool-cases (entry.sort_key == u64_max)) [
    | inl reserved ↦ rw (reserved, insert_entry) sound
    | inr free ↦ elim (Outcome-cases (verify c entry)) [
      | inl (u, e) ↦ elim (Bool-cases (contains_key (Entry.id c entry) store.entries)) [
        | inl held ↦ rw (free, e, held, insert_entry) sound
        | inr new ↦
            rw (free, e, new, insert_entry)
              (append_and_hold-IsSound store (Entry.id c entry) entry store.journal
                (record {
                  verified = e;
                  own_id = refl;
                  unreserved = λ q. absurd (ground (arith, q, free));
                })
                sound)
      ]
      | inr (inl (x, e)) ↦ rw (free, e, insert_entry) sound
      | inr (inr e) ↦ rw (free, e, insert_entry) sound
    ]
  ]

  -- An answer `true` comes with the entry added under its id and nothing else changed; with any other
  -- answer the entries are those before.
  abbrev pub IsExact :
      EntryStore O J → Bytes → Entry → Outcome StoreError Bool × EntryStore O J → Type 0
  IsExact store id entry (r, store') =
      (r ≡ ok true → (j : Bytes) → get store' j ≡ (if id =? j then some entry else get store j))
      × (r ≢ ok true → store'.entries ≡ store.entries)

  unchanged :
      (store : EntryStore O J) (id : Bytes) (entry : Entry) (r : Outcome StoreError Bool)
      → r ≢ ok true
      → IsExact store id entry (r, store)
  unchanged store id entry r ne = (λ e. absurd (ne e), λ _. refl)

  hold-IsExact :
      (store store' : EntryStore O J) (id : Bytes) (entry : Entry)
      → store'.entries ≡ store.entries
      → IsExact store id entry (hold c index journals store' id entry)
  unfolding hold get
  hold-IsExact store store' id entry same =
      elim (Option-cases
        (index.insert_item (record { sort_key = entry.sort_key; id = id }) store'.order)) [
          | inl e ↦ rw (e, hold) (λ f. cc, λ _. same)
          | inr (order, e) ↦
              rw (e, hold, same)
                (λ f j. lookup-insert id j entry store.entries, λ ne. absurd (ne refl))
        ]

  append_and_hold-IsExact :
      (store : EntryStore O J) (id : Bytes) (entry : Entry) (journal : Option J)
      → IsExact store id entry (append_and_hold c index journals store id entry journal)
  unfolding append_and_hold hold get
  append_and_hold-IsExact store id entry none = hold-IsExact store store id entry refl
  append_and_hold-IsExact store id entry (some j) =
      elim (Bool-cases (leb max_entries (length store.entries))) [
        | inl full ↦ rw full (unchanged store id entry _ (λ e. cc))
        | inr room ↦ elim (Outcome-cases (journals.append j entry).0) [
          | inl (u, e) ↦
              rw (room, e)
                (hold-IsExact store (record store { journal = some (journals.append j entry).1 }) id
                  entry refl)
          | inr (inl (x, e)) ↦ rw (room, e) (λ e. cc, λ _. refl)
          | inr (inr e) ↦ rw (room, e) (λ e. cc, λ _. refl)
        ]
      ]

  -- An insertion that answers `true` was of an entry whose id was not held, and adds it under its id and
  -- nothing else; whatever else it answers, the entries held are those before.
  pub insert_entry-IsExact :
      (entry : Entry) (store : EntryStore O J)
      → ((insert_entry c index journals entry store).0 ≡ ok true
          → get store (Entry.id c entry) ≡ none)
        × IsExact store (Entry.id c entry) entry (insert_entry c index journals entry store)
  unfolding insert_entry get
  insert_entry-IsExact entry store =
      let id = Entry.id c entry in
      elim (Bool-cases (entry.sort_key == u64_max)) [
        | inl reserved ↦ rw (reserved, insert_entry) (λ q. cc, unchanged store id entry _ (λ e. cc))
        | inr free ↦ elim (Outcome-cases (verify c entry)) [
          | inl (u, e) ↦ elim (Bool-cases (contains_key id store.entries)) [
            | inl held ↦
                rw (free, e, held, insert_entry) (λ q. cc, unchanged store id entry _ (λ e. cc))
            | inr new ↦
                rw (free, e, new, insert_entry)
                  (
                    λ q. contains_key-lookup id store.entries new,
                    append_and_hold-IsExact store id entry store.journal,
                  )
          ]
          | inr (inl (x, e)) ↦
              rw (free, e, insert_entry) (λ q. cc, unchanged store id entry _ (λ e. cc))
          | inr (inr e) ↦ rw (free, e, insert_entry) (λ q. cc, unchanged store id entry _ (λ e. cc))
        ]
      ]
