-- ===== src/Sync/Session/Push.antt =====
-- The entries that core/src/sync/session.rs pushes, in batches.
use racnet.Prelude.{
  ℕ, ◌+◌, ◌≤◌, ◌<◌, ◌≡◌, ◌⊎◌, inl, inr, refl, ap, ◌∙◌, ◌&&◌, List, [], ◌∷◌, ◌++◌, append_assoc,
  Bytes, none, some, length, length-append, ltb, bytes_eq, arith, All, Bool-cases, Option-cases,
}
use racnet.Wire.Payload.{Entry}
use racnet.Wire.Msg.{Message}
use racnet.Wire.Entry
use racnet.Wire.Entry.{Signing}
use racnet.Store.{OrderIndex, Journal, EntryStore, get}
use racnet.Sync.Session.{batches_from, push_batches, push_batch_budget}

-- The entries of the pushes among some messages, in their order.
abbrev pub pushed_entries : List Message → List Entry
pushed_entries [] = []
pushed_entries (Message.gossip_push p ∷ msgs) = p.entries ++ pushed_entries msgs
pushed_entries (_ ∷ msgs) = pushed_entries msgs

module _ {O J : Type 0} where
  -- The entries that the store has under some ids, in their order.
  abbrev pub found : EntryStore O J → List Bytes → List Entry
  found store [] = []
  found store (id ∷ ids) = elim (get store id) [
    | none ↦ found store ids
    | some entry ↦ entry ∷ found store ids
  ]

module _ (c : Signing) where
  abbrev pub size_of : List Entry → ℕ
  size_of [] = 0
  size_of (e ∷ es) = length (Entry.to_bytes c e) + size_of es

  -- A push with the time to live given, of one entry at least, and within the budget if there are more.
  abbrev pub IsBatch : ℕ → Message → Type 0
  IsBatch ttl (Message.gossip_push p) =
      (p.ttl ≡ ttl)
      × (0 < length p.entries)
      × ((length p.entries ≤ 1) ⊎ (size_of p.entries ≤ push_batch_budget))
  IsBatch ttl msg = (msg ≡ msg) × (1 ≤ 0)

module _ {O J : Type 0} (c : Signing) (index : OrderIndex O) (journals : Journal J) where
  batches_from-entries :
      (store : EntryStore O J) (ttl : ℕ) (ids : List Bytes) (batch : List Entry) (size : ℕ)
      → pushed_entries (batches_from c index journals store ttl ids batch size)
        ≡ batch ++ found store ids
  unfolding batches_from
  batches_from-entries store ttl [] [] size = refl
  batches_from-entries store ttl [] (e ∷ batch) size = refl
  batches_from-entries store ttl (id ∷ ids) batch size = elim (Option-cases (get store id)) [
    | inl e ↦ rw (e, batches_from, found) (batches_from-entries store ttl ids batch size)
    | inr (entry, e) ↦
        let more = length (Entry.to_bytes c entry) in
        elim (Bool-cases (ltb 0 (length batch) && ltb push_batch_budget (size + more))) [
          | inl full ↦
              rw (e, full, batches_from, found)
                (ap (λ r. batch ++ r) (batches_from-entries store ttl ids (entry ∷ []) more))
          | inr room ↦
              rw (e, room, batches_from, found)
                (batches_from-entries store ttl ids (batch ++ (entry ∷ [])) (size + more)
                  ∙ append_assoc batch (entry ∷ []) (found store ids))
        ]
  ]

  -- The batches hold exactly the entries that the store has under the ids, in the order of the ids.
  pub push_batches-entries :
      (store : EntryStore O J) (ids : List Bytes) (ttl : ℕ)
      → pushed_entries (push_batches c index journals store ids ttl) ≡ found store ids
  unfolding push_batches
  push_batches-entries store ids ttl = batches_from-entries store ttl ids [] 0

  size_of-append_one :
      (batch : List Entry) (e : Entry)
      → size_of c (batch ++ (e ∷ [])) ≡ size_of c batch + length (Entry.to_bytes c e)
  size_of-append_one [] e = omega arith
  size_of-append_one (b ∷ batch) e = omega (arith, size_of-append_one batch e)

  batches_from-IsBatch :
      (store : EntryStore O J) (ttl : ℕ) (ids : List Bytes) (batch : List Entry) (size : ℕ)
      → size ≡ size_of c batch
      → (length batch ≤ 1) ⊎ (size ≤ push_batch_budget)
      → All (IsBatch c ttl) (batches_from c index journals store ttl ids batch size)
  unfolding batches_from
  batches_from-IsBatch store ttl [] [] size s fits = tt
  batches_from-IsBatch store ttl [] (e ∷ batch) size s fits =
      ((refl, omega arith, ground (arith, s, fits)), tt)
  batches_from-IsBatch store ttl (id ∷ ids) batch size s fits = elim (Option-cases (get store id)) [
    | inl e ↦ rw (e, batches_from) (batches_from-IsBatch store ttl ids batch size s fits)
    | inr (entry, e) ↦
        let more = length (Entry.to_bytes c entry) in
        elim (Bool-cases (ltb 0 (length batch) && ltb push_batch_budget (size + more))) [
          | inl full ↦
              rw (e, full, batches_from)
                (
                  (refl, ground (arith, full), ground (arith, s, fits)),
                  batches_from-IsBatch store ttl ids (entry ∷ []) more (omega arith)
                      (inl (omega arith)),
                )
          | inr room ↦
              rw (e, room, batches_from)
                (batches_from-IsBatch store ttl ids (batch ++ (entry ∷ [])) (size + more)
                  (omega (arith, s, size_of-append_one batch entry))
                  (ground (arith, room, length-append batch (entry ∷ []))))
        ]
  ]

  -- Every message is a push with the time to live given and one entry at least, and a push whose
  -- entries are beyond the budget together has a single one.
  pub push_batches-IsBatch :
      (store : EntryStore O J) (ids : List Bytes) (ttl : ℕ)
      → All (IsBatch c ttl) (push_batches c index journals store ids ttl)
  unfolding push_batches
  push_batches-IsBatch store ids ttl =
      batches_from-IsBatch store ttl ids [] 0 refl (inl (omega arith))
