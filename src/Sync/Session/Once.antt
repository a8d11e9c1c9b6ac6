-- ===== src/Sync/Session/Once.antt =====
-- The filter on `session.pushed` of core/src/sync/session.rs, and the entries behind the ids that it lets through.
use racnet.Prelude.{
  ap, sym, ◌∙◌, append_assoc, Option-cases, nat_eq, ◌≡◌, inl, inr, refl, true, false, List, [], ◌∷◌,
  ◌++◌, Bytes, if◌then◌else◌, bytes_eq, bytes_beq_iff, arith, Bool-cases,
}
use racnet.Wire.Payload.{Entry}
use racnet.Wire.Entry
use racnet.Wire.Entry.{Signing}
use racnet.Wire.Msg.{Message}
use racnet.Store.{OrderIndex, Journal, EntryStore, get}
use racnet.Store.Held.{IsSound}
use racnet.Sync.Session.{insert_new, mem}
use racnet.Sync.Session.Push.{pushed_entries, found}

-- No element stands twice.
abbrev pub IsDistinct : List Bytes → Type 0
IsDistinct [] = Unit {0}
IsDistinct (x ∷ xs) = (mem x xs ≡ false) × IsDistinct xs

pub insert_new_set :
    (xs set : List Bytes) (x : Bytes)
    → mem x (insert_new xs set).1 ≡ (if mem x set then true else mem x xs)
unfolding insert_new
insert_new_set [] set x = ground arith
insert_new_set (y ∷ ys) set x = elim (Bool-cases (mem y set)) [
  | inl old ↦ rw old (ground (arith, insert_new_set ys set x, bytes_beq_iff y x))
  | inr new ↦ rw new (ground (arith, insert_new_set ys (y ∷ set) x, bytes_beq_iff y x))
]

pub insert_new_kept :
    (xs set : List Bytes) (x : Bytes)
    → mem x (insert_new xs set).0 ≡ (if mem x set then false else mem x xs)
unfolding insert_new
insert_new_kept [] set x = ground arith
insert_new_kept (y ∷ ys) set x = elim (Bool-cases (mem y set)) [
  | inl old ↦ rw old (ground (arith, insert_new_kept ys set x, bytes_beq_iff y x))
  | inr new ↦ rw new (ground (arith, insert_new_kept ys (y ∷ set) x, bytes_beq_iff y x))
]

pub mem-append :
    (x : Bytes) (xs ys : List Bytes) → mem x (xs ++ ys) ≡ (if mem x xs then true else mem x ys)
mem-append x [] ys = refl
mem-append x (y ∷ xs) ys = ground (arith, mem-append x xs ys)

pub insert_new-IsDistinct : (xs set : List Bytes) → IsDistinct (insert_new xs set).0
unfolding insert_new
insert_new-IsDistinct [] set = tt
insert_new-IsDistinct (y ∷ ys) set = elim (Bool-cases (mem y set)) [
  | inl old ↦ rw old (insert_new-IsDistinct ys set)
  | inr new ↦ rw new (
    ground (arith, insert_new_kept ys (y ∷ set) y, bytes_beq_iff y y),
    insert_new-IsDistinct ys (y ∷ set),
  )
]

pub IsDistinct-append :
    (xs ys : List Bytes)
    → IsDistinct xs
    → IsDistinct ys
    → ((x : Bytes) → mem x xs ≡ true → mem x ys ≡ false)
    → IsDistinct (xs ++ ys)
IsDistinct-append [] ys h h' apart = h'
IsDistinct-append (x ∷ xs) ys (fresh, h) h' apart = (
  ground (arith, fresh, mem-append x xs ys, apart x, bytes_beq_iff x x),
  IsDistinct-append xs ys h h' (λ z m. apart z (ground (arith, m))),
)

-- The ids of some entries.
abbrev pub ids_of : Signing → List Entry → List Bytes
ids_of c [] = []
ids_of c (entry ∷ entries) = Entry.id c entry ∷ ids_of c entries

pub pushed_entries-append :
    (xs ys : List Message) → pushed_entries (xs ++ ys) ≡ pushed_entries xs ++ pushed_entries ys
pushed_entries-append [] ys = refl
pushed_entries-append (Message.gossip_push m ∷ xs) ys =
    ap (λ r. m.entries ++ r) (pushed_entries-append xs ys)
    ∙ sym (append_assoc m.entries (pushed_entries xs) (pushed_entries ys))
pushed_entries-append (Message.hello m ∷ xs) ys = pushed_entries-append xs ys
pushed_entries-append (Message.handshake m ∷ xs) ys = pushed_entries-append xs ys
pushed_entries-append (Message.recon_init m ∷ xs) ys = pushed_entries-append xs ys
pushed_entries-append (Message.recon_msg m ∷ xs) ys = pushed_entries-append xs ys
pushed_entries-append (Message.recon_done m ∷ xs) ys = pushed_entries-append xs ys
pushed_entries-append (Message.error m ∷ xs) ys = pushed_entries-append xs ys

module _ {O J : Type 0} (c : Signing) (index : OrderIndex O) (journals : Journal J)
    (store : EntryStore O J) (sound : IsSound c index journals store) where
  -- What is found under some ids are entries with those ids, in a sound store.
  pub found_among :
      (ids : List Bytes) (x : Bytes)
      → mem x ids ≡ false
      → mem x (ids_of c (found store ids)) ≡ false
  found_among [] x h = refl
  found_among (id ∷ ids) x h = elim (Option-cases (get store id)) [
    | inl e ↦ rw (e, mem, ids_of, found) (found_among ids x (ground (arith, h)))
    | inr (entry, e) ↦
        let own = (sound id entry e).own_id in
        rw (e, own, mem, ids_of, found) (ground (arith, h, found_among ids x))
  ]

  pub found-IsDistinct :
      (ids : List Bytes) → IsDistinct ids → IsDistinct (ids_of c (found store ids))
  found-IsDistinct [] h = tt
  found-IsDistinct (id ∷ ids) (h, hs) = elim (Option-cases (get store id)) [
    | inl e ↦ rw (e, IsDistinct, ids_of, found) (found-IsDistinct ids hs)
    | inr (entry, e) ↦
        let own = (sound id entry e).own_id in
        rw (e, own, IsDistinct, ids_of, found) (found_among ids id h, found-IsDistinct ids hs)
  ]
