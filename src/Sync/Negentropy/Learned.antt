-- ===== src/Sync/Negentropy/Learned.antt =====
-- What an initiator learns from an id list: core/src/sync/negentropy/mod.rs.
use racnet.Prelude.{
  ℕ, ◌*◌, ◌/◌, ◌^◌, ◌<◌, ◌∙◌, ◌++◌, subst, sym, append_assoc, length, length-append, All, some, ok,
  ltb, ge→ltb, split_at-append, ◌≡◌, refl, ap, Bool, true, false, Bytes, List, [], ◌∷◌, ◌&&◌, ◌||◌,
  not, if◌then◌else◌, arith, Bool-cases, inl, inr, ◌=?◌, bytes_eq, bytes_beq_iff,
}
use racnet.Store.{Item}
use racnet.Sync.Session.{mem, insert_new}
use racnet.Sync.Negentropy.Reconcile.{
  Scan, Arm, remove_id, match_items, still_in, read_ids, learn_ids, answer_list, on_id_list,
}
use racnet.Sync.Negentropy.{NegentropyStore, Negentropy}
use racnet.Sync.Error.{SyncError}
use racnet.Sync.Bound.{Bound}
use racnet.Sync.Varint.{write_varint}
use racnet.Sync.Varint.RoundTrip.{read_varint-write_varint}
use racnet.Sync.Session.Once.{mem-append}

-- Whether an item with an id is in a list.
abbrev pub holds_id : Bytes → List Item → Bool
holds_id id [] = false
holds_id id (item ∷ items) = if item.id =? id then true else holds_id id items

-- No id stands twice.
abbrev pub HaveDistinctIds : List Item → Type 0
HaveDistinctIds [] = Unit {0}
HaveDistinctIds (item ∷ items) = (holds_id item.id items ≡ false) × HaveDistinctIds items

mem-remove_id :
    (x id : Bytes) (xs : List Bytes) → mem x (remove_id id xs) ≡ (mem x xs && not (id =? x))
unfolding remove_id
mem-remove_id x id [] = refl
mem-remove_id x id (y ∷ ys) =
    ground (arith, bytes_beq_iff y id, bytes_beq_iff y x, bytes_beq_iff id x, mem-remove_id x id ys)

-- The set that is left are theirs that we do not hold.
mem-match_items_left :
    (x : Bytes) (items : List Item) (theirs : List Bytes)
    → mem x (match_items items theirs).1 ≡ (mem x theirs && not (holds_id x items))
unfolding match_items
mem-match_items_left x [] theirs = ground arith
mem-match_items_left x (item ∷ items) theirs =
    ground (
      arith,
      mem-match_items_left x items (remove_id item.id theirs),
      mem-remove_id x item.id theirs,
    )

mem-match_items_have :
    (x : Bytes) (items : List Item) (theirs : List Bytes)
    → HaveDistinctIds items
    → mem x (match_items items theirs).0 ≡ (holds_id x items && not (mem x theirs))
unfolding match_items
mem-match_items_have x [] theirs h = refl
mem-match_items_have x (item ∷ items) theirs (h, hs) = elim (Bool-cases (item.id =? x)) [
  | inl y ↦
      let same = (bytes_beq_iff item.id x).0 y in
      let e = ap (λ i. mem i theirs) same in
      let f = ap (λ i. holds_id i items) same in
      ground (arith, y, e, f, h, mem-match_items_have x items (remove_id item.id theirs) hs)
  | inr y ↦ ground (
    arith,
    y,
    mem-match_items_have x items (remove_id item.id theirs) hs,
    mem-remove_id x item.id theirs,
  )
]

mem-still_in :
    (x : Bytes) (ids theirs : List Bytes)
    → mem x (still_in ids theirs) ≡ (mem x ids && mem x theirs)
unfolding still_in
mem-still_in x [] theirs = refl
mem-still_in x (id ∷ ids) theirs = ground (arith, bytes_beq_iff id x, mem-still_in x ids theirs)

mem-insert_new :
    (x : Bytes) (ids set : List Bytes)
    → (mem x (insert_new ids set).0 ≡ (mem x ids && not (mem x set)))
      × (mem x (insert_new ids set).1 ≡ (mem x ids || mem x set))
unfolding insert_new
mem-insert_new x [] set = (refl, refl)
mem-insert_new x (id ∷ ids) set = elim (Bool-cases (id =? x)) [
  | inl y ↦
      let e = ap (λ i. mem i set) ((bytes_beq_iff id x).0 y) in
      elim (Bool-cases (mem id set)) [
        | inl z ↦ rw z (ground (arith, y, z, e, mem-insert_new x ids set))
        | inr z ↦ rw z (ground (arith, y, z, e, mem-insert_new x ids (id ∷ set)))
      ]
  | inr y ↦ elim (Bool-cases (mem id set)) [
    | inl z ↦ rw z (ground (arith, y, z, mem-insert_new x ids set))
    | inr z ↦ rw z (ground (arith, y, z, mem-insert_new x ids (id ∷ set)))
  ]
]

-- The sets of the two visitors together, given the items of the range.
learned_ids :
    (x : Bytes) (items : List Item) (received : List Bytes)
    → HaveDistinctIds items
    → (mem x (match_items items (insert_new received []).1).0
        ≡ (holds_id x items && not (mem x received)))
      × (mem x
            (still_in (insert_new received []).0 (match_items items (insert_new received []).1).1)
          ≡ (mem x received && not (holds_id x items)))
learned_ids x items received h =
    let (order, set) = mem-insert_new x received [] in
    let theirs = (insert_new received []).1 in
    let have = mem-match_items_have x items theirs h in
    let left = mem-match_items_left x items theirs in
    let need = mem-still_in x (insert_new received []).0 (match_items items theirs).1 in
    ground (arith, order, set, have, left, need)

-- Ids one after the other.
abbrev pub ids_bytes : List Bytes → Bytes
ids_bytes [] = []
ids_bytes (id ∷ ids) = id ++ ids_bytes ids

length-ids_bytes :
    (ids : List Bytes) → All (λ id. length id ≡ 32) ids → length (ids_bytes ids) ≡ 32 * length ids
length-ids_bytes [] h = refl
length-ids_bytes (id ∷ ids) (h, hs) =
    omega (arith, h, length-append id (ids_bytes ids), length-ids_bytes ids hs)

read_ids-append :
    (ids : List Bytes) (rest : Bytes)
    → All (λ id. length id ≡ 32) ids
    → read_ids (length ids) (ids_bytes ids ++ rest) ≡ ok (ids, rest)
unfolding read_ids
read_ids-append [] rest h = refl
read_ids-append (id ∷ ids) rest (h, hs) = rw (append_assoc id (ids_bytes ids) rest) (
    rw (split_at-append SyncError 32 id (ids_bytes ids ++ rest) h)
      (rw (read_ids-append ids rest hs) refl))

-- What an initiator knows after a range: what it knew, with the ids that it holds there and the list does
-- not name, and with the ids that the list names and it does not hold there.
pub record Learns (s : Scan) (items : List Item) (received : List Bytes) (after : Scan)
    : Type 0 where
  pub have :
      (x : Bytes) → mem x after.have ≡ (mem x s.have || (holds_id x items && not (mem x received)))
  pub need :
      (x : Bytes) → mem x after.need ≡ (mem x s.need || (mem x received && not (holds_id x items)))

module _ {S : Type 0} (stores : NegentropyStore S) (n : Negentropy S) where
  learn_ids-Learns :
      (s : Scan) (upper : ℕ) (items : List Item) (received : List Bytes)
      → stores.for_each n.store s.prev_rank upper ≡ some items
      → HaveDistinctIds items
      → (arm : Arm) × (learn_ids stores n s upper received ≡ ok arm)
        × Learns s items received arm.scan
        × (arm.scan.cursor ≡ s.cursor)
        × (arm.upper ≡ upper)
  unfolding learn_ids
  learn_ids-Learns s upper items received e h =
      let theirs = (insert_new received []).1 in
      let have = (match_items items theirs).0 in
      let need = still_in (insert_new received []).0 (match_items items theirs).1 in
      rw e (
        _,
        refl,
        record {
          have = λ x. mem-append x s.have have ∙ ground (arith, (learned_ids x items received h).0);
          need = λ x. mem-append x s.need need ∙ ground (arith, (learned_ids x items received h).1);
        },
        refl,
        refl,
      )

  -- An initiator that reads an id list (fewer than 2^64 ids of 32 bytes, behind their number) for a range
  -- whose items have distinct ids goes on behind the list, at the end of the range. It then has as before,
  -- and exactly the ids that it holds there and the list does not name; and needs as before, and exactly
  -- the ids that the list names and it does not hold there.
  pub on_id_list-Learns :
      (s : Scan) (bound : Bound) (upper : ℕ) (items : List Item) (received : List Bytes)
      (rest : Bytes)
      → n.is_initiator ≡ true
      → s.cursor ≡ write_varint (length received) [] ++ (ids_bytes received ++ rest)
      → length received < 2 ^ 64
      → All (λ id. length id ≡ 32) received
      → stores.for_each n.store s.prev_rank upper ≡ some items
      → HaveDistinctIds items
      → (arm : Arm) × (on_id_list stores n s bound upper ≡ ok arm)
        × Learns s items received arm.scan
        × (arm.scan.cursor ≡ rest)
        × (arm.upper ≡ upper)
  unfolding on_id_list
  on_id_list-Learns s bound upper items received rest init cursor few sized e h =
      let after : Scan = record s { cursor = rest } in
      let (arm, done, learns, behind, at_end) = learn_ids-Learns after upper items received e h in
      let enough : ltb (length (ids_bytes received ++ rest) / 32) (length received) ≡ false =
        ge→ltb _ _ (
          omega
            (arith, length-append (ids_bytes received) rest, length-ids_bytes received sized)) in
      (
        arm,
        rw cursor (
            rw (read_varint-write_varint (length received) (ids_bytes received ++ rest) few) (
              rw enough (
                rw (read_ids-append received rest sized) (
                  subst
                    (λ b.
                      (if b
                        then learn_ids stores n after upper received
                        else answer_list stores n after bound upper)
                      ≡ ok arm)
                    (sym init) done)))),
        record { have = learns.have; need = learns.need },
        behind,
        at_end,
      )
