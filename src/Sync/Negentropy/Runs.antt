-- ===== src/Sync/Negentropy/Runs.antt =====
-- The theorems on the engine, and on the store and the sessions over it, at concrete inputs.
use racnet.Prelude.{
  true, ◌++◌, ok, ◌-◌, ◌^◌, ◌≡◌, ◌≢◌, refl, Bytes, List, [], ◌∷◌, some, none, false, arith,
  replicate, lookup, contains_key, panic, Yields,
}
use racnet.Wire.Payload.{Entry, ReconInit}
use racnet.Wire.Entry
use racnet.Wire.Entry.{Signing, verify}
use racnet.Store.Order.Insertion.{insert_at}
use racnet.Store.Order.Sorted.{is_new}
use racnet.Store.{get, Item, EntryStore, insert_entry, snapshot, append_and_hold, hold}
use racnet.Store.Runs.{toy_journal, toy_signing}
use racnet.Store.ItemOrder.{cmp}
use racnet.Store.Indexed.{tree_index, within, snapshot-within}
use racnet.Store.InStep.{IsInStep, IsKept, insert_entry-IsInStep}
use racnet.Store.Order.{Tree}
use racnet.Store.Order.Tree.{nil}
use racnet.Store.Order.Shape.{items, size}
use racnet.Store.Order.Runs.{pair, low, high, pair-IsIndex}
use racnet.Sync.Varint.{write_varint}
use racnet.Sync.Bound.{new_codec}
use racnet.Sync.Bound.Separation.{bound_at}
use racnet.Sync.IdSum.{IdSum}
use racnet.Sync.IdSum.Sums.{IsEntryId}
use racnet.Sync.Session.{Syncer, open_session, handle_init, mem, insert_new}
use racnet.Sync.Session
use racnet.Sync.Runs.{config}
use racnet.Sync.Session.Answered.{negentropy_engine, handle_init_returns}
use racnet.Sync.Negentropy.{Negentropy}
use racnet.Sync.Negentropy.Reconcile.{Scan, Arm, reconcile, on_id_list}
use racnet.Sync.Negentropy.Sealed.{sealed_store, tree_store}
use racnet.Sync.Negentropy.Learned.{Learns, ids_bytes, on_id_list-Learns}
use racnet.Sync.Negentropy.Total.{IsAny}
use racnet.Sync.Negentropy.Panics.{reconcile-Yields}
use racnet.Sync.Negentropy.Contract.{sealed_store-Presents, tree_store-sealed_store}

abbrev digest : Bytes → Bytes
digest m = replicate 32 7

abbrev signing : Signing
signing = record toy_signing { sha256 = digest }

abbrev empty_store : EntryStore Tree (List Entry)
empty_store = record { entries = []; order = nil; journal = none }

empty_store-IsInStep : IsInStep signing toy_journal empty_store
unfolding get lookup is_new
empty_store-IsInStep = record { index = (tt, tt, tt); count = refl; same = λ item. refl }

abbrev hello : Entry
hello = record { author = []; sort_key = 5; kind = 0; payload = 1 ∷ []; sig = [] }

hello-IsEntryId : IsEntryId (Entry.id signing hello)
unfolding Entry.id
hello-IsEntryId = omega arith

insert_entry-IsInStep_example :
    IsKept signing toy_journal (insert_entry signing tree_index toy_journal hello empty_store)
insert_entry-IsInStep_example =
    insert_entry-IsInStep signing toy_journal hello empty_store hello-IsEntryId (omega arith)
      (λ j e. cc) empty_store-IsInStep

stored-IsInStep :
    IsKept signing toy_journal (insert_entry signing tree_index toy_journal hello empty_store)
stored-IsInStep =
    insert_entry-IsInStep signing toy_journal hello empty_store hello-IsEntryId (omega arith)
      (λ j e. cc) empty_store-IsInStep

abbrev paired : EntryStore Tree (List Entry)
paired = record { entries = []; order = pair; journal = none }

snapshot-within_example :
    snapshot tree_index paired (record { since = 5; until = 9 })
    ≡ some (within (record { since = 5; until = 9 }) (items pair))
snapshot-within_example =
    snapshot-within paired (record { since = 5; until = 9 }) pair-IsIndex (omega arith)

abbrev responder : Negentropy (List Item)
responder = record { store = low ∷ high ∷ []; frame_limit = none; is_initiator = false }

reconcile-Yields_example :
    Yields IsAny (reconcile (sealed_store digest) responder (97 ∷ 0 ∷ 0 ∷ 2 ∷ 0 ∷ []))
unfolding cmp
reconcile-Yields_example =
    reconcile-Yields (sealed_store digest) responder (low ∷ high ∷ [])
      (sealed_store-Presents digest (low ∷ high ∷ []) ((refl, tt), (tt, tt)) (refl, (refl, tt)))
      (97 ∷ 0 ∷ 0 ∷ 2 ∷ 0 ∷ [])

tree_store-sealed_store_example :
    ((tree_store digest).len pair ≡ (sealed_store digest).len (items pair))
    × ((tree_store digest).item_at pair 0 ≡ (sealed_store digest).item_at (items pair) 0)
    × ((tree_store digest).lower_bound pair 0 2 (bound_at 7 [])
        ≡ (sealed_store digest).lower_bound (items pair) 0 2 (bound_at 7 []))
    × ((tree_store digest).fingerprint pair 0 2
        ≡ (sealed_store digest).fingerprint (items pair) 0 2)
    × ((tree_store digest).for_each pair 0 2 ≡ (sealed_store digest).for_each (items pair) 0 2)
tree_store-sealed_store_example =
    tree_store-sealed_store digest pair 0 2 (bound_at 7 []) pair-IsIndex (omega arith) (omega arith)
      (omega arith)

abbrev asking : Negentropy (List Item)
asking = record { store = low ∷ high ∷ []; frame_limit = none; is_initiator = true }

-- An id list with one id and a byte behind it.
abbrev listed : Scan
listed = record {
  cursor = write_varint 1 [] ++ (ids_bytes (high.id ∷ []) ++ (0 ∷ []));
  full = 97 ∷ [];
  codec = new_codec;
  prev_rank = 0;
  prev_bound = bound_at 0 [];
  skip = false;
  have = [];
  need = [];
}

on_id_list-Learns_example :
    (arm : Arm) × (on_id_list (sealed_store digest) asking listed (bound_at 9 []) 2 ≡ ok arm)
    × Learns listed (low ∷ high ∷ []) (high.id ∷ []) arm.scan
    × (arm.scan.cursor ≡ (0 ∷ []))
    × (arm.upper ≡ 2)
on_id_list-Learns_example =
    on_id_list-Learns (sealed_store digest) asking listed (bound_at 9 []) 2 (low ∷ high ∷ [])
      (high.id ∷ []) (0 ∷ []) refl refl (omega arith) (refl, tt) refl (refl, (refl, tt))

abbrev fresh : Syncer (Negentropy (List Item))
fresh = Session.new Session.responder config

abbrev opening : ReconInit
opening = record {
  sid = 0;
  window = record { since = 0; until = 9 };
  msg = 97 ∷ 0 ∷ 0 ∷ 2 ∷ 0 ∷ [];
}

abbrev stored : EntryStore Tree (List Entry)
stored = (insert_entry signing tree_index toy_journal hello empty_store).1

stored_size : size stored.order ≡ 1
unfolding insert_entry verify append_and_hold hold contains_key insert_at
stored_size = refl

handle_init_returns_example :
    ((open_session signing tree_index toy_journal
        (negentropy_engine digest)
        stored
        (record { since = 0; until = 9 })
        fresh).0
      ≢ panic)
    × ((handle_init signing tree_index toy_journal
          (negentropy_engine digest)
          stored
          opening
          fresh).0
        ≢ panic)
handle_init_returns_example =
    handle_init_returns signing toy_journal digest stored opening (record { since = 0; until = 9 })
      fresh stored-IsInStep.1 (omega (arith, stored_size))

abbrev most : IdSum
most = record { limb0 = 2 ^ 64 - 1; limb1 = 2 ^ 64 - 1; limb2 = 2 ^ 64 - 1; limb3 = 2 ^ 64 - 1 }

abbrev one : IdSum
one = record { limb0 = 1; limb1 = 0; limb2 = 0; limb3 = 0 }
