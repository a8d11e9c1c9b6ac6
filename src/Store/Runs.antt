-- ===== src/Store/Runs.antt =====
-- A store over a sorted list, with everything accepted, and the store's theorems at it.
use racnet.Prelude.{
  ℕ, ◌≡◌, true, List, [], ◌∷◌, none, some, ltb, if◌then◌else◌, take, drop, ◌-◌, ◌+◌, ok, lookup,
  bytes_eq,
}
use racnet.Wire.Payload.{Entry}
use racnet.Wire.Entry.{Signing}
use racnet.Wire.Entry
use racnet.Store.{Item, OrderIndex, Journal, EntryStore, insert_entry, get, new}
use racnet.Store.Held.{IsSound, IsExact, insert_entry-IsSound, insert_entry-IsExact}

abbrev pub toy_signing : Signing
toy_signing = record {
  sha256 = λ m. m;
  entry_to_vec = λ e. e.sort_key ∷ e.payload;
  encode_tbs = λ author sort_key kind payload. payload;
  verify_strict = λ key message sig. true;
}

abbrev pub put : Item → List Item → List Item
put item [] = item ∷ []
put item (other ∷ items) =
    let rest = put item items in
    if ltb other.sort_key item.sort_key then other ∷ rest else item ∷ other ∷ items

abbrev pub rank : List Item → Item → ℕ
rank [] item = 0
rank (other ∷ items) item =
    let rest = rank items item in if ltb other.sort_key item.sort_key then 1 + rest else 0

abbrev pub toy_index : OrderIndex (List Item)
toy_index = record {
  empty = [];
  insert_item = λ item items. some (put item items);
  lower_bound = rank;
  iter_range = λ items lo hi. some (take (hi - lo) (drop lo items));
}

abbrev pub toy_journal : Journal (List Entry)
toy_journal = record { append = λ j e. (ok tt, e ∷ j) }

abbrev pub two : Entry
two = record { author = []; sort_key = 2; kind = 0; payload = 7 ∷ []; sig = [] }

abbrev pub five : Entry
five = record { author = []; sort_key = 5; kind = 0; payload = []; sig = [] }

abbrev pub empty_store : EntryStore (List Item) (List Entry)
empty_store = new toy_signing toy_index toy_journal

abbrev pub journaled : EntryStore (List Item) (List Entry)
journaled = record { entries = []; order = []; journal = some [] }

empty-IsSound : IsSound toy_signing toy_index toy_journal journaled
unfolding get lookup
empty-IsSound id entry e = cc

insert_entry-IsExact_example :
    ((insert_entry toy_signing toy_index toy_journal two journaled).0 ≡ ok true
      → get journaled (Entry.id toy_signing two) ≡ none)
    × IsExact toy_signing toy_index toy_journal journaled
        (Entry.id toy_signing two)
        two
        (insert_entry toy_signing toy_index toy_journal two journaled)
insert_entry-IsExact_example = insert_entry-IsExact toy_signing toy_index toy_journal two journaled

-- A store with one entry.
abbrev pub held_two : EntryStore (List Item) (List Entry)
held_two = (insert_entry toy_signing toy_index toy_journal two journaled).1

pub held_two-IsSound : IsSound toy_signing toy_index toy_journal held_two
held_two-IsSound =
    insert_entry-IsSound toy_signing toy_index toy_journal two journaled empty-IsSound
