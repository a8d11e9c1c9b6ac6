-- ===== src/Sync/Runs.antt =====
-- The theorems on the sync layer at concrete inputs.
use racnet.Prelude.{
  true, false, zeros, inr, ◌≡◌, refl, ◌++◌, Bytes, List, [], ◌∷◌, none, some, arith, ok,
}
use racnet.Wire.Payload.{Entry, ReconMsg}
use racnet.Store.{Item, EntryStore}
use racnet.Store.Runs.{
  toy_signing, toy_index, toy_journal, two, empty_store, held_two, held_two-IsSound,
}
use racnet.Sync.Varint.{write_varint, read_varint, read_digits}
use racnet.Sync.Varint.RoundTrip.{read_varint-write_varint}
use racnet.Sync.Bound.{Bound, BoundCodec, encode, decode, min_separating, item_is_before}
use racnet.Sync.Bound.Separation.{bound_at, min_separating-separates}
use racnet.Sync.Bound.RoundTrip.{decode-encode}
use racnet.Sync.Session.{
  Engine, Round, SyncConfig, responder, Syncer, open_session, push_batches, new,
}
use racnet.Sync.Session.Once.{IsDistinct}
use racnet.Sync.Session.Repeats.{session_pushes, session_pushes-IsDistinct}
use racnet.Sync.Session.Push.{pushed_entries, found, push_batches-entries}
use racnet.Sync.Session.Sids.{IsValid, Opened, starts, goes_on, opens, Opened-IsValid}

-- An engine that holds items and answers a message with itself, and an empty one with nothing.
abbrev echo : Bytes → Round
echo [] = record { reply = none; have = []; need = [] }
echo (x ∷ xs) = record { reply = some (x ∷ xs); have = []; need = [] }

abbrev pub toy_engine : Engine (List Item)
toy_engine = record {
  new = λ items limit. ok items;
  initiate = λ n. ok (97 ∷ [], n);
  reconcile = λ n msg. (ok (echo msg), n);
}

abbrev pub config : SyncConfig
config = record { frame_limit = none; push_ttl = 0; max_sessions = 2 }

abbrev fresh : Syncer (List Item)
fresh = new responder config

abbrev one_open : Syncer (List Item)
one_open =
    (open_session toy_signing toy_index toy_journal toy_engine empty_store
      (record { since = 0; until = 9 }) fresh).1

one_open-Opened : Opened toy_signing toy_index toy_journal toy_engine responder config one_open
unfolding open_session
one_open-Opened =
    goes_on empty_store fresh one_open starts (opens fresh (record { since = 0; until = 9 }))

Opened-IsValid_example : IsValid one_open
Opened-IsValid_example =
    Opened-IsValid toy_signing toy_index toy_journal toy_engine responder config one_open
      one_open-Opened

abbrev id_of_two : Bytes
id_of_two = 2 ∷ 7 ∷ []

abbrev holding : EntryStore (List Item) (List Entry)
holding = record { entries = (id_of_two, two) ∷ []; order = []; journal = none }

push_batches-entries_example :
    pushed_entries (push_batches toy_signing toy_index toy_journal holding (id_of_two ∷ [] ∷ []) 0)
    ≡ found holding (id_of_two ∷ [] ∷ [])
push_batches-entries_example =
    push_batches-entries toy_signing toy_index toy_journal holding (id_of_two ∷ [] ∷ []) 0

-- An engine for which every message shows that only we have the one entry.
abbrev having : Engine (List Item)
having = record toy_engine {
  reconcile =
      λ n msg. (ok (record { reply = some msg; have = id_of_two ∷ id_of_two ∷ []; need = [] }), n);
}

abbrev one_session : Syncer (List Item)
one_session = record fresh { sessions = ((false, 0), record { engine = []; pushed = [] }) ∷ [] }

-- The same message twice.
abbrev two_rounds : List (EntryStore (List Item) (List Entry) × ReconMsg)
two_rounds =
    (held_two, record { sid = 0; msg = 97 ∷ [] })
    ∷ (held_two, record { sid = 0; msg = 97 ∷ [] })
    ∷ []

session_pushes-IsDistinct_example :
    IsDistinct
      (session_pushes toy_signing toy_index toy_journal having (false, 0) two_rounds one_session)
session_pushes-IsDistinct_example =
    session_pushes-IsDistinct toy_signing toy_index toy_journal having (false, 0) two_rounds
      one_session (held_two-IsSound, (held_two-IsSound, tt))

read_varint-write_varint_example : read_varint (write_varint 300 [] ++ (9 ∷ [])) ≡ ok (300, 9 ∷ [])
read_varint-write_varint_example = read_varint-write_varint 300 (9 ∷ []) (omega arith)

three_hundred : read_varint (130 ∷ 44 ∷ 9 ∷ []) ≡ ok (300, 9 ∷ [])
unfolding read_varint read_digits
three_hundred = refl

abbrev tail : Bytes
tail = 9 ∷ []

abbrev low_id : Bytes
low_id = 7 ∷ zeros 31

abbrev high_id : Bytes
high_id = 7 ∷ 1 ∷ zeros 30

min_separating-separates_example :
    (b : Bound) × (min_separating 5 low_id 5 high_id ≡ ok b)
    × (item_is_before b 5 low_id ≡ true)
    × (item_is_before b 5 high_id ≡ false)
min_separating-separates_example =
    min_separating-separates 5 5 low_id high_id refl refl (inr (refl, refl))

abbrev at_seven : BoundCodec
at_seven = record { last_ts_in = 7; last_ts_out = 7 }

decode-encode_example :
    decode ((encode (bound_at 1000 (170 ∷ 187 ∷ [])) at_seven []).0 ++ (9 ∷ [])) at_seven ≡ (
      ok (bound_at 1000 (170 ∷ 187 ∷ []), 9 ∷ []),
      record at_seven {
        last_ts_in = (encode (bound_at 1000 (170 ∷ 187 ∷ [])) at_seven []).1.last_ts_out;
      },
    )
decode-encode_example =
    decode-encode 1000 (170 ∷ 187 ∷ []) (9 ∷ []) at_seven at_seven (omega arith) (omega arith)
      (omega arith) refl
