-- ===== src/Sync/Negentropy/Reconcile.antt =====
-- `reconcile` of core/src/sync/negentropy/mod.rs: one message in, one round out. What the loop keeps
-- between two ranges is `Scan`, and the rest of the message is its `cursor`.
use racnet.Prelude.{
  ℕ, zero, suc, ◌+◌, ◌/◌, ◌==◌, ◌&&◌, Bool, true, false, not, Bytes, List, [], ◌∷◌, ◌++◌, Option,
  none, some, length, ltb, leb, if◌then◌else◌, Outcome, ok, err, panic, expect, ◌>>=◌, ◌=?◌,
  bytes_eq, split_at,
}
use racnet.Store.{Item}
use racnet.Sync.Error.{SyncError, malformed, unsupported_version}
use racnet.Sync.Varint.{read_varint, write_varint}
use racnet.Sync.Bound
use racnet.Sync.Bound.{Bound, BoundCodec, new_codec, encode, decode, id_size}
use racnet.Sync.IdSum.{fingerprint_size}
use racnet.Sync.Session.{Round, mem, insert_new}
use racnet.Sync.Negentropy.{
  NegentropyStore, Negentropy, protocol_version, mode_skip, mode_fingerprint, mode_id_list,
  flush_skip, exceeds_limit, split_range,
}

pub record Scan : Type 0 where
  pub cursor : Bytes
  pub full : Bytes
  pub codec : BoundCodec
  pub prev_rank : ℕ
  pub prev_bound : Bound
  pub skip : Bool
  pub have : List Bytes
  pub need : List Bytes

-- What the arms of the `match` on the mode leave: the state, the rank that the range ends at, and the
-- output for it.
pub record Arm : Type 0 where
  pub scan : Scan
  pub upper : ℕ
  pub out : Bytes

-- The loop that reads the ids of a list.
unfoldable pub read_ids : ℕ → Bytes → Outcome SyncError (List Bytes × Bytes)
read_ids zero cursor = ok ([], cursor)
read_ids (suc n) cursor = do
  (id, rest) ← split_at id_size cursor
  (ids, rest') ← read_ids n rest
  ok (id ∷ ids, rest')

-- `HashSet::remove`
unfoldable pub remove_id : Bytes → List Bytes → List Bytes
remove_id id [] = []
remove_id id (x ∷ xs) = let rest = remove_id id xs in if x =? id then rest else x ∷ rest

-- The visitor of an initiator: the ids that only we hold, and those of theirs that are left.
unfoldable pub match_items : List Item → List Bytes → List Bytes × List Bytes
match_items [] theirs = ([], theirs)
match_items (item ∷ items) theirs =
    let (have, left) = match_items items (remove_id item.id theirs) in
    (if mem item.id theirs then have else item.id ∷ have, left)

-- `filter(|id| theirs.contains(*id))`
unfoldable pub still_in : List Bytes → List Bytes → List Bytes
still_in [] theirs = []
still_in (id ∷ ids) theirs =
    let rest = still_in ids theirs in if mem id theirs then id ∷ rest else rest

-- The visitor of a responder: the ids of the answer, their number, and where it stopped for the limit.
unfoldable pub answer_ids :
    Option ℕ → (full_len rank : ℕ) → List Item → Bytes → ℕ → Bytes × ℕ × Option (Item × ℕ)
answer_ids limit full_len rank [] response num = (response, num, none)
answer_ids limit full_len rank (item ∷ items) response num =
    let more = answer_ids limit full_len (rank + 1) items (response ++ item.id) (num + 1) in
    if exceeds_limit limit (full_len + length response)
    then (response, num, some (item, rank))
    else more

-- Where the answer ends: the bound and the rank of the range, or those of the item that it stopped at.
unfoldable pub answer_end : Option (Item × ℕ) → Bound → ℕ → Outcome SyncError (Bound × ℕ)
answer_end none bound upper = ok (bound, upper)
answer_end (some (item, rank)) bound upper =
    Bound.at_item item.sort_key item.id >>= λ b. ok (b, rank)

module _ {S : Type 0} (stores : NegentropyStore S) (n : Negentropy S) where
  -- The arm of `MODE_FINGERPRINT`.
  unfoldable pub on_fingerprint : Scan → Bound → ℕ → Outcome SyncError Arm
  on_fingerprint s bound upper =
      if ltb (length s.cursor) fingerprint_size then err malformed else (do
        (theirs, rest) ← split_at fingerprint_size s.cursor
        ours ← expect (stores.fingerprint n.store s.prev_rank upper)
        let after = record s { cursor = rest }
        if theirs =? ours
            then ok (record { scan = record after { skip = true }; upper = upper; out = [] })
            else (do
              let (skip, codec, out) = flush_skip s.skip s.prev_bound s.codec []
              (out', codec') ← split_range stores n.store s.prev_rank upper bound codec out
              ok (record {
                scan = record after { skip = skip; codec = codec' };
                upper = upper;
                out = out';
              })))

  -- The end of the arm of `MODE_ID_LIST`, of an initiator and of a responder.
  unfoldable pub learn_ids : Scan → ℕ → List Bytes → Outcome SyncError Arm
  learn_ids s upper received = do
    let (their_order, theirs) = insert_new received []
    items ← expect (stores.for_each n.store s.prev_rank upper)
    let (have, left) = match_items items theirs
    ok (record {
      scan = record s {
        skip = true;
        have = s.have ++ have;
        need = s.need ++ still_in their_order left;
      };
      upper = upper;
      out = [];
    })

  unfoldable pub answer_list : Scan → Bound → ℕ → Outcome SyncError Arm
  answer_list s bound upper = do
    let (skip, codec, out) = flush_skip s.skip s.prev_bound s.codec []
    items ← expect (stores.for_each n.store s.prev_rank upper)
    let (response, num, stopped) = answer_ids n.frame_limit (length s.full) s.prev_rank items [] 0
    (end_bound, upper') ← answer_end stopped bound upper
    let (out', codec') = encode end_bound codec out
    ok (record {
      scan = record s {
        skip = skip;
        codec = codec';
        full = s.full ++ (write_varint num (write_varint mode_id_list out') ++ response);
      };
      upper = upper';
      out = [];
    })

  -- The arm of `MODE_ID_LIST`.
  unfoldable pub on_id_list : Scan → Bound → ℕ → Outcome SyncError Arm
  on_id_list s bound upper = do
    (num_ids, rest) ← read_varint s.cursor
    if ltb (length rest / id_size) num_ids then err malformed else (do
      (received, rest') ← read_ids num_ids rest
      let after = record s { cursor = rest' }
      if n.is_initiator then learn_ids after upper received else answer_list after bound upper)

  -- The `match` on the mode.
  unfoldable pub on_mode : ℕ → Scan → Bound → ℕ → Outcome SyncError Arm
  on_mode mode s bound upper =
      if mode == mode_skip
      then ok (record { scan = record s { skip = true }; upper = upper; out = [] })
      else if mode == mode_fingerprint
      then on_fingerprint s bound upper
      else if mode == mode_id_list
      then on_id_list s bound upper
      else err malformed

  -- The end of a round of the loop, and whether the loop breaks.
  unfoldable pub finish_range : Bound → Arm → Outcome SyncError (Scan × Bool)
  finish_range bound arm =
      let s = arm.scan in
      if exceeds_limit n.frame_limit (length s.full + length arm.out)
      then (do
        remaining ← expect (stores.fingerprint n.store arm.upper (stores.len n.store))
        infinity ← Bound.infinity
        let (full, codec) = encode infinity s.codec s.full
        ok (
          record s { full = write_varint mode_fingerprint full ++ remaining; codec = codec },
          true,
        ))
      else ok
          (record s { full = s.full ++ arm.out; prev_rank = arm.upper; prev_bound = bound }, false)

  -- A round of the loop.
  unfoldable pub scan_range : Scan → Outcome SyncError (Scan × Bool)
  scan_range s =
      let (decoded, codec) = decode s.cursor s.codec in
      decoded >>= λ d. read_varint d.1 >>= λ m.
      expect (stores.lower_bound n.store s.prev_rank (stores.len n.store) d.0) >>= λ upper.
      on_mode m.0 (record s { cursor = m.1; codec = codec }) d.0 upper >>= finish_range d.0

  -- The loop, in at most `fuel` rounds; to run out of fuel is a panic.
  unfoldable pub scan_message : ℕ → Scan → Outcome SyncError Scan
  scan_message zero s = if length s.cursor == 0 then ok s else panic
  scan_message (suc fuel) s =
      if length s.cursor == 0
      then ok s
      else scan_range s >>= λ r. elim r.1 [ true ↦ ok r.0 | false ↦ scan_message fuel r.0 ]

  -- The reply, unless an initiator has nothing more to say.
  unfoldable pub round_of : Scan → Round
  round_of s = record {
    reply = if n.is_initiator && (length s.full == 1) then none else some s.full;
    have = s.have;
    need = s.need;
  }

  -- `reconcile` behind the version byte.
  unfoldable pub scan_ranges : Bytes → Outcome SyncError Round
  scan_ranges msg = do
    start ← Bound.from_ts 0
    s ← scan_message (length msg) (record {
      cursor = msg;
      full = protocol_version ∷ [];
      codec = new_codec;
      prev_rank = 0;
      prev_bound = start;
      skip = false;
      have = [];
      need = [];
    })
    ok (round_of s)

  unfoldable pub reconcile : Bytes → Outcome SyncError Round
  reconcile [] = err malformed
  reconcile (version ∷ rest) =
      if not (leb 96 version && leb version 111)
      then err malformed
      else if version == protocol_version
      then scan_ranges rest
      else if n.is_initiator
      then err (unsupported_version version)
      else ok (record { reply = some (protocol_version ∷ []); have = []; need = [] })
