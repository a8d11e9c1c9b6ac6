-- ===== src/Sync/Negentropy.antt =====
-- core/src/sync/negentropy/mod.rs: the reconciliation engine over a sealed set of items. The store of
-- core/src/sync/negentropy/store.rs is the interface `NegentropyStore`; `none` is a panic there. The
-- texts of the errors are left out.
pub mod Sealed
pub mod Reconcile
pub mod Replies
pub mod Learned
pub mod Reads
pub mod Total
pub mod Panics
pub mod Runs
pub mod Contract
use racnet.Prelude.{
  ℕ, zero, suc, ◌+◌, ◌-◌, ◌/◌, ◌%◌, ◌==◌, Bool, true, false, Bytes, List, [], ◌∷◌, ◌++◌, Option,
  none, some, length, ltb, if◌then◌else◌, Outcome, ok, err, panic, expect, ◌>>=◌,
}
use racnet.Store.{Item}
use racnet.Sync.Error.{SyncError, frame_limit_too_small, already_initiated}
use racnet.Sync.Varint.{write_varint}
use racnet.Sync.Bound
use racnet.Sync.Bound.{Bound, BoundCodec, new_codec, encode, min_separating}

abbrev pub protocol_version : ℕ
protocol_version = 97

abbrev pub buckets : ℕ
buckets = 16

abbrev pub id_list_threshold : ℕ
id_list_threshold = 32

abbrev pub frame_margin : ℕ
frame_margin = 200

abbrev pub frame_limit_floor : ℕ
frame_limit_floor = 4096

abbrev pub mode_skip : ℕ
mode_skip = 0

abbrev pub mode_fingerprint : ℕ
mode_fingerprint = 1

abbrev pub mode_id_list : ℕ
mode_id_list = 2

-- `for_each` is the list of the items that it visits, in order.
pub record NegentropyStore (S : Type 0) : Type 0 where
  pub len : S → ℕ
  pub item_at : S → ℕ → Option Item
  pub lower_bound : S → ℕ → ℕ → Bound → Option ℕ
  pub fingerprint : S → ℕ → ℕ → Option Bytes
  pub for_each : S → ℕ → ℕ → Option (List Item)

pub record Negentropy (S : Type 0) : Type 0 where
  pub store : S
  pub frame_limit : Option ℕ
  pub is_initiator : Bool

abbrev pub below_floor : Option ℕ → Bool
below_floor none = false
below_floor (some limit) = ltb limit frame_limit_floor

unfoldable pub new : {S : Type 0} → S → Option ℕ → Outcome SyncError (Negentropy S)
new store frame_limit =
    if below_floor frame_limit
    then err (frame_limit_too_small frame_limit_floor)
    else ok (record { store = store; frame_limit = frame_limit; is_initiator = false })

-- The skip flag, the codec and the output come back.
unfoldable pub flush_skip : Bool → Bound → BoundCodec → Bytes → Bool × BoundCodec × Bytes
flush_skip false prev_bound codec out = (false, codec, out)
flush_skip true prev_bound codec out =
    let (out', codec') = encode prev_bound codec out in (false, codec', write_varint mode_skip out')

unfoldable pub exceeds_limit : Option ℕ → ℕ → Bool
exceeds_limit none len = false
exceeds_limit (some limit) len = ltb (limit - frame_margin) len

-- The ids of items one after the other, as the visitors append them.
abbrev pub ids : List Item → Bytes
ids [] = []
ids (item ∷ items) = item.id ++ ids items

abbrev pub is_extra : ℕ → ℕ → ℕ
is_extra i with_extra = if ltb i with_extra then 1 else 0

module _ {S : Type 0} (stores : NegentropyStore S) where
  -- The bound behind a bucket.
  unfoldable pub next_bound : S → ℕ → ℕ → Bound → Outcome SyncError Bound
  next_bound store curr upper upper_bound = if curr == upper then ok upper_bound else (do
    prev ← expect (stores.item_at store (curr - 1))
    next ← expect (stores.item_at store curr)
    min_separating prev.sort_key prev.id next.sort_key next.id)

  -- The loop over the buckets, of which `left` are left.
  unfoldable pub split_buckets :
      S
      → (per_bucket with_extra curr upper : ℕ) → Bound
      → BoundCodec
      → Bytes
      → (left : ℕ) → Outcome SyncError (Bytes × BoundCodec)
  split_buckets store per_bucket with_extra curr upper upper_bound codec out zero = ok (out, codec)
  split_buckets store per_bucket with_extra curr upper upper_bound codec out (suc left) = do
    let size = per_bucket + is_extra (buckets - suc left) with_extra
    fp ← expect (stores.fingerprint store curr (curr + size))
    bound ← next_bound store (curr + size) upper upper_bound
    let (out', codec') = encode bound codec out
    split_buckets store per_bucket with_extra (curr + size) upper upper_bound codec'
        (write_varint mode_fingerprint out' ++ fp) left

  unfoldable pub split_range :
      S → ℕ → ℕ → Bound → BoundCodec → Bytes → Outcome SyncError (Bytes × BoundCodec)
  split_range store lower upper upper_bound codec out =
      let num_elems = upper - lower in
      let (out', codec') = encode upper_bound codec out in
      if ltb upper lower
      then panic
      else if ltb num_elems id_list_threshold
      then (do
        items ← expect (stores.for_each store lower upper)
        ok (write_varint num_elems (write_varint mode_id_list out') ++ ids items, codec'))
      else split_buckets store (num_elems / buckets) (num_elems % buckets) lower upper upper_bound
          codec out buckets

  unfoldable pub initiate : Negentropy S → Outcome SyncError (Bytes × Negentropy S)
  initiate n = if n.is_initiator then err already_initiated else (do
    bound ← Bound.infinity
    (out, codec) ←
        split_range n.store 0 (stores.len n.store) bound new_codec (protocol_version ∷ [])
    ok (out, record n { is_initiator = true }))
