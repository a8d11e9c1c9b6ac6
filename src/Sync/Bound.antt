-- ===== src/Sync/Bound.antt =====
-- core/src/sync/negentropy/bound.rs: positions in the item order, and their codec within a message.
pub mod Separation
pub mod RoundTrip
use racnet.Prelude.{
  ℕ, suc, ◌+◌, ◌-◌, ◌||◌, Bool, true, false, Bytes, [], ◌∷◌, ◌++◌, length, take, drop, zeros, leb,
  ltb, ◌==◌, if◌then◌else◌, u64_max, Outcome, ok, err, panic, ◌>>=◌, slice, split_at,
}
use racnet.Sync.Error.{SyncError, malformed}
use racnet.Sync.Varint.{read_varint, write_varint}

abbrev pub id_size : ℕ
id_size = 32

abbrev pub ts_infinity : ℕ
ts_infinity = u64_max

-- `prefix` with its zeros behind it is `padded_id`.
pub record Bound : Type 0 where
  pub ts : ℕ
  pub padded_id : Bytes
  pub prefix_len : ℕ

unfoldable pub new : ℕ → Bytes → Outcome SyncError Bound
new ts prefix =
    if leb (length prefix) id_size
    then ok (record {
      ts = ts;
      padded_id = prefix ++ zeros (id_size - length prefix);
      prefix_len = length prefix;
    })
    else panic

unfoldable pub from_ts : ℕ → Outcome SyncError Bound
from_ts ts = new ts []

unfoldable pub infinity : Outcome SyncError Bound
infinity = from_ts ts_infinity

unfoldable pub at_item : ℕ → Bytes → Outcome SyncError Bound
at_item ts id = new ts id

unfoldable pub prefix : Bound → Bytes
prefix b = take b.prefix_len b.padded_id

-- `<` of byte arrays.
abbrev pub bytes_lt : Bytes → Bytes → Bool
bytes_lt xs [] = false
bytes_lt [] (y ∷ ys) = true
bytes_lt (x ∷ xs) (y ∷ ys) = if x == y then bytes_lt xs ys else ltb x y

unfoldable pub item_is_before : Bound → ℕ → Bytes → Bool
item_is_before b ts id = if ts == b.ts then bytes_lt id b.padded_id else ltb ts b.ts

-- `zip`, `take_while` and `count`.
abbrev pub shared : Bytes → Bytes → ℕ
shared [] ys = 0
shared (x ∷ xs) [] = 0
shared (x ∷ xs) (y ∷ ys) = if x == y then suc (shared xs ys) else 0

unfoldable pub min_separating : ℕ → Bytes → ℕ → Bytes → Outcome SyncError Bound
min_separating prev_ts prev_id curr_ts curr_id =
    if curr_ts == prev_ts
    then (do prefix ← slice curr_id 0 (shared prev_id curr_id + 1); new curr_ts prefix)
    else from_ts curr_ts

pub record BoundCodec : Type 0 where
  pub last_ts_in : ℕ
  pub last_ts_out : ℕ

abbrev pub new_codec : BoundCodec
new_codec = record { last_ts_in = 0; last_ts_out = 0 }

unfoldable pub encode : Bound → BoundCodec → Bytes → Bytes × BoundCodec
encode b codec out =
    let time = if b.ts == ts_infinity then 0 else b.ts - codec.last_ts_out + 1 in
    (
      write_varint (length (prefix b)) (write_varint time out) ++ prefix b,
      record codec { last_ts_out = b.ts },
    )

abbrev saturating_add : ℕ → ℕ → ℕ
saturating_add a b = if ltb u64_max (a + b) then u64_max else a + b

-- The checks on the prefix, and the split behind it.
unfoldable pub take_prefix : ℕ → ℕ → Bytes → Outcome SyncError (Bound × Bytes)
take_prefix ts len input =
    if ltb id_size len
    then err malformed
    else if ltb (length input) len
    then err malformed
    else split_at len input >>= λ r. new ts r.0 >>= λ b. ok (b, r.1)

-- From the length of the prefix on.
unfoldable pub decode_prefix : ℕ → Bytes → Outcome SyncError (Bound × Bytes)
decode_prefix ts input = read_varint input >>= λ r. take_prefix ts r.0 r.1

-- What is left of the input comes back with the bound; the timestamp stays when the prefix fails.
unfoldable pub decode : Bytes → BoundCodec → Outcome SyncError (Bound × Bytes) × BoundCodec
decode input codec = elim (read_varint input) [
  | err e ↦ (err e, codec)
  | panic ↦ (panic, codec)
  | ok (raw, rest) ↦
      let ts =
        if raw == 0 || codec.last_ts_in == ts_infinity
        then ts_infinity
        else saturating_add (raw - 1) codec.last_ts_in in
      (decode_prefix ts rest, record codec { last_ts_in = ts })
]
