-- ===== src/Sync/Bound/RoundTrip.antt =====
-- `BoundCodec` of core/src/sync/negentropy/bound.rs: bounds out and in again.
use racnet.Prelude.{
  ℕ, ◌+◌, ◌-◌, ◌≤◌, ◌≡◌, refl, ◌∙◌, inl, inr, [], Bytes, ◌++◌, append_assoc, length, length-append,
  zeros, take_at, drop_at, ltb, ◌==◌, ◌||◌, ge→ltb, arith, u64_max, ok, Bool-cases, if◌then◌else◌,
}
use racnet.Sync.Varint.{write_varint}
use racnet.Sync.Varint.RoundTrip.{read_varint-write_varint}
use racnet.Sync.Bound.{BoundCodec, encode, decode, decode_prefix, take_prefix, prefix}
use racnet.Sync.Bound.Separation.{bound_at, new_fits}

write_varint-append : (n : ℕ) (out : Bytes) → write_varint n out ≡ out ++ write_varint n []
unfolding write_varint
write_varint-append n out = elim (Bool-cases (n == 0)) [ inl z ↦ rw z refl | inr nz ↦ rw nz refl ]

prefix-bound_at : (ts : ℕ) (p : Bytes) → prefix (bound_at ts p) ≡ p
unfolding prefix
prefix-bound_at ts p = take_at (length p) p (zeros (32 - length p)) refl

take_prefix-append :
    (ts : ℕ) (p rest : Bytes)
    → length p ≤ 32
    → take_prefix ts (length p) (p ++ rest) ≡ ok (bound_at ts p, rest)
unfolding take_prefix
take_prefix-append ts p rest h =
    let enough : length p ≤ length (p ++ rest) = omega (arith, length-append p rest) in
    rw
      (
        ge→ltb 32 (length p) h,
        ge→ltb (length (p ++ rest)) (length p) enough,
        take_at (length p) p rest refl,
        drop_at (length p) p rest refl,
        new_fits ts p h,
      )
      refl

-- The number that stands for a timestamp on the wire.
abbrev time_of : ℕ → ℕ → ℕ
time_of last ts = if ts == u64_max then 0 else ts - last + 1

-- The timestamp that it is read as.
time_read :
    (last ts : ℕ)
    → last ≤ ts
    → ts ≤ u64_max
    → (if time_of last ts == 0 || last == u64_max
        then u64_max
        else (if ltb u64_max (time_of last ts - 1 + last)
            then u64_max
            else time_of last ts - 1 + last))
      ≡ ts
time_read last ts h h' = ground arith

decode_prefix-append :
    (ts : ℕ) (p rest : Bytes)
    → length p ≤ 32
    → decode_prefix ts (write_varint (length p) [] ++ (p ++ rest)) ≡ ok (bound_at ts p, rest)
unfolding decode_prefix
decode_prefix-append ts p rest h =
    rw (read_varint-write_varint (length p) (p ++ rest) (omega arith))
      (take_prefix-append ts p rest h)

decode_time :
    (last ts : ℕ) (rest : Bytes) (codec : BoundCodec)
    → codec.last_ts_in ≡ last
    → last ≤ ts
    → ts ≤ u64_max
    → decode (write_varint (time_of last ts) [] ++ rest) codec
      ≡ (decode_prefix ts rest, record codec { last_ts_in = ts })
unfolding decode
decode_time last ts rest codec same later bounded =
    rw
      (
        read_varint-write_varint (time_of last ts) rest (ground arith),
        same,
        time_read last ts later bounded,
        decode,
      )
      refl

encoded :
    (ts : ℕ) (p rest : Bytes) (out : BoundCodec)
    → (encode (bound_at ts p) out []).0 ++ rest
      ≡ write_varint (time_of out.last_ts_out ts) [] ++ (write_varint (length p) [] ++ (p ++ rest))
unfolding encode
encoded ts p rest out =
    let time = write_varint (time_of out.last_ts_out ts) [] in
    let len = write_varint (length p) [] in
    rw (prefix-bound_at ts p, write_varint-append (length p) time)
      (append_assoc (time ++ len) p rest ∙ append_assoc time len (p ++ rest))

-- A bound whose timestamp is a u64 and not before the last one of the message, with a prefix of at most 32
-- bytes and any bytes behind it, is decoded to itself by a codec that remembers the same last
-- timestamp; the bytes behind it stay, and both ends remember its timestamp.
pub decode-encode :
    (ts : ℕ) (p rest : Bytes) (out codec : BoundCodec)
    → length p ≤ 32
    → ts ≤ u64_max
    → out.last_ts_out ≤ ts
    → codec.last_ts_in ≡ out.last_ts_out
    → decode ((encode (bound_at ts p) out []).0 ++ rest) codec ≡ (
      ok (bound_at ts p, rest),
      record codec { last_ts_in = (encode (bound_at ts p) out []).1.last_ts_out },
    )
unfolding encode
decode-encode ts p rest out codec short bounded later same =
    rw
      (
        encoded ts p rest out,
        decode_time out.last_ts_out ts (write_varint (length p) [] ++ (p ++ rest)) codec same later
            bounded,
        decode_prefix-append ts p rest short,
      )
      refl
