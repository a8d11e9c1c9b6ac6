-- ===== src/Sync/Varint.antt =====
-- core/src/sync/negentropy/varint.rs: base-128 numbers, most significant digit first. A shift right
-- by `k` is `/ 2 ^ k`, a mask of the seven low bits is `% 128`, and an `|` of disjoint bits is `+`.
pub mod RoundTrip
use racnet.Prelude.{
  ℕ, zero, suc, ◌+◌, ◌-◌, ◌*◌, ◌/◌, ◌%◌, ◌^◌, [], ◌∷◌, ◌++◌, Bytes, ltb, ◌==◌, if◌then◌else◌,
  Outcome, ok, err, u64_max,
}
use racnet.Sync.Error.{SyncError, malformed}

-- 64 less `leading_zeros`: the number of bits of a number with at most so many.
unfoldable pub bit_length : ℕ → ℕ → ℕ
bit_length zero n = 0
bit_length (suc most) n = let shorter = bit_length most (n / 2) in if n == 0 then 0 else 1 + shorter

abbrev div_ceil : ℕ → ℕ → ℕ
div_ceil a b = (a + b - 1) / b

-- The loop `for i in (0..digits).rev()`.
unfoldable pub write_digits : ℕ → ℕ → Bytes
write_digits zero n = []
write_digits (suc i) n =
    let digit = n / 2 ^ (7 * i) % 128 in (if i == 0 then digit else digit + 128) ∷ write_digits i n

unfoldable pub write_varint : ℕ → Bytes → Bytes
write_varint n out =
    let digits = div_ceil (bit_length 64 n) 7 in
    if n == 0 then out ++ (0 ∷ []) else out ++ write_digits digits n

-- The loop of `read_varint`; the bytes that are left stand for the advanced slice.
unfoldable pub read_digits : Bytes → ℕ → Outcome SyncError (ℕ × Bytes)
read_digits [] res = err malformed
read_digits (byte ∷ rest) res =
    let res' = res * 128 % 2 ^ 64 + byte % 128 in
    let more = read_digits rest res' in
    if ltb (u64_max / 128) res
    then err malformed
    else if byte / 128 % 2 == 0
    then ok (res', rest)
    else more

unfoldable pub read_varint : Bytes → Outcome SyncError (ℕ × Bytes)
read_varint input = read_digits input 0
