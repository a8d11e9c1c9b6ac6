-- ===== src/Sync/IdSum.antt =====
-- core/src/sync/negentropy/fingerprint.rs: sums of ids modulo 2^256 in four limbs, and fingerprints.
-- The array of limbs is a record, and the loops over it are written out.
pub mod Sums
use racnet.Prelude.{
  ℕ, zero, suc, ◌+◌, ◌-◌, ◌%◌, ◌^◌, ◌≤◌, Bool, true, false, ◌||◌, Bytes, [], ◌∷◌, ◌++◌, take, drop,
  leb, to_le_bytes, from_le_bytes,
}
use racnet.Sync.Varint.{write_varint}

abbrev pub fingerprint_size : ℕ
fingerprint_size = 16

pub record IdSum : Type 0 where
  pub limb0 : ℕ
  pub limb1 : ℕ
  pub limb2 : ℕ
  pub limb3 : ℕ

unfoldable pub zero_sum : IdSum
zero_sum = record { limb0 = 0; limb1 = 0; limb2 = 0; limb3 = 0 }

abbrev pub bit : Bool → ℕ
bit true = 1
bit false = 0

-- `overflowing_add`
abbrev wrapped : ℕ → ℕ → ℕ
wrapped a b = (a + b) % 2 ^ 64

abbrev overflows : ℕ → ℕ → Bool
overflows a b = leb (2 ^ 64) (a + b)

-- One round of the loop of `add_limbs`: the limb, and the carry out of it.
unfoldable pub add_limb : ℕ → ℕ → Bool → ℕ × Bool
add_limb limb add carry =
    let sum = wrapped limb add in
    (wrapped sum (bit carry), overflows limb add || overflows sum (bit carry))

unfoldable pub add_limbs : IdSum → IdSum → IdSum
add_limbs s other =
    let (sum0, carry0) = add_limb s.limb0 other.limb0 false in
    let (sum1, carry1) = add_limb s.limb1 other.limb1 carry0 in
    let (sum2, carry2) = add_limb s.limb2 other.limb2 carry1 in
    let (sum3, carry3) = add_limb s.limb3 other.limb3 carry2 in
    record { limb0 = sum0; limb1 = sum1; limb2 = sum2; limb3 = sum3 }

-- `as_chunks::<8>` and `u64::from_le_bytes` of each chunk.
unfoldable pub limbs_of : Bytes → IdSum
limbs_of id = record {
  limb0 = from_le_bytes (take 8 id);
  limb1 = from_le_bytes (take 8 (drop 8 id));
  limb2 = from_le_bytes (take 8 (drop 16 id));
  limb3 = from_le_bytes (take 8 (drop 24 id));
}

unfoldable pub add_id : IdSum → Bytes → IdSum
add_id s id = add_limbs s (limbs_of id)

unfoldable pub combine : IdSum → IdSum → IdSum
combine s other = add_limbs s other

-- `!limb` of a `u64`.
abbrev pub complement : ℕ → ℕ
complement limb = 2 ^ 64 - 1 - limb

unfoldable pub negate : IdSum → IdSum
negate s =
    let flipped : IdSum = record {
      limb0 = complement s.limb0;
      limb1 = complement s.limb1;
      limb2 = complement s.limb2;
      limb3 = complement s.limb3;
    } in
    add_id flipped (to_le_bytes 32 1)

unfoldable pub sum_to_le_bytes : IdSum → Bytes
sum_to_le_bytes s =
    to_le_bytes 8 s.limb0
    ++ (to_le_bytes 8 s.limb1 ++ (to_le_bytes 8 s.limb2 ++ to_le_bytes 8 s.limb3))

-- `sha256` is `Sha256::digest`.
unfoldable pub fingerprint : (Bytes → Bytes) → IdSum → ℕ → Bytes
fingerprint sha256 s count = take fingerprint_size (sha256 (write_varint count (sum_to_le_bytes s)))
