-- ===== src/Sync/IdSum/Sums.antt =====
-- The limbs of `IdSum` (core/src/sync/negentropy/fingerprint.rs) against numbers modulo 2^256.
use racnet.Prelude.{
  ℕ, zero, suc, ◌+◌, ◌-◌, ◌*◌, ◌%◌, ◌^◌, ◌≤◌, ◌<◌, ◌≡◌, refl, ap, ◌∙◌, Bool, true, false, Bytes, [],
  ◌∷◌, All, All-drop, IsByte, length, take, drop, from_le_bytes, to_le_bytes, arith,
}
use native.Mathlib.Numerals.{towards_suc}
use native.Mathlib.Nat.{mul_assoc}
use racnet.Sync.IdSum.{
  IdSum, zero_sum, bit, add_limb, add_limbs, limbs_of, add_id, combine, complement, negate,
}

-- The number that four limbs stand for.
abbrev pub value : IdSum → ℕ
value s = s.limb0 + 2 ^ 64 * s.limb1 + 2 ^ 128 * s.limb2 + 2 ^ 192 * s.limb3

abbrev pub IsLimbs : IdSum → Type 0
IsLimbs s = (s.limb0 < 2 ^ 64) × (s.limb1 < 2 ^ 64) × (s.limb2 < 2 ^ 64) × (s.limb3 < 2 ^ 64)

add_limb_carries :
    (x y : ℕ) (carry : Bool)
    → x < 2 ^ 64
    → y < 2 ^ 64
    → ((add_limb x y carry).0 + 2 ^ 64 * bit (add_limb x y carry).1 ≡ x + y + bit carry)
      × ((add_limb x y carry).0 < 2 ^ 64)
unfolding add_limb
add_limb_carries x y true h k = ground arith
add_limb_carries x y false h k = ground arith

-- Addition of limbs is addition modulo 2^256.
pub value-add_limbs :
    (a b : IdSum)
    → IsLimbs a
    → IsLimbs b
    → (value (add_limbs a b) ≡ (value a + value b) % 2 ^ 256) × IsLimbs (add_limbs a b)
unfolding add_limbs
value-add_limbs a b h k =
    let (e0, l0) = add_limb_carries a.limb0 b.limb0 false h.0 k.0 in
    let c0 = (add_limb a.limb0 b.limb0 false).1 in
    let (e1, l1) = add_limb_carries a.limb1 b.limb1 c0 h.1 k.1 in
    let c1 = (add_limb a.limb1 b.limb1 c0).1 in
    let (e2, l2) = add_limb_carries a.limb2 b.limb2 c1 h.2 k.2 in
    let c2 = (add_limb a.limb2 b.limb2 c1).1 in
    let (e3, l3) = add_limb_carries a.limb3 b.limb3 c2 h.3 k.3 in
    (omega (arith, e0, l0, e1, l1, e2, l2, e3, l3), (l0, l1, l2, l3))

-- Limbs are determined by their number.
pub value-injective : (a b : IdSum) → IsLimbs a → IsLimbs b → value a ≡ value b → a ≡ b
value-injective a b h k e =
    let e0 : a.limb0 ≡ b.limb0 = omega arith in
    let e1 : a.limb1 ≡ b.limb1 = omega (arith, e0) in
    let e2 : a.limb2 ≡ b.limb2 = omega (arith, e0, e1) in
    let e3 : a.limb3 ≡ b.limb3 = omega (arith, e0, e1, e2) in ground arith

-- The number of an id: its bytes, the lowest first.
shift_byte : (n : ℕ) → 2 ^ (8 * suc n) ≡ 256 * 2 ^ (8 * n)
shift_byte n = let e : 8 * suc n ≡ 8 * n + 8 = omega arith in rw e (simp towards_suc (omega arith))

from_le_bytes-split :
    (n : ℕ) (bs : Bytes)
    → from_le_bytes bs ≡ from_le_bytes (take n bs) + 2 ^ (8 * n) * from_le_bytes (drop n bs)
from_le_bytes-split zero bs = omega arith
from_le_bytes-split (suc n) [] = omega arith
from_le_bytes-split (suc n) (b ∷ bs) = omega (
  arith,
  from_le_bytes-split n bs,
  ap (λ (k : ℕ). k * from_le_bytes (drop n bs)) (shift_byte n),
  mul_assoc 256 (2 ^ (8 * n)) (from_le_bytes (drop n bs)),
)

from_le_bytes-lt : (n : ℕ) (bs : Bytes) → All IsByte bs → from_le_bytes (take n bs) < 2 ^ (8 * n)
from_le_bytes-lt zero bs h = omega arith
from_le_bytes-lt (suc n) [] h = rw (shift_byte n) (omega (arith, from_le_bytes-lt n [] tt))
from_le_bytes-lt (suc n) (b ∷ bs) (h, hs) =
    rw (shift_byte n) (omega (arith, from_le_bytes-lt n bs hs))

-- An id: 32 bytes.
abbrev pub IsEntryId : Bytes → Type 0
IsEntryId id = (length id ≡ 32) × All IsByte id

drop_none : (n : ℕ) → drop {A = ℕ} n [] ≡ []
drop_none zero = refl
drop_none (suc n) = refl

drop-drop : (m n : ℕ) (bs : Bytes) → drop m (drop n bs) ≡ drop (n + m) bs
drop-drop m zero bs = let e : 0 + m ≡ m = omega arith in rw e refl
drop-drop m (suc n) [] = rw (drop_none m, drop_none (suc n + m)) refl
drop-drop m (suc n) (b ∷ bs) =
    let e : suc n + m ≡ suc (n + m) = omega arith in rw e (drop-drop m n bs)

drop_all : (n : ℕ) (bs : Bytes) → length bs ≤ n → drop n bs ≡ []
drop_all zero [] h = refl
drop_all zero (b ∷ bs) h = absurd (omega arith)
drop_all (suc n) [] h = refl
drop_all (suc n) (b ∷ bs) h = drop_all n bs (omega arith)

-- The limbs of an id hold the number that its bytes are.
pub limbs_of-value :
    (id : Bytes) → IsEntryId id → IsLimbs (limbs_of id) × (value (limbs_of id) ≡ from_le_bytes id)
unfolding limbs_of
limbs_of-value id (l, bytes) =
    let d1 : drop 8 (drop 8 id) ≡ drop 16 id = drop-drop 8 8 id in
    let d2 : drop 8 (drop 16 id) ≡ drop 24 id = drop-drop 8 16 id in
    let d3 : drop 8 (drop 24 id) ≡ [] = drop-drop 8 24 id ∙ drop_all 32 id (omega arith) in
    let e0 = from_le_bytes-split 8 id in
    let e1 = from_le_bytes-split 8 (drop 8 id) in
    let e2 = from_le_bytes-split 8 (drop 16 id) in
    let e3 = from_le_bytes-split 8 (drop 24 id) in
    let f1 = ap from_le_bytes d1 in
    let f2 = ap from_le_bytes d2 in
    let f3 = ap from_le_bytes d3 in
    (
      (
        from_le_bytes-lt 8 id bytes,
        from_le_bytes-lt 8 (drop 8 id) (All-drop IsByte 8 id bytes),
        from_le_bytes-lt 8 (drop 16 id) (All-drop IsByte 16 id bytes),
        from_le_bytes-lt 8 (drop 24 id) (All-drop IsByte 24 id bytes),
      ),
      omega (arith, e0, e1, e2, e3, f1, f2, f3),
    )

-- A sum that stands for a number modulo 2^256.
abbrev pub Represents : IdSum → ℕ → Type 0
Represents s n = IsLimbs s × (value s ≡ n % 2 ^ 256)

pub zero_sum-Represents : Represents zero_sum 0
unfolding zero_sum
zero_sum-Represents = omega arith

pub combine-Represents :
    (a b : IdSum) (m n : ℕ) → Represents a m → Represents b n → Represents (combine a b) (m + n)
unfolding combine
combine-Represents a b m n (h, e) (k, f) =
    let (sum, limbs) = value-add_limbs a b h k in (limbs, omega (arith, sum, e, f))

pub add_id-Represents :
    (s : IdSum) (n : ℕ) (id : Bytes)
    → Represents s n
    → IsEntryId id
    → Represents (add_id s id) (n + from_le_bytes id)
unfolding add_id
add_id-Represents s n id (h, e) i =
    let (limbs, whole) = limbs_of-value id i in
    let (sum, limbs') = value-add_limbs s (limbs_of id) h limbs in
    (limbs', omega (arith, sum, whole, e))

-- Negation is negation modulo 2^256.
pub value-negate :
    (s : IdSum)
    → IsLimbs s
    → IsLimbs (negate s) × (value (negate s) ≡ (2 ^ 256 - value s) % 2 ^ 256)
unfolding negate add_id limbs_of
value-negate s h =
    let (sum, limbs) =
      value-add_limbs
        (record {
          limb0 = complement s.limb0;
          limb1 = complement s.limb1;
          limb2 = complement s.limb2;
          limb3 = complement s.limb3;
        })
        (limbs_of (to_le_bytes 32 1)) (omega arith) (omega arith) in
    (limbs, omega (arith, sum))

-- A difference of sums stands for the difference.
pub combine-negate-Represents :
    (a b : IdSum) (m n : ℕ)
    → Represents a (m + n)
    → Represents b m
    → Represents (combine a (negate b)) n
unfolding combine
combine-negate-Represents a b m n (h, e) (k, f) =
    let (l, g) = value-negate b k in
    let (sum, limbs) = value-add_limbs a (negate b) h l in (limbs, omega (arith, sum, e, f, g))
