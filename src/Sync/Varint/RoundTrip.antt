-- ===== src/Sync/Varint/RoundTrip.antt =====
-- `read_varint` of core/src/sync/negentropy/varint.rs against `write_varint`, and on any input.
use racnet.Prelude.{
  ℕ, zero, suc, ◌+◌, ◌-◌, ◌*◌, ◌/◌, ◌%◌, ◌^◌, ◌≤◌, ◌<◌, ◌≡◌, ◌≢◌, ap, ◌∙◌, false, [], ◌∷◌, ◌++◌,
  Bytes, length, ◌==◌, ok, arith, Bool-cases, inl, inr, subst, ==_iff,
}
use native.Mathlib.Numerals.{towards_suc}
use native.Mathlib.Nat.{div-div-eq-div-mul, div-le_self, pow-succ', pow-le-pow_right, div-eq_of_lt}
use racnet.Sync.Varint.{bit_length, write_digits, write_varint, read_digits, read_varint}

read_digits_takes :
    (input : Bytes) (res : ℕ) (rest : Bytes) (n : ℕ)
    → read_digits input res ≡ ok (n, rest)
    → (n < 2 ^ 64) × (length rest < length input)
unfolding read_digits
read_digits_takes [] res rest n e = cc
read_digits_takes (b ∷ bs) res rest n e =
    ground (arith, read_digits_takes bs (res * 128 % 2 ^ 64 + b % 128) rest n)

shift_seven : (i : ℕ) → 2 ^ (7 * suc i) ≡ 2 ^ (7 * i) * 128
shift_seven i = let e : 7 * suc i ≡ 7 * i + 7 = omega arith in rw e (simp towards_suc (omega arith))

digit_step : (n i : ℕ) → n / 2 ^ (7 * suc i) * 128 + n / 2 ^ (7 * i) % 128 ≡ n / 2 ^ (7 * i)
digit_step n i = rw (shift_seven i, ← div-div-eq-div-mul n (2 ^ (7 * i)) 128) (omega arith)

below_top : (n i : ℕ) → n < 2 ^ 64 → n / 2 ^ (7 * suc i) ≤ 144115188075855871
below_top n i h =
    rw (shift_seven i, ← div-div-eq-div-mul n (2 ^ (7 * i)) 128)
      (omega (arith, div-le_self n (2 ^ (7 * i))))

-- One digit: the value so far is `n` shifted right by the digits that are still to come.
one_digit :
    (n i : ℕ) (bytes : Bytes)
    → n < 2 ^ 64
    → i ≢ 0
    → read_digits ((n / 2 ^ (7 * i) % 128 + 128) ∷ bytes) (n / 2 ^ (7 * suc i))
      ≡ read_digits bytes (n / 2 ^ (7 * i))
unfolding read_digits
one_digit n i bytes h ne = ground (arith, below_top n i h, digit_step n i)

last_digit :
    (n : ℕ) (bytes : Bytes)
    → n < 2 ^ 64
    → read_digits ((n / 2 ^ (7 * 0) % 128) ∷ bytes) (n / 2 ^ (7 * 1)) ≡ ok (n, bytes)
unfolding read_digits
last_digit n bytes h = ground (arith, below_top n 0 h, digit_step n 0)

read_digits-write_digits :
    (i n : ℕ) (rest : Bytes)
    → n < 2 ^ 64
    → read_digits (write_digits (suc i) n ++ rest) (n / 2 ^ (7 * suc i)) ≡ ok (n, rest)
unfolding write_digits
read_digits-write_digits zero n rest h = last_digit n rest h
read_digits-write_digits (suc i) n rest h =
    let more : (suc i == 0) ≡ false = ground arith in
    rw more (
      one_digit n (suc i) (write_digits (suc i) n ++ rest) h (omega arith)
      ∙ read_digits-write_digits i n rest h)

lt-bit_length : (most n : ℕ) → n < 2 ^ most → n < 2 ^ bit_length most n
unfolding bit_length
lt-bit_length zero n h = h
lt-bit_length (suc most) n h = elim (Bool-cases (n == 0)) [
  | inl z ↦ rw z (omega (arith, (==_iff n 0).0 z))
  | inr nz ↦ rw nz (
      omega (
        arith,
        lt-bit_length most (n / 2) (omega (arith, pow-succ' 2 most)),
        pow-succ' 2 (bit_length most (n / 2)),
        ap (λ (k : ℕ). 2 ^ k) (one_plus (bit_length most (n / 2))),
      ))
]
  where
    one_plus : (k : ℕ) → 1 + k ≡ suc k
    one_plus k = omega arith

pos-bit_length : (most n : ℕ) → n ≢ 0 → 0 < bit_length (suc most) n
unfolding bit_length
pos-bit_length most n h = ground arith

-- There is a digit at least, and the digits hold all bits.
enough_digits :
    (n : ℕ)
    → n < 2 ^ 64
    → n ≢ 0
    → (i : ℕ) × ((bit_length 64 n + 7 - 1) / 7 ≡ suc i) × (n / 2 ^ (7 * suc i) ≡ 0)
enough_digits n h ne =
    let bits = bit_length 64 n in
    let i = (bits + 7 - 1) / 7 - 1 in
    let pos = pos-bit_length 63 n ne in
    let fits : n < 2 ^ (7 * suc i) =
      lt_trans' (lt-bit_length 64 n h) (pow-le-pow_right {n = 2} (omega arith) (omega arith)) in
    (i, omega arith, div-eq_of_lt fits)
  where
    lt_trans' : {a b c : ℕ} → a < b → b ≤ c → a < c
    lt_trans' p q = omega arith

zero_digit : (rest : Bytes) → read_digits (0 ∷ rest) 0 ≡ ok (0, rest)
unfolding read_digits
zero_digit rest = ground arith

-- A `u64` that `write_varint` appended is read back, and whatever follows it is left.
pub read_varint-write_varint :
    (n : ℕ) (rest : Bytes) → n < 2 ^ 64 → read_varint (write_varint n [] ++ rest) ≡ ok (n, rest)
unfolding read_varint write_varint
read_varint-write_varint n rest h = elim (Bool-cases (n == 0)) [
  | inl z ↦ rw z (rw ((==_iff n 0).0 z) (zero_digit rest))
  | inr nz ↦
      let (i, d, e) = enough_digits n h (ground arith) in
      rw nz (
        rw d (
          subst (λ (r : ℕ). read_digits (write_digits (suc i) n ++ rest) r ≡ ok (n, rest)) e
            (read_digits-write_digits i n rest h)))
]

-- On any input, a number that is read is a `u64`, and one byte at least was taken.
pub read_varint_takes :
    (input rest : Bytes) (n : ℕ)
    → read_varint input ≡ ok (n, rest)
    → (n < 2 ^ 64) × (length rest < length input)
unfolding read_varint
read_varint_takes input rest n e = read_digits_takes input 0 rest n e
