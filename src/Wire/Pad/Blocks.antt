-- ===== src/Wire/Pad/Blocks.antt =====
-- What `padded_len` of core/src/wire/pad.rs computes, against the list of permitted lengths.
use racnet.Prelude.{
  ℕ, ◌%◌, ◌≤◌, ◌<◌, ◌≡◌, ◌⊎◌, ◌↔◌, inl, inr, none, some, true, arith, Option-cases,
}
use racnet.Wire.Pad.{padded_len, is_padded_len}

-- A permitted length of a padded message (docs/PROTOCOL.md §1.3): one of the three small blocks,
-- or a multiple of 2048 up to the maximum.
abbrev pub IsPermitted : ℕ → Type 0
IsPermitted len =
    (len ≡ 256) ⊎ (len ≡ 512) ⊎ (len ≡ 1024) ⊎ ((len % 2048 ≡ 0) × (0 < len) × (len ≤ 63488))

-- The result of `padded_len` is a permitted length that holds the message, and no permitted length
-- that holds it is smaller.
pub padded_len_smallest :
    (n p : ℕ)
    → padded_len n ≡ some p
    → IsPermitted p × (n ≤ p) × ((q : ℕ) → IsPermitted q → n ≤ q → p ≤ q)
unfolding padded_len
padded_len_smallest n p h = (ground arith, ground arith, λ q hq le. ground arith)

-- `padded_len` refuses exactly the messages longer than the maximum.
pub padded_len-none_iff : (n : ℕ) → (padded_len n ≡ none) ↔ (63488 < n)
unfolding padded_len
padded_len-none_iff n = (λ h. ground arith, λ h. ground arith)

-- `is_padded_len` accepts exactly the permitted lengths.
pub is_padded_len_iff : (n : ℕ) → (is_padded_len n ≡ true) ↔ IsPermitted n
unfolding is_padded_len padded_len
is_padded_len_iff n = (λ h. ground arith, λ h. ground arith)

-- A length that fits has a block.
pub padded_len-some : (n : ℕ) → n ≤ 63488 → (p : ℕ) × (padded_len n ≡ some p)
padded_len-some n h = elim (Option-cases (padded_len n)) [
  | inl none_at ↦ absurd (omega (arith, (padded_len-none_iff n).0 none_at))
  | inr found ↦ found
]

pub padded_len_bounds : (n p : ℕ) → padded_len n ≡ some p → (n ≤ p) × (256 ≤ p) × (p ≤ 63488)
unfolding padded_len
padded_len_bounds n p h = ground arith
