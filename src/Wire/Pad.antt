-- ===== src/Wire/Pad.antt =====
-- core/src/wire/pad.rs: padding of inner messages to fixed block sizes.
pub mod Blocks
use racnet.Prelude.{
  ℕ, ◌+◌, ◌-◌, ◌*◌, ◌/◌, Bool, Option, none, some, List, [], ◌∷◌, ltb, leb, ◌==◌, if◌then◌else◌,
  false,
}

abbrev pub block_sizes : List ℕ
block_sizes = 256 ∷ 512 ∷ 1024 ∷ 2048 ∷ []

abbrev pub max_padded_len : ℕ
max_padded_len = 63488

-- `usize::div_ceil`
abbrev div_ceil : ℕ → ℕ → ℕ
div_ceil a b = (a + b - 1) / b

-- The `for block in BLOCK_SIZES` loop: the first block that fits.
pub first_block : List ℕ → ℕ → Option ℕ
first_block [] unpadded = none
first_block (block ∷ rest) unpadded =
    if leb unpadded block then some block else first_block rest unpadded

-- The code after the loop.
pub round_up : ℕ → Option ℕ
round_up unpadded =
    let padded = div_ceil unpadded 2048 * 2048 in
    if leb padded max_padded_len then some padded else none

or_else : Option ℕ → Option ℕ → Option ℕ
or_else (some block) _ = some block
or_else none rest = rest

unfoldable pub padded_len : ℕ → Option ℕ
unfolding first_block round_up or_else
padded_len unpadded =
    if ltb max_padded_len unpadded
    then none
    else or_else (first_block block_sizes unpadded) (round_up unpadded)

-- `padded_len(len) == Some(len)`
abbrev pub is_some_eq : Option ℕ → ℕ → Bool
is_some_eq none n = false
is_some_eq (some m) n = m == n

unfoldable pub is_padded_len : ℕ → Bool
is_padded_len len = is_some_eq (padded_len len) len
