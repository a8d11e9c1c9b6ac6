-- ===== src/Prelude/Octets.antt =====
-- Byte strings as lists of numbers, with Rust's indexing and slicing, and the integers' byte orders.
use Prim.Native.Nat.{ℕ, zero, suc, ◌+◌, ◌-◌, ◌*◌, ◌/◌, ◌%◌, ◌^◌, ◌<◌, ◌≤◌}
use Prim.Native.Char.{code}
use Prim.Native.String.{String}
use mathlib.Core.Path.{◌≡◌, refl}
use mathlib.Core.Bool.{◌&&◌}
use mathlib.Core.Option.{Option, none, some}
use mathlib.Core.List.{List, [], ◌∷◌, ◌++◌}
use native.Mathlib.Omega.{arith}
use racnet.Prelude.Tests.{ltb, leb, ge→ltb, if◌then◌else◌}
use racnet.Prelude.Fallible.{Outcome, ok, panic, expect}
use racnet.Prelude.Lists.{
  length, get_elem?, take, drop, replicate, length-replicate, length-append, take_at, drop_at,
}

abbrev pub Bytes : Type 0
Bytes = List ℕ

abbrev pub IsByte : ℕ → Type 0
IsByte b = b < 256

abbrev pub IsU64 : ℕ → Type 0
IsU64 n = n < 2 ^ 64

-- `u64::MAX`
abbrev pub u64_max : ℕ
u64_max = 18446744073709551615

-- `[0; n]`
abbrev pub zeros : ℕ → Bytes
zeros n = replicate n 0

pub length-zeros : (n : ℕ) → length (zeros n) ≡ n
length-zeros n = length-replicate n 0

-- `xs[i]`
abbrev pub index {ε} : {E : Type ε} → Bytes → ℕ → Outcome E ℕ
index xs i = expect (get_elem? xs i)

-- `xs[lo..hi]`
abbrev pub slice {ε} : {E : Type ε} → Bytes → ℕ → ℕ → Outcome E Bytes
slice xs lo hi = if leb lo hi && leb hi (length xs) then ok (take (hi - lo) (drop lo xs)) else panic

-- `xs.split_at(n)`
abbrev pub split_at {ε} : {E : Type ε} → ℕ → Bytes → Outcome E (Bytes × Bytes)
split_at n xs = if ltb (length xs) n then panic else ok (take n xs, drop n xs)

pub split_at_fits {ε} :
    (E : Type ε) (n : ℕ) (xs : Bytes)
    → n ≤ length xs
    → split_at {E = E} n xs ≡ ok (take n xs, drop n xs)
split_at_fits E n xs h = rw (ge→ltb (length xs) n h) refl

pub split_at-append {ε} :
    (E : Type ε) (n : ℕ) (xs ys : Bytes)
    → length xs ≡ n
    → split_at {E = E} n (xs ++ ys) ≡ ok (xs, ys)
split_at-append E n xs ys h =
    rw
      (
        ge→ltb (length (xs ++ ys)) n (omega (arith, h, length-append xs ys)),
        take_at n xs ys h,
        drop_at n xs ys h,
      )
      refl

-- `u16::try_from`
abbrev pub u16_try_from : ℕ → Option ℕ
u16_try_from n = if ltb n 65536 then some n else none

-- `u16::to_be_bytes`, `u16::from_be_bytes`
abbrev pub to_be_bytes : ℕ → Bytes
to_be_bytes n = n / 256 % 256 ∷ n % 256 ∷ []

abbrev pub from_be_bytes : ℕ → ℕ → ℕ
from_be_bytes a b = 256 * a + b

pub from_be-to_be : (n : ℕ) → n < 65536 → from_be_bytes (n / 256 % 256) (n % 256) ≡ n
from_be-to_be n h = omega arith

-- `to_le_bytes` of an unsigned integer that is so many bytes wide, and `from_le_bytes`.
abbrev pub to_le_bytes : ℕ → ℕ → Bytes
to_le_bytes zero n = []
to_le_bytes (suc width) n = n % 256 ∷ to_le_bytes width (n / 256)

abbrev pub from_le_bytes : Bytes → ℕ
from_le_bytes [] = 0
from_le_bytes (b ∷ bs) = b + 256 * from_le_bytes bs

-- `b".."`: the codes of an ASCII text.
abbrev pub byte_string : String → Bytes
byte_string String.[] = []
byte_string (String.◌∷◌ c s) = code c ∷ byte_string s
