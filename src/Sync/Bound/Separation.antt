-- ===== src/Sync/Bound/Separation.antt =====
-- `min_separating` of core/src/sync/negentropy/bound.rs.
use racnet.Prelude.{
  ℕ, zero, suc, ◌+◌, ◌-◌, ◌≤◌, ◌<◌, ◌≡◌, ◌⊎◌, inl, inr, refl, true, false, Bytes, [], ◌∷◌, ◌++◌,
  length, length-take, take, zeros, ◌==◌, arith, ok, Bool-cases, slice, le→leb, ◌∙◌, sym, ==_iff,
}
use racnet.Sync.Error.{SyncError}
use racnet.Sync.Bound.{Bound, new, from_ts, bytes_lt, item_is_before, shared, min_separating}

-- No id is below the zeros.
bytes_lt-zeros : (n : ℕ) (xs : Bytes) → n ≤ length xs → bytes_lt xs (zeros n) ≡ false
bytes_lt-zeros zero xs h = refl
bytes_lt-zeros (suc n) [] h = absurd (omega arith)
bytes_lt-zeros (suc n) (x ∷ xs) h = ground (arith, bytes_lt-zeros n xs)

-- The first byte in which two ids differ is within them, and the ids lie on the two sides of it.
splits :
    (xs ys : Bytes)
    → length xs ≡ length ys
    → bytes_lt xs ys ≡ true
    → (shared xs ys < length ys)
      × (bytes_lt xs (take (suc (shared xs ys)) ys ++ zeros (length ys - suc (shared xs ys)))
          ≡ true)
      × (bytes_lt ys (take (suc (shared xs ys)) ys ++ zeros (length ys - suc (shared xs ys)))
          ≡ false)
splits xs [] l h = cc
splits [] (y ∷ ys) l h = absurd (omega arith)
splits (x ∷ xs) (y ∷ ys) l h = elim (Bool-cases (x == y)) [
  | inl same ↦
      let (a, b, c) = splits xs ys (omega (arith, l)) (ground (arith, h, same)) in
      let e : x ≡ y = (==_iff x y).0 same in
      let d : suc (length ys) - suc (suc (shared xs ys)) ≡ length ys - suc (shared xs ys) =
        omega arith in
      rw (same, d) (omega (arith, a), b, rw ((==_iff y y).1 refl) c)
  | inr other ↦
      let d : suc (length ys) - 1 ≡ length ys = omega arith in
      rw (other, d)
        (
          omega arith,
          ground (arith, h, other),
          rw ((==_iff y y).1 refl) (bytes_lt-zeros (length ys) ys (omega arith)),
        )
]

-- What `new` makes of a prefix that is not too long.
abbrev pub bound_at : ℕ → Bytes → Bound
bound_at ts prefix = record {
  ts = ts;
  padded_id = prefix ++ zeros (32 - length prefix);
  prefix_len = length prefix;
}

pub new_fits :
    (ts : ℕ) (prefix : Bytes) → length prefix ≤ 32 → new ts prefix ≡ ok (bound_at ts prefix)
unfolding new
new_fits ts prefix h = rw (le→leb (length prefix) 32 h) refl

slice_front :
    (n : ℕ) (ys : Bytes) → n < length ys → slice {E = SyncError} ys 0 (n + 1) ≡ ok (take (suc n) ys)
slice_front n ys h =
    let to : n + 1 ≡ suc n = omega arith in
    let cut : suc n - 0 ≡ suc n = omega arith in
    rw (to, le→leb (suc n) (length ys) h, cut) (rw (le→leb 0 (suc n) (omega arith)) refl)

-- For two items in their order, with ids of 32 bytes, there is a bound that the first is before and the
-- second is not.
pub min_separating-separates :
    (prev_ts curr_ts : ℕ) (prev_id curr_id : Bytes)
    → length prev_id ≡ 32
    → length curr_id ≡ 32
    → (prev_ts < curr_ts) ⊎ ((prev_ts ≡ curr_ts) × (bytes_lt prev_id curr_id ≡ true))
    → (b : Bound) × (min_separating prev_ts prev_id curr_ts curr_id ≡ ok b)
      × (item_is_before b prev_ts prev_id ≡ true)
      × (item_is_before b curr_ts curr_id ≡ false)
unfolding min_separating from_ts new item_is_before
min_separating-separates prev_ts curr_ts prev_id curr_id l l' (inl lt) =
    let other : (curr_ts == prev_ts) ≡ false = ground arith in
    let before : (prev_ts == curr_ts) ≡ false = ground arith in
    rw other (
      record { ts = curr_ts; padded_id = zeros 32; prefix_len = 0 },
      refl,
      rw before (ground arith),
      rw ((==_iff curr_ts curr_ts).1 refl) (bytes_lt-zeros 32 curr_id (omega arith)),
    )
min_separating-separates prev_ts curr_ts prev_id curr_id l l' (inr (e, lt)) =
    let (inside, below, above) = splits prev_id curr_id (omega arith) lt in
    let n = shared prev_id curr_id in
    let fits : length (take (suc n) curr_id) ≡ suc n =
      length-take (suc n) curr_id ∙ omega (arith, inside) in
    let rest : 32 - length (take (suc n) curr_id) ≡ length curr_id - suc n = omega (arith, fits) in
    let b : Bound = bound_at curr_ts (take (suc n) curr_id) in
    (
      b,
      rw ((==_iff curr_ts prev_ts).1 (sym e)) (
          rw (slice_front n curr_id inside)
            (new_fits curr_ts (take (suc n) curr_id) (omega (arith, fits)))),
      rw ((==_iff prev_ts curr_ts).1 e, rest) below,
      rw ((==_iff curr_ts curr_ts).1 refl, rest) above,
    )
