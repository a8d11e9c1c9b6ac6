-- ===== src/Sync/Negentropy/Total.antt =====
-- The engine of core/src/sync/negentropy/mod.rs panics on no message, over any store that keeps its
-- contract, and its loop ends.
use racnet.Prelude.{
  ℕ, zero, suc, ◌+◌, ◌-◌, ◌*◌, ◌/◌, ◌%◌, ◌≤◌, ◌<◌, ◌≡◌, ◌==◌, refl, subst, true, Bytes, List, [],
  ◌∷◌, some, All, length, get_elem?, ltb, ltb→lt, ltb→ge, ge→ltb, arith, Yields, bind-Yields,
  Yields-ok, Yields-if, ◌⊎◌, Bool-cases, inl, inr,
}
use native.Mathlib.Nat.{suc-mul}
use Prim.Native.Nat.Ordering.{lt}
use racnet.Store.{Item}
use racnet.Store.ItemOrder.{cmp, cmp_bytes}
use racnet.Store.Order.Sorted.{IsSorted, IsBelow}
use racnet.Store.Order.Summed
use racnet.Sync.Bound
use racnet.Sync.Bound.{
  Bound, BoundCodec, new_codec, bytes_lt, encode, decode, decode_prefix, take_prefix,
  min_separating,
}
use racnet.Sync.Bound.Separation.{new_fits, min_separating-separates}
use racnet.Sync.Negentropy.{
  NegentropyStore, Negentropy, buckets, is_extra, next_bound, split_buckets, split_range, initiate,
}

-- The contract of a store: it presents a sorted list of items with 32-byte ids.
pub record Presents {S : Type 0} (stores : NegentropyStore S) (s : S) (xs : List Item)
    : Type 0 where
  pub sorted : IsSorted xs
  pub ids : All (λ x. length x.id ≡ 32) xs
  pub len : stores.len s ≡ length xs
  pub item_at : (i : ℕ) → stores.item_at s i ≡ get_elem? xs i
  pub lower_bound :
      (lo hi : ℕ) (b : Bound)
      → lo ≤ hi
      → hi ≤ length xs
      → (k : ℕ) × (stores.lower_bound s lo hi b ≡ some k) × (lo ≤ k) × (k ≤ hi)
  pub fingerprint :
      (lo hi : ℕ) → lo ≤ hi → hi ≤ length xs → (fp : Bytes) × (stores.fingerprint s lo hi ≡ some fp)
  pub for_each :
      (lo hi : ℕ)
      → lo ≤ hi
      → hi ≤ length xs
      → stores.for_each s lo hi ≡ some (Summed.slice lo hi xs)

cmp_bytes-bytes_lt : (xs ys : Bytes) → cmp_bytes xs ys ≡ lt → bytes_lt xs ys ≡ true
cmp_bytes-bytes_lt [] [] h = cc
cmp_bytes-bytes_lt [] (y ∷ ys) h = refl
cmp_bytes-bytes_lt (x ∷ xs) [] h = cc
cmp_bytes-bytes_lt (x ∷ xs) (y ∷ ys) h = ground (arith, cmp_bytes-bytes_lt xs ys)

-- Two neighbours of a sorted list.
neighbours :
    (xs : List Item) (i : ℕ)
    → IsSorted xs
    → All (λ x. length x.id ≡ 32) xs
    → suc i < length xs
    → (a : Item) × (b : Item) × (get_elem? xs i ≡ some a)
      × (get_elem? xs (suc i) ≡ some b)
      × IsBelow a b
      × (length a.id ≡ 32)
      × (length b.id ≡ 32)
neighbours [] i s l h = absurd (omega arith)
neighbours (x ∷ []) i s l h = absurd (omega arith)
neighbours (x ∷ (y ∷ ys)) zero ((b, _), _) (l, (l', _)) h = (x, y, refl, refl, b, l, l')
neighbours (x ∷ (y ∷ ys)) (suc i) (_, s) (_, l) h = neighbours (y ∷ ys) i s l (omega arith)

-- Any value at all.
abbrev pub IsAny : {A : Type 0} → A → Type 0
IsAny a = Unit {0}

separates :
    (a b : Item)
    → IsBelow a b
    → length a.id ≡ 32
    → length b.id ≡ 32
    → Yields IsAny (min_separating a.sort_key a.id b.sort_key b.id)
unfolding cmp
separates a b h l l' =
    let apart : (a.sort_key < b.sort_key)
        ⊎ ((a.sort_key ≡ b.sort_key) × (bytes_lt a.id b.id ≡ true)) =
      elim (Bool-cases (ltb a.sort_key b.sort_key)) [
        | inl y ↦ inl (ltb→lt _ _ y)
        | inr y ↦ inr (ground (arith, h, y), cmp_bytes-bytes_lt a.id b.id (ground (arith, h, y)))
      ] in
    let (bound, e, _, _) = min_separating-separates a.sort_key b.sort_key a.id b.id l l' apart in
    Yields-ok IsAny _ bound e tt

module _ {S : Type 0} (stores : NegentropyStore S) (s : S) (xs : List Item)
    (h : Presents stores s xs) where
  next_bound-Yields :
      (curr upper : ℕ) (b : Bound)
      → 0 < curr
      → curr ≤ upper
      → upper ≤ length xs
      → Yields IsAny (next_bound stores s curr upper b)
  unfolding next_bound
  next_bound-Yields curr upper b k l m = elim (Bool-cases (curr == upper)) [
    | inl y ↦ rw (y, Yields, next_bound) tt
    | inr y ↦
        let before : suc (curr - 1) ≡ curr = omega (arith, k) in
        let (p, q, e, f, below, lp, lq) =
          neighbours xs (curr - 1) h.sorted h.ids (ground (arith, y)) in
        let f' : get_elem? xs curr ≡ some q = subst (λ i. get_elem? xs i ≡ some q) before f in
        rw (y, h.item_at (curr - 1), h.item_at curr, e, f', next_bound, Yields)
          (separates p q below lp lq)
  ]

  -- The buckets that are left end at the end of the range.
  split_buckets-Yields :
      (left per extra curr upper : ℕ) (b : Bound) (codec : BoundCodec) (out : Bytes)
      → left ≤ 16
      → 0 < per
      → curr + left * per + (extra - (16 - left)) ≡ upper
      → upper ≤ length xs
      → Yields IsAny (split_buckets stores s per extra curr upper b codec out left)
  unfolding split_buckets
  split_buckets-Yields zero per extra curr upper b codec out k p e l = tt
  split_buckets-Yields (suc left) per extra curr upper b codec out k p e l =
      let size = per + is_extra (buckets - suc left) extra in
      let m : suc left * per ≡ left * per + per = suc-mul left per in
      let sized : curr + size + left * per + (extra - (16 - left)) ≡ upper =
        ground (arith, m, e, k) in
      let (fp, f) = h.fingerprint curr (curr + size) (omega arith) (omega (arith, sized, l)) in
      rw (f, Yields, split_buckets)
        (bind-Yields IsAny IsAny (next_bound stores s (curr + size) upper b) _
          (next_bound-Yields (curr + size) upper b (omega (arith, p)) (omega (arith, sized)) l)
          (λ b' _.
            split_buckets-Yields left per extra (curr + size) upper b _ _ (omega (arith, k)) p sized
              l))

  pub split_range-Yields :
      (lower upper : ℕ) (b : Bound) (codec : BoundCodec) (out : Bytes)
      → lower ≤ upper
      → upper ≤ length xs
      → Yields IsAny (split_range stores s lower upper b codec out)
  unfolding split_range
  split_range-Yields lower upper b codec out k l = elim (Bool-cases (ltb (upper - lower) 32)) [
    | inl y ↦ rw (ge→ltb upper lower k, y, h.for_each lower upper k l, split_range, Yields) tt
    | inr y ↦
        let more = ltb→ge _ _ y in
        rw (ge→ltb upper lower k, y, split_range, Yields)
          (split_buckets-Yields 16 ((upper - lower) / 16) ((upper - lower) % 16) lower upper b codec
            out (omega arith) (omega (arith, more)) (omega (arith, k)) l)
  ]

pub infinity-Yields : Yields IsAny Bound.infinity
unfolding Bound.infinity Bound.from_ts
infinity-Yields = Yields-ok IsAny _ _ (new_fits Bound.ts_infinity [] (omega arith)) tt

-- Over a store that keeps its contract, `initiate` does not panic.
pub initiate-Yields :
    {S : Type 0} (stores : NegentropyStore S) (n : Negentropy S) (xs : List Item)
    → Presents stores n.store xs
    → Yields IsAny (initiate stores n)
unfolding initiate
initiate-Yields stores n xs h =
    Yields-if IsAny n.is_initiator _ _ (λ _. tt)
      (λ _. bind-Yields IsAny IsAny Bound.infinity _ infinity-Yields (λ b _.
        bind-Yields IsAny IsAny
          (split_range stores n.store 0 (stores.len n.store) b new_codec (97 ∷ [])) _
          (split_range-Yields stores n.store xs h 0 (stores.len n.store) b new_codec (97 ∷ [])
            (omega arith) (omega (arith, h.len)))
          (λ _ _. tt)))
