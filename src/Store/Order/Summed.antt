-- ===== src/Store/Order/Summed.antt =====
-- What `summary` of core/src/store/order.rs answers, in terms of the items in order.
use racnet.Prelude.{
  from_le_bytes, ℕ, zero, suc, ◌+◌, ◌-◌, ◌%◌, ◌^◌, ◌≤◌, ◌<◌, ◌≡◌, ◌==◌, refl, some, List, [], ◌∷◌,
  ◌++◌, length, take, drop, take-append, arith, leb, leb→le, leb→gt, Bool-cases, inl, inr, true,
}
use racnet.Store.{Item}
use racnet.Store.Order.{
  Tree, subtree_count, take_left, prefix_from, prefix_summary, is_range, difference, summary,
}
use racnet.Store.Order.Tree.{nil, node}
use racnet.Store.Order.Shape.{
  items, size, total, id_total, total-items, IsSummarized, subtree_count-size, size-items,
}
use racnet.Store.Order.Rotated.{Represents-same}
use racnet.Sync.IdSum.{IdSum, zero_sum, add_id}
use racnet.Sync.IdSum.Sums.{
  Represents, zero_sum-Represents, combine-Represents, add_id-Represents, combine-negate-Represents,
}

-- The items of a list from one rank up to another.
abbrev pub slice : ℕ → ℕ → List Item → List Item
slice lo hi xs = take (hi - lo) (drop lo xs)

-- A count, and a sum that stands for a number.
abbrev SumsTo : ℕ × IdSum → ℕ → ℕ → Type 0
SumsTo p count n = (p.0 ≡ count) × Represents p.1 n

take_left-SumsTo :
    (t : Tree) (count : ℕ) (sum : IdSum) (n : ℕ)
    → IsSummarized t
    → Represents sum n
    → SumsTo (take_left t count sum) (count + size t) (n + total t)
unfolding take_left
take_left-SumsTo nil count sum n h r = (omega arith, Represents-same sum n _ r (omega arith))
take_left-SumsTo (node item left right c s) count sum n h r =
    (omega (arith, h.0), combine-Represents sum s n (total (node item left right c s)) r h.1)

id_total-take_past :
    (k : ℕ) (xs : List Item) (x : Item) (ys : List Item)
    → length xs < k
    → id_total (take k (xs ++ (x ∷ ys)))
      ≡ id_total xs + from_le_bytes x.id + id_total (take (k - (length xs + 1)) ys)
id_total-take_past zero xs x ys h = absurd (omega arith)
id_total-take_past (suc k) [] x ys h =
    let e : suc k - (0 + 1) ≡ k = omega arith in rw e (omega arith)
id_total-take_past (suc k) (z ∷ zs) x ys h =
    let e : suc k - (suc (length zs) + 1) ≡ k - (length zs + 1) = omega arith in
    rw e (omega (arith, id_total-take_past k zs x ys (omega arith)))

prefix_from-SumsTo :
    (t : Tree) (remaining count : ℕ) (sum : IdSum) (n : ℕ)
    → IsSummarized t
    → remaining ≤ size t
    → Represents sum n
    → SumsTo
        (prefix_from t remaining count sum)
        (count + remaining)
        (n + id_total (take remaining (items t)))
unfolding prefix_from
prefix_from-SumsTo nil zero count sum n h k r =
    (omega arith, Represents-same sum n _ r (omega arith))
prefix_from-SumsTo nil (suc m) count sum n h k r = absurd (omega arith)
prefix_from-SumsTo (node item left right c s) remaining count sum n (_, _, i, hl, hr) k r =
    let nl = subtree_count-size left hl in
    let ml = size-items left in
    elim (Bool-cases (remaining == 0)) [
      | inl y ↦
          let e : remaining ≡ 0 = ground (arith, y) in
          rw (y, e, prefix_from) (omega arith, Represents-same sum n _ r (omega arith))
      | inr y ↦ elim (Bool-cases (leb remaining (subtree_count left))) [
        | inl z ↦
            let le = leb→le _ _ z in
            rw
              (
                y,
                z,
                prefix_from,
                take-append remaining (items left) (item ∷ items right) (omega (arith, le, nl, ml)),
              )
              (prefix_from-SumsTo left remaining count sum n hl (omega (arith, le, nl)) r)
        | inr z ↦
            let gt = leb→gt _ _ z in
            let (c', s') = take_left-SumsTo left count sum n hl r in
            let own =
              add_id-Represents (take_left left count sum).1 (n + total left) item.id s' i in
            let e : remaining - (length (items left) + 1) ≡ remaining - (subtree_count left + 1) =
              omega (arith, nl, ml) in
            let (c'', s'') =
              prefix_from-SumsTo right (remaining - (subtree_count left + 1))
                ((take_left left count sum).0 + 1) (add_id (take_left left count sum).1 item.id)
                (n + total left + from_le_bytes item.id) hr (omega (arith, gt, nl, k)) own in
            rw
              (
                y,
                z,
                prefix_from,
                id_total-take_past remaining (items left) item (items right)
                    (omega (arith, gt, nl, ml)),
                e,
              )
              (
                omega (arith, c'', c', nl, gt),
                Represents-same _ _ _ s'' (omega (arith, total-items left)),
              )
      ]
    ]

take_none : (n : ℕ) → 0 ≡ 0 + id_total (take {A = Item} n [])
take_none zero = refl
take_none (suc n) = refl

id_total-slice :
    (lo hi : ℕ) (xs : List Item)
    → lo ≤ hi
    → id_total (take hi xs) ≡ id_total (take lo xs) + id_total (slice lo hi xs)
id_total-slice zero hi xs h = let e : hi - 0 ≡ hi = omega arith in rw e (omega arith)
id_total-slice (suc lo) zero xs h = absurd (omega arith)
id_total-slice (suc lo) (suc hi) [] h =
    let e : suc hi - suc lo ≡ hi - lo = omega arith in rw e (take_none (hi - lo))
id_total-slice (suc lo) (suc hi) (x ∷ xs) h =
    let e : suc hi - suc lo ≡ hi - lo = omega arith in
    rw e (omega (arith, id_total-slice lo hi xs (omega arith)))

-- In an index with the right counts and sums and fewer than 2^32 items, `summary` of a range of ranks does
-- not panic: it is the number of items in the range and limbs that hold the sum of their ids modulo 2^256.
pub summary-slice :
    (t : Tree) (lo hi : ℕ)
    → IsSummarized t
    → size t < 2 ^ 32
    → lo ≤ hi
    → hi ≤ size t
    → (sum : IdSum) × (summary t lo hi ≡ some (hi - lo, sum))
      × Represents sum (id_total (slice lo hi (items t)))
unfolding summary prefix_summary difference
summary-slice t lo hi h k a b =
    let n = subtree_count-size t h in
    let e : is_range t lo hi ≡ true = ground (arith, a, b, n) in
    let small_hi : hi % 2 ^ 32 ≡ hi = omega arith in
    let small_lo : lo % 2 ^ 32 ≡ lo = omega arith in
    let (c1, s1) = prefix_from-SumsTo t hi 0 zero_sum 0 h b zero_sum-Represents in
    let (c2, s2) = prefix_from-SumsTo t lo 0 zero_sum 0 h (omega arith) zero_sum-Represents in
    let zeros : 0 + hi - (0 + lo) ≡ hi - lo = omega arith in
    let whole =
      Represents-same _ _ (0 + id_total (take lo (items t)) + id_total (slice lo hi (items t))) s1
        (omega (arith, id_total-slice lo hi (items t) a)) in
    rw (e, small_hi, small_lo, c1, c2, zeros)
      (
        _,
        refl,
        combine-negate-Represents (prefix_from t hi 0 zero_sum).1 (prefix_from t lo 0 zero_sum).1
            (0 + id_total (take lo (items t))) (id_total (slice lo hi (items t))) whole s2,
      )
