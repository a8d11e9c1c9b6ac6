-- ===== src/Store/Order/Inserted.antt =====
-- Insertion into the tree of core/src/store/order.rs: what it adds, and that it keeps the tree right.
use racnet.Prelude.{
  ℕ, ◌+◌, ◌*◌, ◌^◌, ◌<◌, ◌≡◌, refl, ap, sym, ◌∙◌, Option, some, List, ◌∷◌, ◌++◌, arith, ltb, ltb→lt,
  ltb→ge, Bool-cases, inl, inr, ◌⊎◌, true, false, Bool, if◌then◌else◌, subst,
}
use racnet.Store.{Item}
use racnet.Store.ItemOrder.{cmp}
use racnet.Store.Order.{Tree}
use racnet.Store.Order.Tree.{nil, node}
use racnet.Store.Order.Shape.{
  items, size, IsSummarized, IsBalanced, AreBalanced, IsIndex, subtree_count-size,
}
use racnet.Store.Order.Sorted.{
  IsSorted, insert_sorted, is_new, Ordering-cases, IsSorted-split, insert_sorted-left,
  insert_sorted-right, insert_sorted-same, insert_sorted-IsSorted, is_new-left, is_new-right,
  is_new-same,
}
use racnet.Store.Order.Rotated.{
  Represents-same, IsRebuilt, Holds, pull_up-IsSummarized, lift_left-IsRebuilt,
  lift_right-IsRebuilt,
}
use racnet.Store.Order.Insertion.{delta, weight, pull_up, balance, settle, insert_at, insert}
use racnet.Sync.IdSum.{IdSum, zero_sum, add_id}
use racnet.Sync.IdSum.Sums.{IsEntryId, zero_sum-Represents, add_id-Represents}

-- The sizes of two siblings of which one has grown by one since they were balanced.
abbrev IsNearlyBalanced : ℕ → ℕ → Type 0
IsNearlyBalanced l r = (AreBalanced l r ⊎ (r ≡ 3 * (l + 1))) ⊎ (l ≡ 3 * (r + 1))

balance-IsRebuilt :
    (item : Item) (left right : Tree) (c : ℕ) (s : IdSum)
    → IsEntryId item.id
    → IsSummarized left
    → IsSummarized right
    → IsBalanced left
    → IsBalanced right
    → 1 + size left + size right < 2 ^ 32
    → IsNearlyBalanced (size left) (size right)
    → IsRebuilt
        (balance (pull_up (node item left right c s)))
        (items left ++ (item ∷ items right))
        (1 + size left + size right)
unfolding balance pull_up
balance-IsRebuilt item left right c s i hl hr bl br k near =
    let nl = subtree_count-size left hl in
    let nr = subtree_count-size right hr in
    elim near [
      | inl (inl w) ↦
          let e : ltb (weight left * delta) (weight right) ≡ false = ground (arith, nl, nr, w) in
          let f : ltb (weight right * delta) (weight left) ≡ false = ground (arith, nl, nr, w) in
          rw (e, f)
            (_, refl, (refl, refl, pull_up-IsSummarized item left right c s i hl hr k, (w, bl, br)))
      | inl (inr heavy) ↦
          let e : ltb (weight left * delta) (weight right) ≡ true = ground (arith, nl, nr) in
          rw e (lift_right-IsRebuilt item left right _ _ i hl hr bl br k heavy)
      | inr heavy ↦
          let e : ltb (weight left * delta) (weight right) ≡ false = ground (arith, nl, nr) in
          let f : ltb (weight right * delta) (weight left) ≡ true = ground (arith, nl, nr) in
          rw (e, f) (lift_left-IsRebuilt item left right _ _ i hl hr bl br k heavy)
    ]

-- The size of a subtree after an insertion into it.
abbrev grown : Bool → ℕ → ℕ
grown new n = (if new then 1 else 0) + n

-- The answer of an insertion: whether the item was new, and a tree that holds it.
abbrev pub IsInserted : Tree → List Item → Bool → Option (Tree × Bool) → Type 0
IsInserted t xs new o =
    (t' : Tree) × (o ≡ some (t', new)) × Holds t' xs (grown new (size t)) × (new ≡ false → t' ≡ t)

nearly_left : (l r : ℕ) → AreBalanced l r → IsNearlyBalanced (1 + l) r
nearly_left l r (h, k) = elim (Bool-cases (ltb (1 + l) (3 * (r + 1)))) [
  | inl y ↦ inl (inl (omega (arith, ltb→lt _ _ y)))
  | inr y ↦ inr (omega (arith, ltb→ge _ _ y))
]

nearly_right : (l r : ℕ) → AreBalanced l r → IsNearlyBalanced l (1 + r)
nearly_right l r (h, k) = elim (Bool-cases (ltb (1 + r) (3 * (l + 1)))) [
  | inl y ↦ inl (inl (omega (arith, ltb→lt _ _ y)))
  | inr y ↦ inl (inr (omega (arith, ltb→ge _ _ y)))
]

settle_left :
    (own : Item) (left left' right : Tree) (c : ℕ) (s : IdSum) (xs : List Item) (new : Bool)
    → IsSummarized (node own left right c s)
    → IsBalanced (node own left right c s)
    → 1 + size (node own left right c s) < 2 ^ 32
    → Holds left' xs (grown new (size left))
    → (new ≡ false → left' ≡ left)
    → IsInserted
        (node own left right c s)
        (xs ++ (own ∷ items right))
        new
        (settle (node own left' right c s) new)
unfolding settle
settle_left own left left' right c s xs true (_, _, i, hl, hr) (w, bl, br) k (e, n, h, b) same =
    let near : IsNearlyBalanced (size left') (size right) =
      rw n (nearly_left (size left) (size right) w) in
    let (t, done, (e', n', h', b')) =
      balance-IsRebuilt own left' right c s i h hr b br (omega arith) near in
    rw done
      (t, refl, (e' ∙ ap (λ r. r ++ (own ∷ items right)) e, omega (arith, n, n'), h', b'), λ y. cc)
settle_left own left left' right c s xs false h b k (e, n, h', b') same =
    let it = sym (same refl) in
    (
      _,
      refl,
      (
        ap (λ r. r ++ (own ∷ items right)) e,
        omega arith,
        subst (λ l. IsSummarized (node own l right c s)) it h,
        subst (λ l. IsBalanced (node own l right c s)) it b,
      ),
      λ _. ap (λ l. node own l right c s) (same refl),
    )

settle_right :
    (own : Item) (left right right' : Tree) (c : ℕ) (s : IdSum) (xs : List Item) (new : Bool)
    → IsSummarized (node own left right c s)
    → IsBalanced (node own left right c s)
    → 1 + size (node own left right c s) < 2 ^ 32
    → Holds right' xs (grown new (size right))
    → (new ≡ false → right' ≡ right)
    → IsInserted
        (node own left right c s)
        (items left ++ (own ∷ xs))
        new
        (settle (node own left right' c s) new)
unfolding settle
settle_right own left right right' c s xs true (_, _, i, hl, hr) (w, bl, br) k (e, n, h, b) same =
    let near : IsNearlyBalanced (size left) (size right') =
      rw n (nearly_right (size left) (size right) w) in
    let (t, done, (e', n', h', b')) =
      balance-IsRebuilt own left right' c s i hl h bl b (omega arith) near in
    rw done
      (t, refl, (e' ∙ ap (λ r. items left ++ (own ∷ r)) e, omega (arith, n, n'), h', b'), λ y. cc)
settle_right own left right right' c s xs false h b k (e, n, h', b') same =
    let it = sym (same refl) in
    (
      _,
      refl,
      (
        ap (λ r. items left ++ (own ∷ r)) e,
        omega arith,
        subst (λ r. IsSummarized (node own left r c s)) it h,
        subst (λ r. IsBalanced (node own left r c s)) it b,
      ),
      λ _. ap (λ r. node own left r c s) (same refl),
    )

insert_at-IsInserted :
    (t : Tree) (item : Item)
    → IsEntryId item.id
    → IsSorted (items t)
    → IsSummarized t
    → IsBalanced t
    → 1 + size t < 2 ^ 32
    → IsInserted t (insert_sorted item (items t)) (is_new item (items t)) (insert_at t item)
unfolding insert_at insert_sorted is_new
insert_at-IsInserted nil item i o h b k = (
  _,
  refl,
  (
    refl,
    refl,
    (
      refl,
      Represents-same (add_id zero_sum item.id) _ _
          (add_id-Represents zero_sum 0 item.id zero_sum-Represents i) (omega arith),
      i,
      tt,
      tt,
    ),
    (omega arith, tt, tt),
  ),
  λ e. cc,
)
insert_at-IsInserted (node own left right c s) item i o h b k =
    let (_, _, _, hl, hr) = h in
    let (w, bl, br) = b in
    let (ol, below, above, o') = IsSorted-split (items left) own (items right) o in
    elim (Ordering-cases (cmp item own)) [
      | inl e ↦
          let (t', done, holds, same) = insert_at-IsInserted left item i ol hl bl (omega arith) in
          rw
            (
              e,
              done,
              insert_sorted-left item (items left) own (items right) e,
              is_new-left item (items left) own (items right) above e,
              insert_at,
            )
            (settle_left own left t' right c s _ _ h b k holds same)
      | inr (inl e) ↦
          rw
            (
              e,
              insert_sorted-same item (items left) own (items right) below e,
              is_new-same item (items left) own (items right) below e,
              insert_at,
            )
            (_, refl, (refl, omega arith, h, b), λ _. refl)
      | inr (inr e) ↦
          let (t', done, holds, same) = insert_at-IsInserted right item i o' hr br (omega arith) in
          rw
            (
              e,
              done,
              insert_sorted-right item (items left) own (items right) below e,
              is_new-right item (items left) own (items right) below e,
              insert_at,
            )
            (settle_right own left right t' c s _ _ h b k holds same)
    ]

-- An index that is in order, with its counts, sums and weights right and fewer than 2^32 - 1 items, takes
-- an item with a 32-byte id without a panic: it answers whether the item was new, its items are those of
-- insertion into the sorted list, and it stays such an index.
pub insert-IsIndex :
    (t : Tree) (item : Item)
    → IsIndex t
    → IsEntryId item.id
    → 1 + size t < 2 ^ 32
    → (t' : Tree) × (insert t item ≡ some (t', is_new item (items t)))
      × (items t' ≡ insert_sorted item (items t))
      × IsIndex t'
insert-IsIndex t item (o, h, b) i k =
    let (t', done, (e, n, h', b'), same) = insert_at-IsInserted t item i o h b k in
    (t', done, e, (subst IsSorted (sym e) (insert_sorted-IsSorted item (items t) o), h', b'))
