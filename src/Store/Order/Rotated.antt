-- ===== src/Store/Order/Rotated.antt =====
-- Rotations of core/src/store/order.rs: they keep the items in order and repair the weights.
use racnet.Prelude.{
  from_le_bytes, ℕ, ◌+◌, ◌*◌, ◌^◌, ◌≤◌, ◌<◌, ◌≡◌, refl, ap, sym, ◌∙◌, Option, none, some, List, ◌∷◌,
  ◌++◌, arith, append_assoc, ltb, ltb→lt, ltb→ge, Bool-cases, inl, inr,
}
use racnet.Store.{Item}
use racnet.Store.Order.{Tree}
use racnet.Store.Order.Tree.{nil, node}
use racnet.Store.Order.Shape.{
  items, size, total, IsSummarized, IsBalanced, AreBalanced, subtree_count-size,
}
use racnet.Store.Order.Insertion.{
  gamma, weight, add_child, pull_up, rotate_left, rotate_right, lift_left, lift_right,
}
use racnet.Sync.IdSum.{IdSum, zero_sum, add_id}
use racnet.Sync.IdSum.Sums.{
  Represents, IsEntryId, zero_sum-Represents, combine-Represents, add_id-Represents,
}

pub Represents-same : (s : IdSum) (m n : ℕ) → Represents s m → m ≡ n → Represents s n
Represents-same s m n (h, e) f = (h, omega (arith, e, f))

add_child-adds :
    (t : Tree) (count : ℕ) (sum : IdSum) (n : ℕ)
    → IsSummarized t
    → Represents sum n
    → count + size t < 2 ^ 32
    → ((add_child t count sum).0 ≡ count + size t)
      × Represents (add_child t count sum).1 (n + total t)
unfolding add_child
add_child-adds nil count sum n h r k = (omega arith, Represents-same sum n (n + 0) r (omega arith))
add_child-adds (node item left right c s) count sum n h r k =
    (omega (arith, h.0), combine-Represents sum s n (total (node item left right c s)) r h.1)

-- The count and the sum that `pull_up` computes are those of the subtree.
pub pull_up-IsSummarized :
    (item : Item) (left right : Tree) (c : ℕ) (s : IdSum)
    → IsEntryId item.id
    → IsSummarized left
    → IsSummarized right
    → 1 + size left + size right < 2 ^ 32
    → IsSummarized (pull_up (node item left right c s))
unfolding pull_up
pull_up-IsSummarized item left right c s i hl hr k =
    let own = add_id-Represents zero_sum 0 item.id zero_sum-Represents i in
    let (count, sum) =
      add_child-adds left 1 (add_id zero_sum item.id) (0 + from_le_bytes item.id) hl own
        (omega arith) in
    let p = add_child left 1 (add_id zero_sum item.id) in
    let (count', sum') =
      add_child-adds right p.0 p.1 (0 + from_le_bytes item.id + total left) hr sum
        (omega (arith, count)) in
    (
      omega (arith, count, count'),
      Represents-same (add_child right p.0 p.1).1 _ _ sum' (omega arith),
      i,
      hl,
      hr,
    )

-- A tree of `n` items: these in order, with the counts, the sums and the weights right.
abbrev pub Holds : Tree → List Item → ℕ → Type 0
Holds t xs n = (items t ≡ xs) × (size t ≡ n) × IsSummarized t × IsBalanced t

module _ (item : Item) (left right : Tree) (c : ℕ) (s : IdSum) where
  pub pull_up-items :
      items (pull_up (node item left right c s)) ≡ items left ++ (item ∷ items right)
  unfolding pull_up
  pull_up-items = refl

  pub pull_up-size : size (pull_up (node item left right c s)) ≡ 1 + size left + size right
  unfolding pull_up
  pull_up-size = refl

  pub pull_up-IsBalanced :
      AreBalanced (size left) (size right)
      → IsBalanced left
      → IsBalanced right
      → IsBalanced (pull_up (node item left right c s))
  unfolding pull_up
  pull_up-IsBalanced h bl br = (h, bl, br)

-- The node that `pull_up` makes of two balanced subtrees.
pull_up-Holds :
    (item : Item) (left right : Tree) (c : ℕ) (s : IdSum) (xs ys : List Item) (m n : ℕ)
    → IsEntryId item.id
    → Holds left xs m
    → Holds right ys n
    → 1 + m + n < 2 ^ 32
    → AreBalanced m n
    → Holds (pull_up (node item left right c s)) (xs ++ (item ∷ ys)) (1 + m + n)
pull_up-Holds item left right c s xs ys m n i (el, sl, hl, bl) (er, sr, hr, br) k balanced =
    let whole = pull_up-IsSummarized item left right c s i hl hr (omega arith) in
    (
      pull_up-items item left right c s ∙ cc,
      omega (arith, pull_up-size item left right c s),
      whole,
      pull_up-IsBalanced item left right c s (omega arith) bl br,
    )

-- Where a rotation moves the middle child.
rotate_left_once :
    (item q : Item) (left rl rr : Tree) (c d : ℕ) (s t : IdSum)
    → rotate_left (node item left (node q rl rr d t) c s)
      ≡ some (pull_up (node q (pull_up (node item left rl c s)) rr d t))
unfolding rotate_left
rotate_left_once item q left rl rr c d s t = refl

rotate_right_once :
    (item q : Item) (ll lr right : Tree) (c d : ℕ) (s t : IdSum)
    → rotate_right (node item (node q ll lr d t) right c s)
      ≡ some (pull_up (node q ll (pull_up (node item lr right c s)) d t))
unfolding rotate_right
rotate_right_once item q ll lr right c d s t = refl

rotate_left_twice :
    (item m : Item) (left a b : Tree) (c d : ℕ) (s t : IdSum)
    → rotate_left (pull_up (node item left (pull_up (node m a b d t)) c s))
      ≡ some (pull_up (node m (pull_up (node item left a c s)) b d t))
unfolding rotate_left pull_up
rotate_left_twice item m left a b c d s t = refl

rotate_right_twice :
    (item m : Item) (a b right : Tree) (c d : ℕ) (s t : IdSum)
    → rotate_right (pull_up (node item (pull_up (node m a b d t)) right c s))
      ≡ some (pull_up (node m a (pull_up (node item b right c s)) d t))
unfolding rotate_right pull_up
rotate_right_twice item m a b right c d s t = refl

-- A rebuilt tree.
abbrev pub IsRebuilt : Option Tree → List Item → ℕ → Type 0
IsRebuilt o xs n = (t : Tree) × (o ≡ some t) × Holds t xs n

Holds-self : (t : Tree) → IsSummarized t → IsBalanced t → Holds t (items t) (size t)
Holds-self t h b = (refl, refl, h, b)

Holds-same :
    (t : Tree) (xs ys : List Item) (m n : ℕ) → Holds t xs m → xs ≡ ys → m ≡ n → Holds t ys n
Holds-same t xs ys m n (e, k, h, b) f l = (e ∙ f, k ∙ l, h, b)

-- The double rotation, of a middle child that is too heavy.
lift_middle_left :
    (item : Item) (left : Tree) (q : Item) (rl rr : Tree) (d : ℕ) (t : IdSum) (c : ℕ) (s : IdSum)
    → IsEntryId item.id
    → IsSummarized left
    → IsSummarized (node q rl rr d t)
    → IsBalanced left
    → IsBalanced (node q rl rr d t)
    → 1 + size left + (1 + size rl + size rr) < 2 ^ 32
    → 1 + size rl + size rr ≡ 3 * (size left + 1)
    → 2 * (size rr + 1) ≤ size rl + 1
    → IsRebuilt
        (elim (rotate_right (node q rl rr d t)) [
          | none ↦ none
          | some right ↦ rotate_left (pull_up (node item left right c s))
        ])
        (items left ++ (item ∷ (items rl ++ (q ∷ items rr))))
        (1 + size left + (1 + size rl + size rr))
lift_middle_left item left q nil rr d t c s i hl hr bl br k e y = absurd (omega arith)
lift_middle_left item left q (node m a b mc ms) rr d t c s i hl (_, _, iq, (_, _, im, ha, hb), hrr)
      bl (w, (w', ba, bb), brr) k e y =
    rw
      (
        rotate_right_once q m a b rr d mc t ms,
        rotate_left_twice item m left a (pull_up (node q b rr d t)) c mc s ms,
      )
      (
        _,
        refl,
        Holds-same _ (((items left) ++ (item ∷ items a)) ++ (m ∷ (items b ++ (q ∷ items rr)))) _ _ _
            (pull_up-Holds m _ _ mc ms _ _ _ _ im
              (pull_up-Holds item left a c s _ _ _ _ i (Holds-self left hl bl) (Holds-self a ha ba)
                (omega arith) (omega arith))
              (pull_up-Holds q b rr d t _ _ _ _ iq (Holds-self b hb bb) (Holds-self rr hrr brr)
                (omega arith) (omega arith))
              (omega arith) (omega arith))
            (append_assoc (items left) (item ∷ items a) (m ∷ (items b ++ (q ∷ items rr)))
              ∙ ap (λ r. items left ++ (item ∷ r))
                  (sym (append_assoc (items a) (m ∷ items b) (q ∷ items rr))))
            (omega arith),
      )

-- `lift_right` repairs a right child that one insertion has made too heavy.
pub lift_right-IsRebuilt :
    (item : Item) (left right : Tree) (c : ℕ) (s : IdSum)
    → IsEntryId item.id
    → IsSummarized left
    → IsSummarized right
    → IsBalanced left
    → IsBalanced right
    → 1 + size left + size right < 2 ^ 32
    → size right ≡ 3 * (size left + 1)
    → IsRebuilt
        (lift_right item left right c s)
        (items left ++ (item ∷ items right))
        (1 + size left + size right)
unfolding lift_right
lift_right-IsRebuilt item left nil c s i hl hr bl br k e = absurd (omega arith)
lift_right-IsRebuilt item left (node q rl rr rc rs) c s i hl (e', r', iq, hrl, hrr) bl (w, bbl, bbr)
      k e =
    let kl = Holds-self left hl bl in
    let krr = Holds-self rr hrr bbr in
    let nl = subtree_count-size rl hrl in
    let nr = subtree_count-size rr hrr in
    elim (Bool-cases (ltb (weight rl) (gamma * weight rr))) [
      | inl y ↦
          rw (y, rotate_left_once item q left rl rr c rc s rs)
            (
              _,
              refl,
              Holds-same _ _ _ _ _
                  (pull_up-Holds q _ rr rc rs _ _ _ _ iq
                    (pull_up-Holds item left rl c s _ _ _ _ i kl (Holds-self rl hrl bbl)
                      (omega arith) (omega (arith, ltb→lt _ _ y, nl, nr)))
                    krr (omega arith) (omega (arith, ltb→lt _ _ y, nl, nr)))
                  (append_assoc (items left) (item ∷ items rl) (q ∷ items rr)) (omega arith),
            )
      | inr y ↦ rw y (
          lift_middle_left item left q rl rr rc rs c s i hl (e', r', iq, hrl, hrr) bl (w, bbl, bbr)
            k e (omega (arith, ltb→ge _ _ y, nl, nr)))
    ]

-- The mirror image of both.
lift_middle_right :
    (item q : Item) (ll lr right : Tree) (d : ℕ) (t : IdSum) (c : ℕ) (s : IdSum)
    → IsEntryId item.id
    → IsSummarized (node q ll lr d t)
    → IsSummarized right
    → IsBalanced (node q ll lr d t)
    → IsBalanced right
    → 1 + (1 + size ll + size lr) + size right < 2 ^ 32
    → 1 + size ll + size lr ≡ 3 * (size right + 1)
    → 2 * (size ll + 1) ≤ size lr + 1
    → IsRebuilt
        (elim (rotate_left (node q ll lr d t)) [
          | none ↦ none
          | some left ↦ rotate_right (pull_up (node item left right c s))
        ])
        ((items ll ++ (q ∷ items lr)) ++ (item ∷ items right))
        (1 + (1 + size ll + size lr) + size right)
lift_middle_right item q ll nil right d t c s i hl hr bl br k e y = absurd (omega arith)
lift_middle_right item q ll (node m a b mc ms) right d t c s i (_, _, iq, hll, (_, _, im, ha, hb))
      hr (w, bll, (w', ba, bb)) br k e y =
    rw
      (
        rotate_left_once q m ll a b d mc t ms,
        rotate_right_twice item m (pull_up (node q ll a d t)) b right c mc s ms,
      )
      (
        _,
        refl,
        Holds-same _ ((items ll ++ (q ∷ items a)) ++ (m ∷ (items b ++ (item ∷ items right)))) _ _ _
            (pull_up-Holds m _ _ mc ms _ _ _ _ im
              (pull_up-Holds q ll a d t _ _ _ _ iq (Holds-self ll hll bll) (Holds-self a ha ba)
                (omega arith) (omega arith))
              (pull_up-Holds item b right c s _ _ _ _ i (Holds-self b hb bb)
                (Holds-self right hr br) (omega arith) (omega arith))
              (omega arith) (omega arith))
            (append_assoc (items ll) (q ∷ items a) (m ∷ (items b ++ (item ∷ items right)))
              ∙ (ap (λ r. items ll ++ (q ∷ r))
                    (sym (append_assoc (items a) (m ∷ items b) (item ∷ items right)))
                  ∙ sym (
                      append_assoc (items ll) (q ∷ (items a ++ (m ∷ items b)))
                        (item ∷ items right))))
            (omega arith),
      )

pub lift_left-IsRebuilt :
    (item : Item) (left right : Tree) (c : ℕ) (s : IdSum)
    → IsEntryId item.id
    → IsSummarized left
    → IsSummarized right
    → IsBalanced left
    → IsBalanced right
    → 1 + size left + size right < 2 ^ 32
    → size left ≡ 3 * (size right + 1)
    → IsRebuilt
        (lift_left item left right c s)
        (items left ++ (item ∷ items right))
        (1 + size left + size right)
unfolding lift_left
lift_left-IsRebuilt item nil right c s i hl hr bl br k e = absurd (omega arith)
lift_left-IsRebuilt item (node q ll lr lc ls) right c s i (e', r', iq, hll, hlr) hr (w, bll, blr) br
      k e =
    let nl = subtree_count-size ll hll in
    let nr = subtree_count-size lr hlr in
    elim (Bool-cases (ltb (weight lr) (gamma * weight ll))) [
      | inl y ↦
          rw (y, rotate_right_once item q ll lr right c lc s ls)
            (
              _,
              refl,
              Holds-same _ _ _ _ _
                  (pull_up-Holds q ll _ lc ls _ _ _ _ iq (Holds-self ll hll bll)
                    (pull_up-Holds item lr right c s _ _ _ _ i (Holds-self lr hlr blr)
                      (Holds-self right hr br) (omega arith) (omega (arith, ltb→lt _ _ y, nl, nr)))
                    (omega arith) (omega (arith, ltb→lt _ _ y, nl, nr)))
                  (sym (append_assoc (items ll) (q ∷ items lr) (item ∷ items right))) (omega arith),
            )
      | inr y ↦ rw y (
          lift_middle_right item q ll lr right lc ls c s i (e', r', iq, hll, hlr) hr (w, bll, blr)
            br k e (omega (arith, ltb→ge _ _ y, nl, nr)))
    ]
