-- ===== src/Store/Order/Sorted.antt =====
-- Sorted lists of items: what a search tree stands for.
use racnet.Prelude.{
  ℕ, suc, ◌+◌, ◌≡◌, refl, ap, sym, Bool, true, false, List, [], ◌∷◌, ◌++◌, All, length, arith,
  if◌then◌else◌, Bool-cases, inl, inr, ◌⊎◌, subst,
}
use Prim.Native.Nat.{Ordering}
use Prim.Native.Nat.Ordering.{lt, eq, gt}
use racnet.Store.{Item}
use racnet.Store.ItemOrder.{cmp, lt_item, cmp-eq, cmp-gt, cmp-lt, cmp_trans}

abbrev pub IsBelow : Item → Item → Type 0
IsBelow a b = cmp a b ≡ lt

abbrev pub IsSorted : List Item → Type 0
IsSorted [] = Unit {0}
IsSorted (x ∷ xs) = All (IsBelow x) xs × IsSorted xs

-- Insertion into a sorted list; an item that is there stays once.
unfoldable pub insert_sorted : Item → List Item → List Item
insert_sorted item [] = item ∷ []
insert_sorted item (x ∷ xs) =
    let rest = insert_sorted item xs in
    elim (cmp item x) [ lt ↦ item ∷ x ∷ xs | eq ↦ x ∷ xs | gt ↦ x ∷ rest ]

unfoldable pub is_new : Item → List Item → Bool
is_new item [] = true
is_new item (x ∷ xs) =
    let rest = is_new item xs in elim (cmp item x) [ lt ↦ rest | eq ↦ false | gt ↦ rest ]

-- How many items stand before a bound.
unfoldable pub rank_of : Item → List Item → ℕ
rank_of bound [] = 0
rank_of bound (x ∷ xs) = let rest = rank_of bound xs in if lt_item x bound then suc rest else 0

pub Ordering-cases : (o : Ordering) → (o ≡ lt) ⊎ (o ≡ eq) ⊎ (o ≡ gt)
Ordering-cases lt = inl refl
Ordering-cases eq = inr (inl refl)
Ordering-cases gt = inr (inr refl)

All-cut :
    (z : Item) (zs : List Item) (x : Item) (ys : List Item)
    → All (IsBelow z) (zs ++ (x ∷ ys))
    → All (IsBelow z) zs × IsBelow z x
All-cut z [] x ys (h, hs) = (tt, h)
All-cut z (w ∷ ws) x ys (h, hs) = let (rest, last) = All-cut z ws x ys hs in ((h, rest), last)

-- A sorted list cut at one of its items.
pub IsSorted-split :
    (xs : List Item) (x : Item) (ys : List Item)
    → IsSorted (xs ++ (x ∷ ys))
    → IsSorted xs × All (λ y. IsBelow y x) xs × All (IsBelow x) ys × IsSorted ys
IsSorted-split [] x ys (h, hs) = (tt, tt, h, hs)
IsSorted-split (z ∷ zs) x ys (h, hs) =
    let (sorted, below, above, sorted') = IsSorted-split zs x ys hs in
    let (h', hx) = All-cut z zs x ys h in ((h', sorted), (hx, below), above, sorted')

-- Everything above an item is above what stands below it.
All-IsBelow :
    (item x : Item) (xs : List Item) → IsBelow item x → All (IsBelow x) xs → All (IsBelow item) xs
All-IsBelow item x [] h hs = tt
All-IsBelow item x (y ∷ ys) h (k, ks) = (cmp_trans item x y h k, All-IsBelow item x ys h ks)

All-insert_sorted :
    (z item : Item) (xs : List Item)
    → IsBelow z item
    → All (IsBelow z) xs
    → All (IsBelow z) (insert_sorted item xs)
unfolding insert_sorted
All-insert_sorted z item [] h hs = (h, tt)
All-insert_sorted z item (x ∷ xs) h (k, ks) = elim (Ordering-cases (cmp item x)) [
  | inl e ↦ rw (e, All, insert_sorted) (h, (k, ks))
  | inr (inl e) ↦ rw (e, All, insert_sorted) (k, ks)
  | inr (inr e) ↦ rw (e, All, insert_sorted) (k, All-insert_sorted z item xs h ks)
]

new_below : (item : Item) (xs : List Item) → All (IsBelow item) xs → is_new item xs ≡ true
unfolding is_new
new_below item [] h = refl
new_below item (x ∷ xs) (h, hs) = rw (h, is_new) (new_below item xs hs)

pub insert_sorted-IsSorted :
    (item : Item) (xs : List Item) → IsSorted xs → IsSorted (insert_sorted item xs)
unfolding insert_sorted
insert_sorted-IsSorted item [] h = (tt, tt)
insert_sorted-IsSorted item (x ∷ xs) (h, hs) = elim (Ordering-cases (cmp item x)) [
  | inl e ↦ rw (e, IsSorted, insert_sorted) ((e, All-IsBelow item x xs e h), (h, hs))
  | inr (inl e) ↦ rw (e, IsSorted, insert_sorted) (h, hs)
  | inr (inr e) ↦
      rw (e, IsSorted, insert_sorted)
        (All-insert_sorted x item xs (cmp-gt item x e) h, insert_sorted-IsSorted item xs hs)
]

-- Insertion goes to the side of an item on which the new item belongs.
pub insert_sorted-left :
    (item : Item) (xs : List Item) (x : Item) (ys : List Item)
    → cmp item x ≡ lt
    → insert_sorted item (xs ++ (x ∷ ys)) ≡ insert_sorted item xs ++ (x ∷ ys)
unfolding insert_sorted
insert_sorted-left item [] x ys h = rw (h, insert_sorted) refl
insert_sorted-left item (z ∷ zs) x ys h = elim (Ordering-cases (cmp item z)) [
  | inl e ↦ rw (e, insert_sorted) refl
  | inr (inl e) ↦ rw (e, insert_sorted) refl
  | inr (inr e) ↦ rw (e, insert_sorted) (ap (λ r. z ∷ r) (insert_sorted-left item zs x ys h))
]

pub insert_sorted-right :
    (item : Item) (xs : List Item) (x : Item) (ys : List Item)
    → All (λ y. IsBelow y x) xs
    → cmp item x ≡ gt
    → insert_sorted item (xs ++ (x ∷ ys)) ≡ xs ++ (x ∷ insert_sorted item ys)
unfolding insert_sorted
insert_sorted-right item [] x ys h e = rw (e, insert_sorted) refl
insert_sorted-right item (z ∷ zs) x ys (h, hs) e =
    rw (cmp-lt z item (cmp_trans z x item h (cmp-gt item x e)), insert_sorted)
      (ap (λ r. z ∷ r) (insert_sorted-right item zs x ys hs e))

pub insert_sorted-same :
    (item : Item) (xs : List Item) (x : Item) (ys : List Item)
    → All (λ y. IsBelow y x) xs
    → cmp item x ≡ eq
    → insert_sorted item (xs ++ (x ∷ ys)) ≡ xs ++ (x ∷ ys)
unfolding insert_sorted
insert_sorted-same item [] x ys h e = rw (e, insert_sorted) refl
insert_sorted-same item (z ∷ zs) x ys (h, hs) e =
    let below : cmp z item ≡ lt = subst (λ i. cmp z i ≡ lt) (sym (cmp-eq item x e)) h in
    rw (cmp-lt z item below, insert_sorted) (ap (λ r. z ∷ r) (insert_sorted-same item zs x ys hs e))

pub length-insert_sorted :
    (item : Item) (xs : List Item)
    → IsSorted xs
    → length (insert_sorted item xs) ≡ (if is_new item xs then 1 else 0) + length xs
unfolding insert_sorted is_new
length-insert_sorted item [] h = refl
length-insert_sorted item (x ∷ xs) (h, hs) = elim (Ordering-cases (cmp item x)) [
  | inl e ↦
      rw (e, new_below item xs (All-IsBelow item x xs e h), insert_sorted, is_new) (omega arith)
  | inr (inl e) ↦ rw (e, insert_sorted, is_new) (omega arith)
  | inr (inr e) ↦ rw (e, insert_sorted, is_new) (omega (arith, length-insert_sorted item xs hs))
]

-- Whether an item is new, from an item on one side of it.
pub is_new-left :
    (item : Item) (xs : List Item) (x : Item) (ys : List Item)
    → All (IsBelow x) ys
    → cmp item x ≡ lt
    → is_new item (xs ++ (x ∷ ys)) ≡ is_new item xs
unfolding is_new
is_new-left item [] x ys h e = rw (e, is_new) (new_below item ys (All-IsBelow item x ys e h))
is_new-left item (z ∷ zs) x ys h e = elim (Ordering-cases (cmp item z)) [
  | inl f ↦ rw (f, is_new) (is_new-left item zs x ys h e)
  | inr (inl f) ↦ rw (f, is_new) refl
  | inr (inr f) ↦ rw (f, is_new) (is_new-left item zs x ys h e)
]

pub is_new-right :
    (item : Item) (xs : List Item) (x : Item) (ys : List Item)
    → All (λ y. IsBelow y x) xs
    → cmp item x ≡ gt
    → is_new item (xs ++ (x ∷ ys)) ≡ is_new item ys
unfolding is_new
is_new-right item [] x ys h e = rw (e, is_new) refl
is_new-right item (z ∷ zs) x ys (h, hs) e =
    rw (cmp-lt z item (cmp_trans z x item h (cmp-gt item x e)), is_new)
      (is_new-right item zs x ys hs e)

pub is_new-same :
    (item : Item) (xs : List Item) (x : Item) (ys : List Item)
    → All (λ y. IsBelow y x) xs
    → cmp item x ≡ eq
    → is_new item (xs ++ (x ∷ ys)) ≡ false
unfolding is_new
is_new-same item [] x ys h e = rw (e, is_new) refl
is_new-same item (z ∷ zs) x ys (h, hs) e =
    let below : cmp z item ≡ lt = subst (λ i. cmp z i ≡ lt) (sym (cmp-eq item x e)) h in
    rw (cmp-lt z item below, is_new) (is_new-same item zs x ys hs e)

-- The rank of a bound, from an item on one side of it.
pub rank_of-left :
    (bound : Item) (xs : List Item) (x : Item) (ys : List Item)
    → lt_item x bound ≡ false
    → rank_of bound (xs ++ (x ∷ ys)) ≡ rank_of bound xs
unfolding rank_of
rank_of-left bound [] x ys h = rw (h, rank_of) refl
rank_of-left bound (z ∷ zs) x ys h = elim (Bool-cases (lt_item z bound)) [
  | inl e ↦ rw (e, rank_of) (ap suc (rank_of-left bound zs x ys h))
  | inr e ↦ rw (e, rank_of) refl
]

pub rank_of-right :
    (bound : Item) (xs : List Item) (x : Item) (ys : List Item)
    → All (λ y. IsBelow y x) xs
    → cmp x bound ≡ lt
    → rank_of bound (xs ++ (x ∷ ys)) ≡ length xs + 1 + rank_of bound ys
unfolding rank_of
rank_of-right bound [] x ys h e = rw (e, rank_of) (omega arith)
rank_of-right bound (z ∷ zs) x ys (h, hs) e =
    rw (cmp_trans z x bound h e, rank_of) (omega (arith, rank_of-right bound zs x ys hs e))
