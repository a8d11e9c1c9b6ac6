-- ===== src/Link/Driver/Versions.antt =====
-- The version negotiation of core/src/link/driver.rs.
use racnet.Prelude.{
  ℕ, max, ◌≤◌, ◌≡◌, inl, inr, refl, ap, true, false, List, [], ◌∷◌, Option, none, some, ◌==◌,
  ==_iff, arith, leb, leb→le, leb→gt, Bool-cases, subst,
}
use racnet.Link.Driver.Cleartext.{contains, effective_version}

-- The highest version in both lists, or that there is none.
abbrev pub IsHighestCommon : List ℕ → List ℕ → Option ℕ → Type 0
IsHighestCommon theirs ours none = (v : ℕ) → contains theirs v ≡ true → contains ours v ≡ false
IsHighestCommon theirs ours (some m) =
    (contains theirs m ≡ true)
    × (contains ours m ≡ true)
    × ((v : ℕ) → contains theirs v ≡ true → contains ours v ≡ true → v ≤ m)

-- A version more on the peer's list.
with_more :
    (w : ℕ) (theirs ours : List ℕ) (best : Option ℕ)
    → effective_version theirs ours ≡ best
    → IsHighestCommon theirs ours best
    → IsHighestCommon (w ∷ theirs) ours (effective_version (w ∷ theirs) ours)
unfolding effective_version
with_more w theirs ours none e h = elim (Bool-cases (contains ours w)) [
  | inl common ↦
      rw (common, e)
        (ground (arith, ==_iff w w), common, λ v t o. ground (arith, t, o, h v, ==_iff w v))
  | inr foreign ↦
      rw (foreign, e)
        (λ v t. elim (Bool-cases (w == v)) [
          | inl same ↦ subst (λ x. contains ours x ≡ false) ((==_iff w v).0 same) foreign
          | inr other ↦ h v (ground (arith, t, other))
        ])
]
with_more w theirs ours (some m) e (a, b, c) = elim (Bool-cases (contains ours w)) [
  | inl common ↦
      rw (common, e)
        (elim (Bool-cases (leb w m)) [
          | inl low ↦
              let x : max w m ≡ m = omega (arith, leb→le w m low) in
              rw x (
                ground (arith, a),
                b,
                λ v t o. elim (Bool-cases (w == v)) [
                  | inl same ↦ omega (arith, (==_iff w v).0 same, leb→le w m low)
                  | inr other ↦ c v (ground (arith, t, other)) o
                ],
              )
          | inr high ↦
              let x : max w m ≡ w = omega (arith, leb→gt w m high) in
              rw x (
                ground (arith, ==_iff w w),
                common,
                λ v t o. elim (Bool-cases (w == v)) [
                  | inl same ↦ omega (arith, (==_iff w v).0 same)
                  | inr other ↦ omega (arith, c v (ground (arith, t, other)) o, leb→gt w m high)
                ],
              )
        ])
  | inr foreign ↦
      rw (foreign, e)
        (
          ground (arith, a),
          b,
          λ v t o. elim (Bool-cases (w == v)) [
            | inl same ↦ absurd (ground (arith, o, foreign, (==_iff w v).0 same))
            | inr other ↦ c v (ground (arith, t, other)) o
          ],
        )
]

-- Negotiation answers the highest version that both sides offer, and none exactly when they share none.
pub effective_version-IsHighestCommon :
    (theirs ours : List ℕ) → IsHighestCommon theirs ours (effective_version theirs ours)
unfolding effective_version
effective_version-IsHighestCommon [] ours = λ v t. cc
effective_version-IsHighestCommon (w ∷ theirs) ours =
    with_more w theirs ours (effective_version theirs ours) refl
      (effective_version-IsHighestCommon theirs ours)

same_highest :
    (as' bs : List ℕ) (x y : Option ℕ) → IsHighestCommon as' bs x → IsHighestCommon bs as' y → x ≡ y
same_highest as' bs none none h k = refl
same_highest as' bs none (some m) h (a, b, c) = absurd (ground (arith, a, b, h m))
same_highest as' bs (some m) none (a, b, c) k = absurd (ground (arith, a, b, k m))
same_highest as' bs (some m) (some n) (a, b, c) (a', b', c') =
    ap some (omega (arith, c n b' a', c' m b a))

-- The two sides of a link, each with its own list first, come to the same result.
pub effective_version_comm :
    (ours theirs : List ℕ) → effective_version theirs ours ≡ effective_version ours theirs
effective_version_comm ours theirs =
    same_highest theirs ours (effective_version theirs ours) (effective_version ours theirs)
      (effective_version-IsHighestCommon theirs ours)
      (effective_version-IsHighestCommon ours theirs)
