-- ===== src/Api/Links.antt =====
-- The links of a node (core/src/api/node.rs): a link that is gone stays gone, and ids are not used again.
use racnet.Prelude.{
  ℕ, ◌+◌, ◌≤◌, ◌<◌, ◌=?◌, ◌≡◌, refl, ap, sym, ◌∙◌, subst, List, [], ◌∷◌, Option, none, some, arith,
  Table, lookup, insert, remove, nat_eq, lookup-insert, lookup-remove, AllKeys, AllKeys-insert,
  AllKeys-remove, Option-cases, Bool-cases, inl, inr, ==_iff,
}
use racnet.Link.Driver.{LinkDriver}
use racnet.Api.{Event}
use racnet.Api.Node.{Link, NodeInner, retire, settle_established, settle, with_driver, add_link}

pub AllKeys-found :
    {N : Type 0}
    → (P : ℕ → Type 0) (k : ℕ) (v : Link N) (t : Table ℕ (Link N)) → lookup k t ≡ some v
    → AllKeys P t
    → P k
unfolding lookup
AllKeys-found P k v [] e h = absurd cc
AllKeys-found P k v ((j, w) ∷ t) e (h, hs) = elim (Bool-cases (j =? k)) [
  | inl y ↦ subst P ((==_iff j k).0 y) h
  | inr y ↦ AllKeys-found P k v t (ground (arith, e, y)) hs
]

AllKeys-wider :
    {N : Type 0} (n m : ℕ) (t : Table ℕ (Link N))
    → n ≤ m
    → AllKeys (λ id. id < n) t
    → AllKeys (λ id. id < m) t
AllKeys-wider n m [] h k = tt
AllKeys-wider n m ((i, v) ∷ t) h (k, ks) = (omega (arith, h, k), AllKeys-wider n m t h ks)

-- Another link's entry is where it was.
insert_other :
    {N : Type 0} (link_id id : ℕ) (link link' : Link N) (t : Table ℕ (Link N))
    → lookup link_id t ≡ some link
    → lookup id t ≡ none
    → lookup id (insert link_id link' t) ≡ none
insert_other link_id id link link' t found g = elim (Bool-cases (link_id =? id)) [
  | inl y ↦ absurd cc (found, ap (λ k. lookup k t) ((==_iff link_id id).0 y), g)
  | inr y ↦ lookup-insert link_id id link' t ∙ ground (arith, y, g)
]

module _ {O J N : Type 0} where
  -- No link has the id.
  abbrev pub IsGone : ℕ → NodeInner O J N → Type 0
  IsGone id s = lookup id s.links ≡ none

  -- Every id in use was given out.
  abbrev pub IsBounded : NodeInner O J N → Type 0
  IsBounded s = AllKeys (λ id. id < s.next_link_id) s.links

  -- From one state to a later one: the clock does not go back, ids are given out, ids that were given out and are gone stay gone, and
  -- every id in use was given out.
  pub record IsLater (s s' : NodeInner O J N) : Type 0 where
    pub given : s.next_link_id ≤ s'.next_link_id
    pub gone : (id : ℕ) → id < s.next_link_id → IsGone id s → IsGone id s'
    pub bounded : IsBounded s → IsBounded s'
    pub clock : s.last_now_us ≤ s'.last_now_us

  pub IsLater-refl : (s : NodeInner O J N) → IsLater s s
  IsLater-refl s = record {
    given = omega arith;
    gone = λ id l g. g;
    bounded = λ b. b;
    clock = omega arith;
  }

  pub IsLater-trans : (r s t : NodeInner O J N) → IsLater r s → IsLater s t → IsLater r t
  IsLater-trans r s t h k = record {
    given = omega (arith, h.given, k.given);
    gone = λ id l g. k.gone id (omega (arith, l, h.given)) (h.gone id l g);
    bounded = λ b. k.bounded (h.bounded b);
    clock = omega (arith, h.clock, k.clock);
  }

  -- A link taken out.
  pub removed-IsLater :
      (s s' : NodeInner O J N) (link_id : ℕ)
      → s'.next_link_id ≡ s.next_link_id
      → s'.last_now_us ≡ s.last_now_us
      → s'.links ≡ remove link_id s.links
      → IsLater s s'
  removed-IsLater s s' link_id n t e = record {
    given = omega (arith, n);
    clock = omega (arith, t);
    gone = λ id l g. ap (lookup id) e ∙ lookup-remove link_id id s.links ∙ ground (arith, g);
    bounded = λ b. subst (AllKeys (λ id. id < s'.next_link_id)) (sym e) (
        subst (λ m. AllKeys (λ id. id < m) (remove link_id s.links)) (sym n)
          (AllKeys-remove (λ id. id < s.next_link_id) link_id s.links b));
  }

  -- A link changed in place.
  pub changed-IsLater :
      (s s' : NodeInner O J N) (link_id : ℕ) (link link' : Link N)
      → lookup link_id s.links ≡ some link
      → s'.next_link_id ≡ s.next_link_id
      → s'.last_now_us ≡ s.last_now_us
      → s'.links ≡ insert link_id link' s.links
      → IsLater s s'
  changed-IsLater s s' link_id link link' found n t e = record {
    given = omega (arith, n);
    clock = omega (arith, t);
    gone = λ id l g. ap (lookup id) e ∙ insert_other link_id id link link' s.links found g;
    bounded = λ b. subst (AllKeys (λ id. id < s'.next_link_id)) (sym e) (
        subst (λ m. AllKeys (λ id. id < m) (insert link_id link' s.links)) (sym n)
          (AllKeys-insert (λ id. id < s.next_link_id) link_id link' s.links
            (AllKeys-found (λ id. id < s.next_link_id) link_id link s.links found b) b));
  }

  pub retire-IsLater : (link_id : ℕ) (s : NodeInner O J N) → IsLater s (retire link_id s)
  unfolding retire
  retire-IsLater link_id s = elim (Option-cases (lookup link_id s.links)) [
    | inl e ↦ rw (e, retire) (IsLater-refl s)
    | inr (link, e) ↦ rw (e, retire) (removed-IsLater s _ link_id refl refl refl)
  ]

  pub settle_established-IsLater :
      (link_id : ℕ) (s : NodeInner O J N) → IsLater s (settle_established link_id s)
  unfolding settle_established
  settle_established-IsLater link_id s = elim (Option-cases (lookup link_id s.links)) [
    | inl e ↦ rw (e, settle_established) (IsLater-refl s)
    | inr (link, e) ↦
        rw (e, settle_established) (changed-IsLater s _ link_id link _ e refl refl refl)
  ]

  pub settle-IsLater :
      (link_id : ℕ) (events : List Event) (s : NodeInner O J N)
      → IsLater s (settle link_id events s)
  unfolding settle
  settle-IsLater link_id [] s = IsLater-refl s
  settle-IsLater link_id (Event.established i r ∷ events) s =
      IsLater-trans s _ _ (settle_established-IsLater link_id s)
        (settle-IsLater link_id events (settle_established link_id s))
  settle-IsLater link_id (Event.closed i r ∷ events) s =
      IsLater-trans s _ _ (retire-IsLater link_id s)
        (settle-IsLater link_id events (retire link_id s))
  settle-IsLater link_id (Event.entry_stored i x ∷ events) s = settle-IsLater link_id events s
  settle-IsLater link_id (Event.duplicate_ignored i x ∷ events) s = settle-IsLater link_id events s
  settle-IsLater link_id (Event.reconciled i x y z ∷ events) s = settle-IsLater link_id events s
  settle-IsLater link_id (Event.sync_session_closed i x y ∷ events) s =
      settle-IsLater link_id events s

  -- The books after the driver of a link has run.
  pub settled-IsLater :
      (link_id : ℕ) (link : Link N) (driver : LinkDriver N) (events : List Event)
      (s : NodeInner O J N)
      → lookup link_id s.links ≡ some link
      → IsLater s (settle link_id events (with_driver link_id link driver s))
  settled-IsLater link_id link driver events s e =
      IsLater-trans s _ _
        (changed-IsLater s (with_driver link_id link driver s) link_id link _ e refl refl refl)
        (settle-IsLater link_id events (with_driver link_id link driver s))

  pub add_link-IsLater :
      (driver : LinkDriver N) (ticket : Option ℕ) (s : NodeInner O J N)
      → IsLater s (add_link driver ticket s)
  add_link-IsLater driver ticket s = record {
    given = omega arith;
    clock = omega arith;
    gone = λ id l g. lookup-insert s.next_link_id id _ s.links ∙ ground (arith, l, g);
    bounded = λ b.
        AllKeys-insert (λ id. id < s.next_link_id + 1) s.next_link_id _ s.links (omega arith)
          (AllKeys-wider s.next_link_id (s.next_link_id + 1) s.links (omega arith) b);
  }
