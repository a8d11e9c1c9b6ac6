-- ===== src/Api/Finality.antt =====
-- What a call of a node (core/src/api/node.rs) tells about its links: which links the events name, and what
-- a closing event leaves behind.
use racnet.Prelude.{
  ℕ, ◌<◌, ◌=?◌, ◌||◌, ◌&&◌, ◌≡◌, refl, ap, sym, ◌∙◌, subst, Bool, true, false, List, [], ◌∷◌, ◌++◌,
  map, some, arith, lookup, nat_eq, Bool-cases, inl, inr, ==_iff,
}
use racnet.Link.Driver.{LinkEvent}
use racnet.Sync.Session.{SyncEvent}
use racnet.Api.{Event, CloseCause, map_event}
use racnet.Api.Node.{Link, NodeInner}
use racnet.Api.Links.{IsGone, IsBounded, IsLater, IsLater-trans, AllKeys-found}

abbrev pub link_of : Event → ℕ
link_of (Event.established link_id _) = link_id
link_of (Event.entry_stored link_id _) = link_id
link_of (Event.duplicate_ignored link_id _) = link_id
link_of (Event.reconciled link_id _ _ _) = link_id
link_of (Event.sync_session_closed link_id _ _) = link_id
link_of (Event.closed link_id _) = link_id

abbrev pub is_closed : Event → Bool
is_closed (Event.closed _ _) = true
is_closed _ = false

-- An event names the link.
abbrev pub mentions : ℕ → List Event → Bool
mentions id [] = false
mentions id (event ∷ events) = (link_of event =? id) || mentions id events

-- An event reports that the link is closed.
abbrev pub closes : ℕ → List Event → Bool
closes id [] = false
closes id (event ∷ events) = (is_closed event && (link_of event =? id)) || closes id events

mentions-append :
    (id : ℕ) (events rest : List Event)
    → mentions id (events ++ rest) ≡ (mentions id events || mentions id rest)
mentions-append id [] rest = refl
mentions-append id (event ∷ events) rest = ground (arith, mentions-append id events rest)

closes-append :
    (id : ℕ) (events rest : List Event)
    → closes id (events ++ rest) ≡ (closes id events || closes id rest)
closes-append id [] rest = refl
closes-append id (event ∷ events) rest = ground (arith, closes-append id events rest)

pub closes-mentions :
    (id : ℕ) (events : List Event) → closes id events ≡ true → mentions id events ≡ true
closes-mentions id [] h = absurd cc
closes-mentions id (event ∷ events) h = elim (Bool-cases (link_of event =? id)) [
  | inl y ↦ ground (arith, y)
  | inr y ↦ ground (arith, y, closes-mentions id events, h)
]

pub link_of-map_event :
    (link_id : ℕ) (event : LinkEvent) → link_of (map_event link_id event) ≡ link_id
unfolding map_event
link_of-map_event link_id (LinkEvent.established _) = refl
link_of-map_event link_id (LinkEvent.sync (SyncEvent.stored _)) = refl
link_of-map_event link_id (LinkEvent.sync (SyncEvent.duplicate_ignored _)) = refl
link_of-map_event link_id (LinkEvent.sync (SyncEvent.reconciled _ _ _)) = refl
link_of-map_event link_id (LinkEvent.sync (SyncEvent.session_closed _ _)) = refl
link_of-map_event link_id (LinkEvent.closed _) = refl

pub mentions-map_event :
    (link_id id : ℕ) (events : List LinkEvent)
    → (link_id =? id) ≡ false
    → mentions id (map (map_event link_id) events) ≡ false
mentions-map_event link_id id [] h = refl
mentions-map_event link_id id (event ∷ events) h =
    ground (arith, link_of-map_event link_id event, h, mentions-map_event link_id id events h)

module _ {O J N : Type 0} where
  -- What a call that leads from one state to another tells by its events: a link that is gone is not
  -- named, a link that is named was given out, and a link reported closed is gone.
  pub record Tells (s : NodeInner O J N) (events : List Event) (s' : NodeInner O J N) : Type 0 where
    pub later : IsLater s s'
    pub silent : (id : ℕ) → id < s.next_link_id → IsGone id s → mentions id events ≡ false
    pub known : IsBounded s → (id : ℕ) → mentions id events ≡ true → id < s'.next_link_id
    pub final : IsBounded s → (id : ℕ) → closes id events ≡ true → IsGone id s'

  pub Tells-quiet : (s s' : NodeInner O J N) → IsLater s s' → Tells s [] s'
  Tells-quiet s s' h = record {
    later = h;
    silent = λ id l g. refl;
    known = λ b id e. absurd cc;
    final = λ b id e. absurd cc;
  }

  pub Tells-append :
      (r s t : NodeInner O J N) (events rest : List Event)
      → Tells r events s
      → Tells s rest t
      → Tells r (events ++ rest) t
  Tells-append r s t events rest h k = record {
    later = IsLater-trans r s t h.later k.later;
    silent = λ id l g.
        mentions-append id events rest
        ∙ ground (
          arith,
          h.silent id l g,
          k.silent id (omega (arith, l, h.later.given)) (h.later.gone id l g),
        );
    known = λ b id e. elim (Bool-cases (mentions id events)) [
      | inl y ↦ omega (arith, h.known b id y, k.later.given)
      | inr y ↦
          k.known (h.later.bounded b) id
            (ground (arith, sym (mentions-append id events rest), e, y))
    ];
    final = λ b id e. elim (Bool-cases (closes id events)) [
      | inl y ↦ k.later.gone id (h.known b id (closes-mentions id events y)) (h.final b id y)
      | inr y ↦
          k.final (h.later.bounded b) id (ground (arith, sym (closes-append id events rest), e, y))
    ];
  }

  -- One link is closed, and says so.
  pub Tells-closed :
      (s s' : NodeInner O J N) (link_id : ℕ) (link : Link N) (cause : CloseCause)
      → IsLater s s'
      → lookup link_id s.links ≡ some link
      → IsGone link_id s'
      → Tells s (Event.closed link_id cause ∷ []) s'
  Tells-closed s s' link_id link cause h found gone = record {
    later = h;
    silent = λ id l g. elim (Bool-cases (link_id =? id)) [
      | inl y ↦ absurd cc (found, ap (λ k. lookup k s.links) ((==_iff link_id id).0 y), g)
      | inr y ↦ ground (arith, y)
    ];
    known = λ b id e. elim (Bool-cases (link_id =? id)) [
      | inl y ↦
          subst (λ k. k < s'.next_link_id) ((==_iff link_id id).0 y)
            (omega (
              arith,
              AllKeys-found (λ k. k < s.next_link_id) link_id link s.links found b,
              h.given,
            ))
      | inr y ↦ absurd ground (arith, y, e)
    ];
    final = λ b id e. elim (Bool-cases (link_id =? id)) [
      | inl y ↦ subst (λ k. IsGone k s') ((==_iff link_id id).0 y) gone
      | inr y ↦ absurd ground (arith, y, e)
    ];
  }
