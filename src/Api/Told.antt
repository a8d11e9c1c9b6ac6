-- ===== src/Api/Told.antt =====
-- What the calls of a node (core/src/api/node.rs) tell about its links, call by call.
use racnet.Prelude.{
  ℕ, ◌≤◌, ◌<◌, ◌=?◌, ◌≡◌, ◌≢◌, refl, ap, sym, ◌∙◌, subst, true, false, List, [], ◌∷◌, map, none,
  some, arith, Table, AllKeys, lookup, remove, contains_key, nat_eq, lookup-remove, Option-cases,
  Bool-cases, inl, inr, ==_iff,
}
use racnet.Link.Driver.{LinkDriver, LinkEvent}
use racnet.Link.Limiter.{expire}
use racnet.Sync.Session.{SyncEvent}
use racnet.Api.{map_event, transport_closed, handshake_timeout}
use racnet.Api.Node.{
  Link, NodeInner, clamp_now, retire, settle_established, settle, with_driver, on_transport_closed,
  tick_link, tick_links, find_ticket, drop_expired, tick, keys, has_ticket,
}
use racnet.Api.Links.{
  IsGone, IsBounded, IsLater-refl, removed-IsLater, changed-IsLater, retire-IsLater,
  settle_established-IsLater, settle-IsLater, settled-IsLater, AllKeys-found,
}
use racnet.Api.Finality.{
  closes, closes-mentions, mentions-map_event, Tells, Tells-quiet, Tells-append, Tells-closed,
}

-- `find` gives a link of the table.
find_ticket-found :
    {N : Type 0} (ticket link_id : ℕ) (links : Table ℕ (Link N))
    → find_ticket ticket links ≡ some link_id
    → lookup link_id links ≢ none
unfolding find_ticket lookup
find_ticket-found ticket link_id [] h g = absurd cc
find_ticket-found ticket link_id ((i, link) ∷ links) h g = elim (Bool-cases (i =? link_id)) [
  | inl y ↦ absurd ground (arith, y, g)
  | inr y ↦ elim (Bool-cases (has_ticket ticket link)) [
    | inl z ↦ absurd ground (arith, y, z, h)
    | inr z ↦ find_ticket-found ticket link_id links (ground (arith, z, h)) (ground (arith, y, g))
  ]
]

lookup-none :
    {N : Type 0} (link_id : ℕ) (links : Table ℕ (Link N))
    → lookup link_id links ≡ none
    → contains_key link_id links ≡ false
unfolding lookup contains_key
lookup-none link_id [] e = refl
lookup-none link_id ((i, link) ∷ links) e = elim (Bool-cases (i =? link_id)) [
  | inl y ↦ absurd ground (arith, y, e)
  | inr y ↦ ground (arith, y, e, lookup-none link_id links)
]

module _ {O J N : Type 0} where
  pub clamp_now-le :
      (now_us : ℕ) (s : NodeInner O J N) → s.last_now_us ≤ (clamp_now now_us s).last_now_us
  unfolding clamp_now
  clamp_now-le now_us s = ground arith

  -- The books of the links are those of the other state.
  pub Tells-same :
      (s s' : NodeInner O J N)
      → s'.links ≡ s.links
      → s'.next_link_id ≡ s.next_link_id
      → s.last_now_us ≤ s'.last_now_us
      → Tells s [] s'
  Tells-same s s' e n t = Tells-quiet s s' (record {
    given = omega (arith, n);
    clock = t;
    gone = λ id l g. ap (lookup id) e ∙ g;
    bounded = λ b.
        subst (λ m. AllKeys (λ id. id < m) s'.links) (sym n)
          (subst (AllKeys (λ id. id < s.next_link_id)) (sym e) b);
  })

  retire-IsGone : (link_id : ℕ) (s : NodeInner O J N) → IsGone link_id (retire link_id s)
  unfolding retire
  retire-IsGone link_id s = elim (Option-cases (lookup link_id s.links)) [
    | inl e ↦ rw (e, retire) e
    | inr (link, e) ↦ rw (e, retire) (lookup-remove link_id link_id s.links ∙ ground arith)
  ]

  -- A closing event among those of a link leaves no such link.
  settle-IsGone :
      (link_id : ℕ) (events : List LinkEvent) (s : NodeInner O J N)
      → IsBounded s
      → link_id < s.next_link_id
      → closes link_id (map (map_event link_id) events) ≡ true
      → IsGone link_id (settle link_id (map (map_event link_id) events) s)
  unfolding settle map_event
  settle-IsGone link_id [] s b l h = absurd cc
  settle-IsGone link_id (LinkEvent.established _ ∷ events) s b l h =
      let k = settle_established-IsLater link_id s in
      settle-IsGone link_id events (settle_established link_id s) (k.bounded b)
        (omega (arith, l, k.given)) h
  settle-IsGone link_id (LinkEvent.sync (SyncEvent.stored _) ∷ events) s b l h =
      settle-IsGone link_id events s b l h
  settle-IsGone link_id (LinkEvent.sync (SyncEvent.duplicate_ignored _) ∷ events) s b l h =
      settle-IsGone link_id events s b l h
  settle-IsGone link_id (LinkEvent.sync (SyncEvent.reconciled _ _ _) ∷ events) s b l h =
      settle-IsGone link_id events s b l h
  settle-IsGone link_id (LinkEvent.sync (SyncEvent.session_closed _ _) ∷ events) s b l h =
      settle-IsGone link_id events s b l h
  settle-IsGone link_id (LinkEvent.closed reason ∷ events) s b l h =
      (settle-IsLater link_id (map (map_event link_id) events) (retire link_id s)).gone link_id
        (omega (arith, l, (retire-IsLater link_id s).given)) (retire-IsGone link_id s)

  -- The events of the driver of one link.
  pub settled-Tells :
      (link_id : ℕ) (link : Link N) (driver : LinkDriver N) (events : List LinkEvent)
      (s : NodeInner O J N)
      → lookup link_id s.links ≡ some link
      → Tells s
          (map (map_event link_id) events)
          (settle link_id (map (map_event link_id) events) (with_driver link_id link driver s))
  settled-Tells link_id link driver events s found =
      let books = map (map_event link_id) events in
      let ran = with_driver link_id link driver s in
      let after = settle link_id books ran in
      let ran_later = changed-IsLater s ran link_id link _ found refl refl refl in
      let settled = settle-IsLater link_id books ran in
      let given_out : IsBounded s → link_id < s.next_link_id =
        λ b. AllKeys-found (λ k. k < s.next_link_id) link_id link s.links found b in
      record {
        later = settled-IsLater link_id link driver (map (map_event link_id) events) s found;
        silent = λ id l g. elim (Bool-cases (link_id =? id)) [
          | inl y ↦ absurd cc (found, ap (λ k. lookup k s.links) ((==_iff link_id id).0 y), g)
          | inr y ↦ mentions-map_event link_id id events y
        ];
        known = λ b id h. elim (Bool-cases (link_id =? id)) [
          | inl y ↦
              subst (λ k. k < after.next_link_id) ((==_iff link_id id).0 y)
                (omega (arith, given_out b, ran_later.given, settled.given))
          | inr y ↦ absurd cc (h, mentions-map_event link_id id events y)
        ];
        final = λ b id h. elim (Bool-cases (link_id =? id)) [
          | inl y ↦
              let e = (==_iff link_id id).0 y in
              subst (λ k. IsGone k after) e
                (settle-IsGone link_id events ran (ran_later.bounded b)
                  (omega (arith, given_out b, ran_later.given)) (ap (λ k. closes k books) e ∙ h))
          | inr y ↦ absurd cc (closes-mentions id books h, mentions-map_event link_id id events y)
        ];
      }

  pub on_transport_closed-Tells :
      (link_id now_us : ℕ) (s : NodeInner O J N)
      → Tells s (on_transport_closed link_id now_us s).0 (on_transport_closed link_id now_us s).1
  unfolding on_transport_closed clamp_now
  on_transport_closed-Tells link_id now_us s = elim (Bool-cases (contains_key link_id s.links)) [
    | inr y ↦
        rw (y, on_transport_closed)
          (Tells-same s (clamp_now now_us s) refl refl (clamp_now-le now_us s))
    | inl y ↦ elim (Option-cases (lookup link_id s.links)) [
      | inl e ↦ absurd cc (y, lookup-none link_id s.links e)
      | inr (link, e) ↦
          let clamped = clamp_now now_us s in
          rw (y, on_transport_closed)
            (Tells-append s clamped _ [] _ (Tells-same s clamped refl refl (clamp_now-le now_us s))
              (Tells-closed clamped (retire link_id clamped) link_id link transport_closed
                (retire-IsLater link_id clamped) e (retire-IsGone link_id clamped)))
    ]
  ]

  tick_link-Tells :
      (link_id : ℕ) (s : NodeInner O J N) → Tells s (tick_link link_id s).0 (tick_link link_id s).1
  unfolding tick_link
  tick_link-Tells link_id s = elim (Option-cases (lookup link_id s.links)) [
    | inl e ↦ rw (e, tick_link) (Tells-quiet s s (IsLater-refl s))
    | inr (link, e) ↦ rw (e, tick_link) (settled-Tells link_id link _ _ s e)
  ]

  tick_links-Tells :
      (link_ids : List ℕ) (s : NodeInner O J N)
      → Tells s (tick_links link_ids s).0 (tick_links link_ids s).1
  unfolding tick_links
  tick_links-Tells [] s = Tells-quiet s s (IsLater-refl s)
  tick_links-Tells (link_id ∷ link_ids) s =
      Tells-append s (tick_link link_id s).1 _ _ _ (tick_link-Tells link_id s)
        (tick_links-Tells link_ids (tick_link link_id s).1)

  drop_expired-Tells :
      (tickets : List ℕ) (s : NodeInner O J N)
      → Tells s (drop_expired tickets s).0 (drop_expired tickets s).1
  unfolding drop_expired
  drop_expired-Tells [] s = Tells-quiet s s (IsLater-refl s)
  drop_expired-Tells (ticket ∷ tickets) s = elim (Option-cases (find_ticket ticket s.links)) [
    | inl e ↦ rw (e, drop_expired) (drop_expired-Tells tickets s)
    | inr (link_id, e) ↦ elim (Option-cases (lookup link_id s.links)) [
      | inl g ↦ absurd (find_ticket-found ticket link_id s.links e g)
      | inr (link, f) ↦
          let dropped = record s { links = remove link_id s.links } in
          rw (e, drop_expired)
            (Tells-append s dropped _ _ _
              (Tells-closed s dropped link_id link handshake_timeout
                (removed-IsLater s dropped link_id refl refl refl) f
                (lookup-remove link_id link_id s.links ∙ ground arith))
              (drop_expired-Tells tickets dropped))
    ]
  ]

  pub tick-Tells : (now_us : ℕ) (s : NodeInner O J N) → Tells s (tick now_us s).0 (tick now_us s).1
  unfolding tick clamp_now
  tick-Tells now_us s =
      let clamped = clamp_now now_us s in
      let ticked = (tick_links (keys clamped.links) clamped).1 in
      Tells-append s clamped _ [] _ (Tells-same s clamped refl refl (clamp_now-le now_us s)) (
        Tells-append clamped ticked _ _ _ (tick_links-Tells (keys clamped.links) clamped) (
          Tells-append ticked
            (record ticked { limiter = (expire ticked.limiter ticked.last_now_us).1 }) _ [] _
            (Tells-same ticked _ refl refl (omega arith))
            (drop_expired-Tells (expire ticked.limiter ticked.last_now_us).0 _)))
