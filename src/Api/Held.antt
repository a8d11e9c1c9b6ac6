-- ===== src/Api/Held.antt =====
-- The entry store of a node (core/src/api/node.rs) over its calls: it changes by insertions only.
use racnet.Prelude.{
  ℕ, ◌≡◌, ◌∙◌, sym, refl, subst, Bytes, List, [], ◌∷◌, map, Option, none, some, Outcome, ok, lookup,
  contains_key, nat_eq, bytes_eq, Option-cases, Outcome-cases, Bool-cases, inl, inr, ◌==◌, ◌&&◌,
  length,
}
use racnet.Noise.Primitives.{Primitives}
use racnet.Noise.Handshake.{Keypair}
use racnet.Wire.Payload.{Cbor, Entry}
use racnet.Wire.Entry
use racnet.Wire.Entry.{Signing, Signer}
use racnet.Wire.Msg.{Message}
use racnet.Wire.Frame.{encode_frame}
use racnet.Store.{OrderIndex, Journal, EntryStore, insert_entry, get}
use racnet.Store.Held.{IsSound, insert_entry-IsSound}
use racnet.Sync.Session.{Engine, initiator}
use racnet.Link.Driver.Kept.{Kept, on_bytes-Kept}
use racnet.Link.Limiter.{admit, expire}
use racnet.Link.Driver.Calls.{start, on_bytes, open_sync}
use racnet.Api.{ApiError, Event, Identity, SyncWindow, map_event, to_window}
use racnet.Api.Node.{
  NodeInner, clamp_now, retire, settle_established, settle, with_driver, on_transport_closed,
  tick_link, tick_links, find_ticket, drop_expired, tick, keys, driver_of,
}
use racnet.Api.Calls.{connect, accept, bytes_in, start_sync, create_entry}
use racnet.Api.Calls
use racnet.Api.Steps.{Step, connected, accepted, received, synced, ticked, created, Run, next, done}
use racnet.Api.Steps

module _ {O J N : Type 0} where
  retire-store : (link_id : ℕ) (s : NodeInner O J N) → (retire link_id s).store ≡ s.store
  unfolding retire
  retire-store link_id s = elim (Option-cases (lookup link_id s.links)) [
    | inl e ↦ rw (e, retire) refl
    | inr (link, e) ↦ rw (e, retire) refl
  ]

  settle_established-store :
      (link_id : ℕ) (s : NodeInner O J N) → (settle_established link_id s).store ≡ s.store
  unfolding settle_established
  settle_established-store link_id s = elim (Option-cases (lookup link_id s.links)) [
    | inl e ↦ rw (e, settle_established) refl
    | inr (link, e) ↦ rw (e, settle_established) refl
  ]

  settle-store :
      (link_id : ℕ) (events : List Event) (s : NodeInner O J N)
      → (settle link_id events s).store ≡ s.store
  unfolding settle
  settle-store link_id [] s = refl
  settle-store link_id (Event.established _ _ ∷ events) s =
      settle-store link_id events (settle_established link_id s)
      ∙ settle_established-store link_id s
  settle-store link_id (Event.closed _ _ ∷ events) s =
      settle-store link_id events (retire link_id s) ∙ retire-store link_id s
  settle-store link_id (Event.entry_stored _ _ ∷ events) s = settle-store link_id events s
  settle-store link_id (Event.duplicate_ignored _ _ ∷ events) s = settle-store link_id events s
  settle-store link_id (Event.reconciled _ _ _ _ ∷ events) s = settle-store link_id events s
  settle-store link_id (Event.sync_session_closed _ _ _ ∷ events) s = settle-store link_id events s

  tick_link-store : (link_id : ℕ) (s : NodeInner O J N) → (tick_link link_id s).1.store ≡ s.store
  unfolding tick_link
  tick_link-store link_id s = elim (Option-cases (lookup link_id s.links)) [
    | inl e ↦ rw (e, tick_link) refl
    | inr (link, e) ↦ rw (e, tick_link) (settle-store link_id _ _)
  ]

  tick_links-store :
      (link_ids : List ℕ) (s : NodeInner O J N) → (tick_links link_ids s).1.store ≡ s.store
  unfolding tick_links
  tick_links-store [] s = refl
  tick_links-store (link_id ∷ link_ids) s =
      tick_links-store link_ids (tick_link link_id s).1 ∙ tick_link-store link_id s

  drop_expired-store :
      (tickets : List ℕ) (s : NodeInner O J N) → (drop_expired tickets s).1.store ≡ s.store
  unfolding drop_expired
  drop_expired-store [] s = refl
  drop_expired-store (ticket ∷ tickets) s = elim (Option-cases (find_ticket ticket s.links)) [
    | inl e ↦ rw (e, drop_expired) (drop_expired-store tickets s)
    | inr (link_id, e) ↦ rw (e, drop_expired) (drop_expired-store tickets _)
  ]

  tick-store : (now_us : ℕ) (s : NodeInner O J N) → (tick now_us s).1.store ≡ s.store
  unfolding tick clamp_now
  tick-store now_us s =
      let clamped = clamp_now now_us s in
      let ticked = (tick_links (keys clamped.links) clamped).1 in
      drop_expired-store (expire ticked.limiter ticked.last_now_us).0 _
      ∙ tick_links-store (keys clamped.links) clamped

  on_transport_closed-store :
      (link_id now_us : ℕ) (s : NodeInner O J N)
      → (on_transport_closed link_id now_us s).1.store ≡ s.store
  unfolding on_transport_closed clamp_now
  on_transport_closed-store link_id now_us s = elim (Bool-cases (contains_key link_id s.links)) [
    | inl y ↦ rw (y, on_transport_closed) (retire-store link_id (clamp_now now_us s))
    | inr y ↦ rw (y, on_transport_closed) refl
  ]

  -- What is true of the store holds of the one that a call leaves.
  abbrev Leaves : (EntryStore O J → Type 0) → {A : Type 0} → Option (A × NodeInner O J N) → Type 0
  Leaves Q none = Unit {0}
  Leaves Q (some (x, s)) = Q s.store

module _ (p : Primitives) (b : Cbor) {O J N : Type 0} where
  connect-Leaves :
      (Q : EntryStore O J → Type 0) (k : Option Keypair) (now_us : ℕ) (s : NodeInner O J N)
      → Q s.store
      → Leaves Q (connect p b k now_us s)
  unfolding connect clamp_now
  connect-Leaves Q none now_us s q = q
  connect-Leaves Q (some k) now_us s q =
      elim (Option-cases (start p b (driver_of p initiator k (clamp_now now_us s)))) [
        | inl e ↦ rw (e, connect) tt
        | inr (call, e) ↦ rw (e, connect) q
      ]

  accept-store :
      (k : Option Keypair) (addr : Bytes) (now_us : ℕ) (s : NodeInner O J N)
      → (accept p b k addr now_us s).1.store ≡ s.store
  unfolding accept clamp_now
  accept-store none addr now_us s = refl
  accept-store (some k) addr now_us s =
      let clamped = clamp_now now_us s in
      elim (Option-cases (admit clamped.limiter addr clamped.last_now_us).0) [
        | inl e ↦ rw (e, accept) refl
        | inr (t, e) ↦ rw (e, accept) refl
      ]

module _ (p : Primitives) (b : Cbor) {O J N : Type 0} (c : Signing) (index : OrderIndex O)
    (journals : Journal J) (engines : Engine N) (Q : EntryStore O J → Type 0)
    (keeps : (entry : Entry) (store : EntryStore O J)
      → Q store
      → Q (insert_entry c index journals entry store).1) where
  bytes_in-Leaves :
      (link_id : ℕ) (bytes : Bytes) (now_us : ℕ) (s : NodeInner O J N)
      → Q s.store
      → Leaves Q (bytes_in p b c index journals engines link_id bytes now_us s)
  unfolding bytes_in clamp_now
  bytes_in-Leaves link_id bytes now_us s q =
      let clamped = clamp_now now_us s in
      elim (Option-cases (lookup link_id s.links)) [
        | inl e ↦ rw (e, bytes_in) q
        | inr (link, e) ↦
            let kept =
              on_bytes-Kept p b c index journals engines Q keeps s.store bytes clamped.last_now_us
                link.driver q in
            elim (Option-cases (
              on_bytes p b c index journals engines s.store bytes clamped.last_now_us
                link.driver)) [
                  | inl f ↦ rw (e, f, bytes_in) tt
                  | inr ((store, call), f) ↦
                      let q' : Q store = subst (Kept p b c index journals engines Q keeps) f kept in
                      rw (e, f, bytes_in)
                        (subst Q
                          (sym (
                            settle-store link_id (map (map_event link_id) call.out.events) (
                              with_driver link_id link call.link
                                (record clamped { store = store }))))
                          q')
                ]
      ]

  start_sync-Leaves :
      (link_id : ℕ) (window : SyncWindow) (s : NodeInner O J N)
      → Q s.store
      → Leaves Q (start_sync p b c index journals engines link_id window s)
  unfolding start_sync
  start_sync-Leaves link_id window s q = elim (Option-cases (lookup link_id s.links)) [
    | inl e ↦ rw (e, start_sync) q
    | inr (link, e) ↦
        elim (Option-cases
          (open_sync p b c index journals engines s.store (to_window window) link.driver)) [
            | inl f ↦ rw (e, f, start_sync) tt
            | inr ((r, driver), f) ↦ elim (Outcome-cases r) [
              | inl ((session_id, out), g) ↦
                  rw (e, f, g, start_sync)
                    (subst Q
                      (sym (
                        settle-store link_id (map (map_event link_id) out.events)
                          (with_driver link_id link driver s)))
                      q)
              | inr (inl (x, g)) ↦ rw (e, f, g, start_sync) q
              | inr (inr g) ↦ rw (e, f, g, start_sync) tt
            ]
          ]
  ]

  create_entry-kept :
      (signer : Signer) (kind : ℕ) (payload : Bytes) (sort_key_ms : ℕ) (s : NodeInner O J N)
      → Q s.store
      → Q (create_entry p b c index journals engines signer kind payload sort_key_ms s).1.store
  unfolding create_entry
  create_entry-kept signer kind payload sort_key_ms s q =
      let entry = Entry.signed c signer s.signing_key sort_key_ms kind payload in
      let inserted = insert_entry c index journals entry s.store in
      elim (Outcome-cases
        (encode_frame b (Message.gossip_push (record { entries = entry ∷ []; ttl = 0 })))) [
          | inr (inl (x, e)) ↦ rw (e, create_entry) q
          | inr (inr e) ↦ rw (e, create_entry) q
          | inl (x, e) ↦ elim (Outcome-cases inserted.0) [
            | inl (y, f) ↦ rw (e, f, create_entry) (keeps entry s.store q)
            | inr (inl (y, f)) ↦ rw (e, f, create_entry) (keeps entry s.store q)
            | inr (inr f) ↦ rw (e, f, create_entry) (keeps entry s.store q)
          ]
        ]

  Step-kept :
      (s s' : NodeInner O J N) (events : List Event)
      → Step p b c index journals engines s events s'
      → Q s.store
      → Q s'.store
  Step-kept s s' _ (connected k now_us r e) q =
      subst (Leaves Q) e (connect-Leaves p b Q k now_us s q)
  Step-kept s _ _ (accepted k addr now_us) q = subst Q (sym (accept-store p b k addr now_us s)) q
  Step-kept s s' _ (received link_id bytes now_us io e) q =
      subst (Leaves Q) e (bytes_in-Leaves link_id bytes now_us s q)
  Step-kept s s' _ (synced link_id window r e) q =
      subst (Leaves Q) e (start_sync-Leaves link_id window s q)
  Step-kept s _ _ (Steps.transport_closed link_id now_us) q =
      subst Q (sym (on_transport_closed-store link_id now_us s)) q
  Step-kept s _ _ (ticked now_us) q = subst Q (sym (tick-store now_us s)) q
  Step-kept s _ _ (created signer kind payload sort_key_ms) q =
      create_entry-kept signer kind payload sort_key_ms s q

  -- What an insertion keeps is kept by every run of calls.
  Run-kept :
      (s t : NodeInner O J N) (events : List Event)
      → Run p b c index journals engines s events t
      → Q s.store
      → Q t.store
  Run-kept s _ _ done q = q
  Run-kept s t _ (next step run) q = Run-kept _ t _ run (Step-kept s _ _ step q)

abbrev Made :
    {O J N : Type 0}
    → Signing
    → OrderIndex O
    → Journal J
    → Outcome ApiError (NodeInner O J N)
    → Type 0
Made c index journals (ok s) = IsSound c index journals s.store
Made c index journals _ = Unit {0}

new-Made :
    (p : Primitives) (b : Cbor) {O J N : Type 0} (c : Signing) (index : OrderIndex O)
    (journals : Journal J) (engines : Engine N) (identity : Identity)
    → Made c index journals (Calls.new p b c index journals engines identity)
unfolding Calls.new get lookup
new-Made p b c index journals engines identity =
    elim (Bool-cases ((length identity.noise_seed == 32) && (length identity.signing_seed == 32))) [
      | inl y ↦ rw (y, Calls.new) (λ id entry e. absurd cc)
      | inr y ↦ rw (y, Calls.new) tt
    ]

-- From a new node on, whatever calls are made and whatever bytes come in over its links, every entry that
-- the node holds is verified, stands under its own id and does not have the reserved sort key.
pub held_verified :
    (p : Primitives) (b : Cbor) {O J N : Type 0} (c : Signing) (index : OrderIndex O)
    (journals : Journal J) (engines : Engine N) (identity : Identity) (s t : NodeInner O J N)
    (events : List Event)
    → Calls.new p b c index journals engines identity ≡ ok s
    → Run p b c index journals engines s events t
    → IsSound c index journals t.store
held_verified p b c index journals engines identity s t events h run =
    Run-kept p b c index journals engines (IsSound c index journals)
      (insert_entry-IsSound c index journals) s t events run
      (subst (Made c index journals) h (new-Made p b c index journals engines identity))
