-- ===== src/Api/Steps.antt =====
-- The calls of a node (core/src/api/node.rs) as steps from state to state, each with the events it reports,
-- and runs of them.
use racnet.Prelude.{
  ℕ, ◌≡◌, refl, subst, List, [], ◌∷◌, ◌++◌, Option, none, some, arith, nat_eq, lookup, Option-cases,
  inl, inr, Bytes, Outcome, Outcome-cases, ok,
}
use racnet.Noise.Primitives.{Primitives}
use racnet.Noise.Handshake.{Keypair}
use racnet.Wire.Payload.{Cbor}
use racnet.Wire.Entry
use racnet.Wire.Entry.{Signing, Signer}
use racnet.Wire.Msg.{Message}
use racnet.Wire.Frame.{encode_frame}
use racnet.Store.{OrderIndex, Journal, insert_entry}
use racnet.Sync.Session.{Engine, initiator, responder}
use racnet.Link.Limiter.{admit}
use racnet.Link.Driver.Calls.{start, on_bytes, open_sync}
use racnet.Api.{Event, ApiError, LinkIo, LinkOpen, SyncStart, SyncWindow, to_window}
use racnet.Api.Node.{
  NodeInner, clamp_now, with_driver, add_link, on_transport_closed, tick, driver_of,
}
use racnet.Api.Calls.{connect, accept, bytes_in, start_sync, create_entry}
use racnet.Api.Links.{IsLater-refl, changed-IsLater, add_link-IsLater}
use racnet.Api.Finality.{Tells, Tells-quiet, Tells-append}
use racnet.Api.Told.{clamp_now-le, Tells-same, settled-Tells, on_transport_closed-Tells, tick-Tells}

-- The events that a call of `start_sync` reports.
abbrev pub start_events : Outcome ApiError SyncStart → List Event
start_events (ok started) = started.io.events
start_events _ = []

-- A call that gives a result tells about the links by the events of the result; `none` is a panic.
abbrev pub Given :
    {O J N A : Type 0} → (A → List Event) → NodeInner O J N → Option (A × NodeInner O J N) → Type 0
Given events s none = Unit {0}
Given events s (some (x, s')) = Tells s (events x) s'

Given-Tells :
    {O J N A : Type 0} (events : A → List Event) (s s' : NodeInner O J N) (x : A)
    (r : Option (A × NodeInner O J N))
    → Given events s r
    → r ≡ some (x, s')
    → Tells s (events x) s'
Given-Tells events s s' x r h e = subst (Given events s) e h

module _ (p : Primitives) (b : Cbor) {O J N : Type 0} where
  connect-Given :
      (k : Option Keypair) (now_us : ℕ) (s : NodeInner O J N)
      → Given (λ r. []) s (connect p b k now_us s)
  unfolding connect clamp_now
  connect-Given none now_us s = Tells-quiet s s (IsLater-refl s)
  connect-Given (some k) now_us s =
      let clamped = clamp_now now_us s in
      elim (Option-cases (start p b (driver_of p initiator k clamped))) [
        | inl e ↦ rw (e, connect) tt
        | inr (call, e) ↦
            rw (e, connect)
              (Tells-append s clamped (add_link call.link none clamped) [] []
                (Tells-same s clamped refl refl (clamp_now-le now_us s))
                (Tells-quiet clamped _ (add_link-IsLater call.link none clamped)))
      ]

  accept-Tells :
      (k : Option Keypair) (addr : Bytes) (now_us : ℕ) (s : NodeInner O J N)
      → Tells s [] (accept p b k addr now_us s).1
  unfolding accept clamp_now
  accept-Tells none addr now_us s = Tells-quiet s s (IsLater-refl s)
  accept-Tells (some k) addr now_us s =
      let clamped = clamp_now now_us s in
      let asked = record clamped { limiter = (admit clamped.limiter addr clamped.last_now_us).1 } in
      elim (Option-cases (admit clamped.limiter addr clamped.last_now_us).0) [
        | inl e ↦ rw (e, accept) (Tells-same s asked refl refl (clamp_now-le now_us s))
        | inr (t, e) ↦
            rw (e, accept)
              (Tells-append s asked _ [] [] (Tells-same s asked refl refl (clamp_now-le now_us s)) (
                Tells-quiet asked _
                  (add_link-IsLater (driver_of p responder k clamped) (some t) asked)))
      ]

module _ (p : Primitives) (b : Cbor) {O J N : Type 0} (c : Signing) (index : OrderIndex O)
    (journals : Journal J) (engines : Engine N) where
  bytes_in-Given :
      (link_id : ℕ) (bytes : Bytes) (now_us : ℕ) (s : NodeInner O J N)
      → Given (λ io. io.events) s (bytes_in p b c index journals engines link_id bytes now_us s)
  unfolding bytes_in clamp_now
  bytes_in-Given link_id bytes now_us s =
      let clamped = clamp_now now_us s in
      elim (Option-cases (lookup link_id s.links)) [
        | inl e ↦ rw (e, bytes_in) (Tells-same s clamped refl refl (clamp_now-le now_us s))
        | inr (link, e) ↦
            elim (Option-cases (
              on_bytes p b c index journals engines s.store bytes clamped.last_now_us
                link.driver)) [
                  | inl f ↦ rw (e, f, bytes_in) tt
                  | inr ((store, call), f) ↦
                      let stored = record clamped { store = store } in
                      rw (e, f, bytes_in)
                        (Tells-append s stored _ [] _
                          (Tells-same s stored refl refl (clamp_now-le now_us s))
                          (settled-Tells link_id link call.link call.out.events stored e))
                ]
      ]

  start_sync-Given :
      (link_id : ℕ) (window : SyncWindow) (s : NodeInner O J N)
      → Given start_events s (start_sync p b c index journals engines link_id window s)
  unfolding start_sync
  start_sync-Given link_id window s = elim (Option-cases (lookup link_id s.links)) [
    | inl e ↦ rw (e, start_sync) (Tells-quiet s s (IsLater-refl s))
    | inr (link, e) ↦
        elim (Option-cases
          (open_sync p b c index journals engines s.store (to_window window) link.driver)) [
            | inl f ↦ rw (e, f, start_sync) tt
            | inr ((r, driver), f) ↦
                let opened = with_driver link_id link driver s in
                elim (Outcome-cases r) [
                  | inl ((session_id, out), g) ↦
                      rw (e, f, g, start_sync) (settled-Tells link_id link driver out.events s e)
                  | inr (inl (x, g)) ↦
                      rw (e, f, g, start_sync)
                        (Tells-quiet s opened
                          (changed-IsLater s opened link_id link _ e refl refl refl))
                  | inr (inr g) ↦ rw (e, f, g, start_sync) tt
                ]
          ]
  ]

  create_entry-Tells :
      (signer : Signer) (kind : ℕ) (payload : Bytes) (sort_key_ms : ℕ) (s : NodeInner O J N)
      → Tells s [] (create_entry p b c index journals engines signer kind payload sort_key_ms s).1
  unfolding create_entry
  create_entry-Tells signer kind payload sort_key_ms s =
      let entry = Entry.signed c signer s.signing_key sort_key_ms kind payload in
      let pushed =
        encode_frame b (Message.gossip_push (record { entries = entry ∷ []; ttl = 0 })) in
      let inserted = insert_entry c index journals entry s.store in
      elim (Outcome-cases pushed) [
        | inr (inl (x, e)) ↦ rw (e, create_entry) (Tells-quiet s s (IsLater-refl s))
        | inr (inr e) ↦ rw (e, create_entry) (Tells-quiet s s (IsLater-refl s))
        | inl (x, e) ↦
            let stored = record s { store = inserted.1 } in
            elim (Outcome-cases inserted.0) [
              | inl (y, f) ↦ rw (e, f, create_entry) (Tells-same s stored refl refl (omega arith))
              | inr (inl (y, f)) ↦
                  rw (e, f, create_entry) (Tells-same s stored refl refl (omega arith))
              | inr (inr f) ↦ rw (e, f, create_entry) (Tells-same s stored refl refl (omega arith))
            ]
      ]

  -- A call of the node, from state to state, with the events that it reports.
  pub data Step (s : NodeInner O J N) : List Event → NodeInner O J N → Type 0 where
    connected :
        (k : Option Keypair) (now_us : ℕ) (r : Outcome ApiError LinkOpen) {s' : NodeInner O J N}
        → connect p b k now_us s ≡ some (r, s')
        → Step s [] s'
    accepted :
        (k : Option Keypair) (remote_addr : Bytes) (now_us : ℕ)
        → Step s [] (accept p b k remote_addr now_us s).1
    received :
        (link_id : ℕ) (bytes : Bytes) (now_us : ℕ) (io : LinkIo) {s' : NodeInner O J N}
        → bytes_in p b c index journals engines link_id bytes now_us s ≡ some (io, s')
        → Step s io.events s'
    synced :
        (link_id : ℕ) (window : SyncWindow) (r : Outcome ApiError SyncStart) {s' : NodeInner O J N}
        → start_sync p b c index journals engines link_id window s ≡ some (r, s')
        → Step s (start_events r) s'
    transport_closed :
        (link_id now_us : ℕ)
        → Step s (on_transport_closed link_id now_us s).0 (on_transport_closed link_id now_us s).1
    ticked : (now_us : ℕ) → Step s (tick now_us s).0 (tick now_us s).1
    created :
        (signer : Signer) (kind : ℕ) (payload : Bytes) (sort_key_ms : ℕ)
        → Step s [] (create_entry p b c index journals engines signer kind payload sort_key_ms s).1

  -- Calls one after the other, with all their events.
  pub data Run : NodeInner O J N → List Event → NodeInner O J N → Type 0 where
    done : {s : NodeInner O J N} → Run s [] s
    next :
        {s s' t : NodeInner O J N} {events rest : List Event}
        → Step s events s'
        → Run s' rest t
        → Run s (events ++ rest) t

  pub Step-Tells :
      (s s' : NodeInner O J N) (events : List Event) → Step s events s' → Tells s events s'
  Step-Tells s s' events (connected k now_us r e) =
      Given-Tells (λ r. []) s s' r (connect p b k now_us s) (connect-Given p b k now_us s) e
  Step-Tells s _ _ (accepted k remote_addr now_us) = accept-Tells p b k remote_addr now_us s
  Step-Tells s s' _ (received link_id bytes now_us io e) =
      Given-Tells (λ io. io.events) s s' io _ (bytes_in-Given link_id bytes now_us s) e
  Step-Tells s s' _ (synced link_id window r e) =
      Given-Tells start_events s s' r _ (start_sync-Given link_id window s) e
  Step-Tells s _ _ (transport_closed link_id now_us) = on_transport_closed-Tells link_id now_us s
  Step-Tells s _ _ (ticked now_us) = tick-Tells now_us s
  Step-Tells s _ _ (created signer kind payload sort_key_ms) =
      create_entry-Tells signer kind payload sort_key_ms s

  pub Run-Tells : (s t : NodeInner O J N) (events : List Event) → Run s events t → Tells s events t
  Run-Tells s _ _ done = Tells-quiet s s (IsLater-refl s)
  Run-Tells s t _ (next step run) =
      Tells-append s _ t _ _ (Step-Tells s _ _ step) (Run-Tells _ t _ run)
