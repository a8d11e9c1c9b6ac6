-- ===== src/Api/Calls.antt =====
-- The calls of core/src/api/node.rs that use the drivers and the store. `none` is a panic. Fresh key pairs,
-- which the code takes from the platform, are arguments, and `none` there stands for no entropy.
use racnet.Prelude.{
  ℕ, ◌==◌, ◌&&◌, Bytes, List, [], ◌∷◌, map, Option, none, some, length, if◌then◌else◌, Outcome, ok,
  err, panic, lookup, nat_eq, bytes_eq,
}
use racnet.Noise.Primitives.{Primitives}
use racnet.Noise.Handshake.{Keypair}
use racnet.Wire.Payload.{Cbor}
use racnet.Wire.Msg.{Message}
use racnet.Wire.Frame.{encode_frame}
use racnet.Wire.Entry
use racnet.Wire.Entry.{Signing, Signer}
use racnet.Store
use racnet.Store.{StoreError, OrderIndex, Journal, EntryStore, insert_entry}
use racnet.Sync.Session.{Engine, initiator, responder}
use racnet.Link.Limiter
use racnet.Link.Limiter.{HandshakeLimiter, admit, expire, default_config}
use racnet.Link.Driver
use racnet.Link.Driver.{
  LinkDriver, LinkDriverConfig, LinkEvent, LinkError, LinkOutput, Call, is_established,
}
use racnet.Link.Driver.Calls.{start, on_bytes, open_sync}
use racnet.Api.{
  Identity, SyncWindow, to_window, Event, handshake_timeout, transport_closed, ApiError, LinkOpen,
  LinkIo, SyncStart, EntryView, LinkStatus, map_event, entry_view, entries_in_window,
}
use racnet.Api
use racnet.Api.Node.{NodeInner, clamp_now, settle, with_driver, add_link, driver_of}

module _ (p : Primitives) (b : Cbor) {O J N : Type 0} where
  unfoldable pub connect :
      Option Keypair → ℕ → NodeInner O J N → Option (Outcome ApiError LinkOpen × NodeInner O J N)
  connect none now_us inner = some (err Api.entropy, inner)
  connect (some ephemeral) now_us inner =
      let clamped = clamp_now now_us inner in
      elim (start p b (driver_of p initiator ephemeral clamped)) [
        | none ↦ none
        | some call ↦ some (
          ok (record { link_id = clamped.next_link_id; initial_frames = call.out.frames }),
          add_link call.link none clamped,
        )
      ]

  -- `ok none` is a refusal of the limiter.
  unfoldable pub accept :
      Option Keypair
      → Bytes
      → ℕ
      → NodeInner O J N
      → Outcome ApiError (Option LinkOpen) × NodeInner O J N
  accept none remote_addr now_us inner = (err Api.entropy, inner)
  accept (some ephemeral) remote_addr now_us inner =
      let clamped = clamp_now now_us inner in
      let (ticket, limiter) = admit clamped.limiter remote_addr clamped.last_now_us in
      let asked = record clamped { limiter = limiter } in
      elim ticket [
        | none ↦ (ok none, asked)
        | some t ↦ (
          ok (some (record { link_id = clamped.next_link_id; initial_frames = [] })),
          add_link (driver_of p responder ephemeral clamped) (some t) asked,
        )
      ]

module _ (p : Primitives) (b : Cbor) {O J N : Type 0} (c : Signing) (index : OrderIndex O)
    (journals : Journal J) (engines : Engine N) where
  -- `Node.on_bytes` takes the driver's.
  unfoldable pub bytes_in : ℕ → Bytes → ℕ → NodeInner O J N → Option (LinkIo × NodeInner O J N)
  bytes_in link_id bytes now_us inner =
      let clamped = clamp_now now_us inner in
      elim (lookup link_id inner.links) [
        | none ↦ some (record { frames = []; events = [] }, clamped)
        | some link ↦
            elim (on_bytes p b c index journals engines inner.store bytes clamped.last_now_us
              link.driver) [
                | none ↦ none
                | some (store, call) ↦
                    let events = map (map_event link_id) call.out.events in
                    some (
                      record { frames = call.out.frames; events = events },
                      settle link_id events
                          (with_driver link_id link call.link (record clamped { store = store })),
                    )
              ]
      ]

  abbrev sync_error : LinkError → ApiError
  sync_error Driver.not_established = Api.not_established
  sync_error _ = Api.sync_refused

  unfoldable pub start_sync :
      ℕ → SyncWindow → NodeInner O J N → Option (Outcome ApiError SyncStart × NodeInner O J N)
  start_sync link_id window inner = elim (lookup link_id inner.links) [
    | none ↦ some (err Api.unknown_link, inner)
    | some link ↦
        elim (open_sync p b c index journals engines inner.store (to_window window) link.driver) [
          | none ↦ none
          | some (r, driver) ↦
              let opened = with_driver link_id link driver inner in
              elim r [
                | err e ↦ some (err (sync_error e), opened)
                | panic ↦ none
                | ok (session_id, out) ↦
                    let events = map (map_event link_id) out.events in
                    some (
                      ok (record {
                        session_id = session_id;
                        io = record { frames = out.frames; events = events };
                      }),
                      settle link_id events opened,
                    )
              ]
        ]
  ]

  abbrev store_error : StoreError → ApiError
  store_error Store.storage = Api.storage
  store_error Store.capacity = Api.storage
  store_error Store.sort_key_reserved = Api.invalid_argument
  store_error Store.bad_signature = Api.invalid_argument

  unfoldable pub create_entry :
      Signer → ℕ → Bytes → ℕ → NodeInner O J N → Outcome ApiError EntryView × NodeInner O J N
  create_entry signer kind payload sort_key_ms inner =
      let entry = Entry.signed c signer inner.signing_key sort_key_ms kind payload in
      elim (encode_frame b (Message.gossip_push (record { entries = entry ∷ []; ttl = 0 }))) [
        | err _ ↦ (err Api.invalid_argument, inner)
        | panic ↦ (panic, inner)
        | ok _ ↦
            let (r, store) = insert_entry c index journals entry inner.store in
            let inserted = record inner { store = store } in
            elim r [
              | ok _ ↦ (ok (entry_view c entry), inserted)
              | err e ↦ (err (store_error e), inserted)
              | panic ↦ (panic, inserted)
            ]
      ]

  -- `Node::new`, once the two seeds are known to have 32 bytes each.
  unfoldable pub new : Identity → Outcome ApiError (NodeInner O J N)
  new identity =
      if (length identity.noise_seed == 32) && (length identity.signing_seed == 32)
      then ok (record {
        noise_seed = identity.noise_seed;
        signing_key = identity.signing_seed;
        store = Store.new c index journals;
        limiter = Limiter.new default_config;
        links = [];
        next_link_id = 0;
        last_now_us = 0;
      })
      else err Api.invalid_identity

  unfoldable pub entries : NodeInner O J N → SyncWindow → Option (List EntryView)
  entries inner window = entries_in_window c index inner.store window
