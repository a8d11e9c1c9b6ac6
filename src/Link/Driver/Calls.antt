-- ===== src/Link/Driver/Calls.antt =====
-- The transport epoch of core/src/link/driver.rs, and the calls of its user.
use racnet.Prelude.{
  ℕ, zero, suc, ◌-◌, Bool, true, false, not, ◌&&◌, ◌||◌, Bytes, List, [], ◌∷◌, ◌++◌, Option, none,
  some, length, ltb, leb, if◌then◌else◌, Outcome, ok, err, panic, map,
}
use racnet.Noise.Primitives.{Primitives, NoiseError, nonce_exhausted}
use racnet.Noise.Primitives
use racnet.Noise.Transport.{TransportState, decrypt}
use racnet.Wire.Error.{code_number}
use racnet.Wire.Pad.{is_padded_len}
use racnet.Wire.Payload.{Cbor, SortKeyWindow}
use racnet.Wire.Entry.{Signing}
use racnet.Wire.Msg.{Message, decode_message}
use racnet.Wire.Frame.{FrameDecoder, push, next_body}
use racnet.Store.{OrderIndex, Journal, EntryStore}
use racnet.Sync.Error.{SyncError, error_code}
use racnet.Sync.Session.{Engine, SyncEvent, SyncOutput, Syncer, handle_message_into, open_session}
use racnet.Sync.Session
use racnet.Link.Driver.{
  Call, LinkDriver, LinkState, LinkEvent, LinkError, LinkOutput, CloseReason, version_incompatible,
  handshake_failed, handshake_timeout, lifetime_expired, bad_ciphertext_length, decrypt_failed,
  protocol_violation, peer_error, not_established, not_permitted, set_state, close_silently,
  close_with_error, queue_hello, queue_encrypted, no_output, is_closed_state, is_established,
}
use racnet.Link.Driver
use racnet.Link.Driver.Cleartext.{handle_hello_body, handle_handshake_body}

abbrev taglen : ℕ
taglen = 16

abbrev pub is_initiator : Session.LinkRole → Bool
is_initiator Session.initiator = true
is_initiator Session.responder = false

module _ {N : Type 0} where
  unfoldable pub check_timeouts : ℕ → Call N → Bool × Call N
  check_timeouts now_us call =
      let link = call.link in
      let elapsed = now_us - link.opened_at_us in
      if is_closed_state link.state
      then (true, call)
      else if not (is_established link) && leb link.config.handshake_timeout_us elapsed
      then (true, close_silently handshake_timeout call)
      else if leb link.config.max_lifetime_us elapsed
      then (true, close_silently lifetime_expired call)
      else (false, call)

  unfoldable pub on_tick : ℕ → LinkDriver N → Call N
  on_tick now_us link = (check_timeouts now_us (record { link = link; out = no_output })).1

module _ (p : Primitives) (b : Cbor) {N : Type 0} where
  unfoldable pub start : LinkDriver N → Option (Call N)
  start link =
      let call : Call N = record { link = link; out = no_output } in
      if is_initiator link.role && is_awaiting link.state then queue_hello p b call else some call
    where
      is_awaiting : LinkState → Bool
      is_awaiting LinkState.await_peer_hello = true
      is_awaiting _ = false

  -- The loop over `output.replies`, which a close ends.
  unfoldable pub queue_replies : List Message → Call N → Option (Call N)
  queue_replies [] call = some call
  queue_replies (reply ∷ replies) call = elim (queue_encrypted p b reply call) [
    | none ↦ none
    | some call' ↦
        let rest = queue_replies replies call' in
        if is_closed_state call'.link.state then some call' else rest
  ]

  unfoldable pub send :
      Message → LinkDriver N → Option (Outcome LinkError LinkOutput × LinkDriver N)
  send msg link =
      if not (is_established link)
      then some (err not_established, link)
      else dispatch msg (record { link = link; out = no_output })
    where
      answered : Option (Call N) → Option (Outcome LinkError LinkOutput × LinkDriver N)
      answered none = none
      answered (some call) = some (ok call.out, call.link)

      dispatch : Message → Call N → Option (Outcome LinkError LinkOutput × LinkDriver N)
      dispatch (Message.hello h) call = some (err not_permitted, call.link)
      dispatch (Message.handshake h) call = some (err not_permitted, call.link)
      dispatch (Message.error e) call =
          answered (close_with_error p b e.code (protocol_violation e.code) call)
      dispatch msg call = answered (queue_encrypted p b msg call)

abbrev pub with_decoder : {N : Type 0} → FrameDecoder → Call N → Call N
with_decoder decoder call = record call { link = record call.link { decoder = decoder } }

abbrev pub beside : {S N : Type 0} → S → Option (Call N) → Option (S × Call N)
beside store none = none
beside store (some call) = some (store, call)

abbrev put_sync_events : {N : Type 0} → List SyncEvent → Call N → Call N
put_sync_events events call = record call {
  out = record call.out { events = call.out.events ++ map LinkEvent.sync events };
}

-- The `match result`.
abbrev pub after_sync :
    Primitives
    → Cbor
    → {N : Type 0} → Outcome SyncError (Unit {0})
    → List Message
    → Call N
    → Option (Call N)
after_sync p b (ok _) replies call = queue_replies p b replies call
after_sync p b (err e) replies call =
    let code = code_number (error_code e) in
    close_with_error p b code (protocol_violation code) call
after_sync p b panic replies call = none

module _ (p : Primitives) (b : Cbor) {O J N : Type 0} (c : Signing) (index : OrderIndex O)
    (journals : Journal J) (engines : Engine N) where
  -- What a call with the entry store works on.
  abbrev pub WithStore : Type 0
  WithStore = EntryStore O J × Call N

  unfoldable pub synchronise : Message → EntryStore O J → Call N → Option WithStore
  synchronise msg store call =
      let (r, syncer, store', output) =
        handle_message_into c index journals engines msg call.link.syncer store
          (record { replies = []; events = [] }) in
      let call' = record call { link = record call.link { syncer = syncer } } in
      beside store' (after_sync p b r output.replies (put_sync_events output.events call'))

  -- The `match` on the message in `handle_transport_body`.
  unfoldable pub demux : Message → EntryStore O J → Call N → Option WithStore
  demux (Message.hello h) store call =
      beside store (close_with_error p b 3 (protocol_violation 3) call)
  demux (Message.handshake h) store call =
      beside store (close_with_error p b 3 (protocol_violation 3) call)
  demux (Message.error e) store call = some (store, close_silently (peer_error e.code) call)
  demux (Message.gossip_push m) store call = synchronise (Message.gossip_push m) store call
  demux (Message.recon_init m) store call = synchronise (Message.recon_init m) store call
  demux (Message.recon_msg m) store call = synchronise (Message.recon_msg m) store call
  demux (Message.recon_done m) store call = synchronise (Message.recon_done m) store call

  unfoldable pub handle_plaintext : Bytes → EntryStore O J → Call N → Option WithStore
  handle_plaintext plaintext store call = elim (decode_message b plaintext) [
    | err e ↦ beside store (close_with_error p b 1 (protocol_violation 1) call)
    | panic ↦ none
    | ok msg ↦ demux msg store call
  ]

  abbrev decrypt_reason : NoiseError → CloseReason
  decrypt_reason Primitives.nonce_exhausted = Driver.nonce_exhausted
  decrypt_reason _ = decrypt_failed

  unfoldable pub handle_transport_body :
      TransportState → Bytes → EntryStore O J → Call N → Option WithStore
  handle_transport_body t body store call =
      if ltb (length body) taglen || not (is_padded_len (length body - taglen))
      then some (store, close_silently bad_ciphertext_length call)
      else let (r, t') = decrypt p t body in
        elim r [
          | ok plaintext ↦
              handle_plaintext plaintext store (set_state (LinkState.transport t') call)
          | err e ↦ some (store, close_silently (decrypt_reason e) call)
          | panic ↦ none
        ]

  unfoldable pub handle_body : Bytes → EntryStore O J → Call N → Option WithStore
  handle_body body store call =
      let taken = set_state (LinkState.closed handshake_failed) call in
      elim call.link.state [
        | LinkState.await_peer_hello ↦ beside store (handle_hello_body p b body taken)
        | LinkState.handshaking hs ↦ beside store (handle_handshake_body p b hs body taken)
        | LinkState.transport t ↦ handle_transport_body t body store taken
        | LinkState.closed r ↦ some (store, call)
      ]

  -- The `while let` loop of `on_bytes`, on fuel. No handler uses the decoder, so it is passed beside the
  -- driver and put back where the loop ends.
  unfoldable pub handle_bodies : ℕ → FrameDecoder → EntryStore O J → Call N → Option WithStore
  handle_bodies zero decoder store call = some (store, with_decoder decoder call)
  handle_bodies (suc fuel) decoder store call =
      let (next, decoder') = next_body decoder in
      elim next [
        | none ↦ some (store, with_decoder decoder' call)
        | some body ↦ elim (handle_body body store call) [
          | none ↦ none
          | some (store', call') ↦
              let rest = handle_bodies fuel decoder' store' call' in
              if is_closed_state call'.link.state
              then some (store', with_decoder decoder' call')
              else rest
        ]
      ]

  -- Every body takes its two bytes of length at least, so the bytes there are suffice.
  unfoldable pub on_bytes : EntryStore O J → Bytes → ℕ → LinkDriver N → Option WithStore
  on_bytes store bytes now_us link =
      let (stop, call) = check_timeouts now_us (record { link = link; out = no_output }) in
      let decoder = push call.link.decoder bytes in
      if stop
      then some (store, call)
      else if is_closed_state call.link.state
      then some (store, call)
      else handle_bodies (suc (length decoder.buf)) decoder store call

  unfoldable pub open_sync :
      EntryStore O J
      → SortKeyWindow
      → LinkDriver N
      → Option (Outcome LinkError (ℕ × LinkOutput) × LinkDriver N)
  open_sync store window link =
      if not (is_established link)
      then some (err not_established, link)
      else let (r, syncer) = open_session c index journals engines store window link.syncer in
        let link' = record link { syncer = syncer } in
        elim r [
          | err e ↦ some (err (LinkError.sync e), link')
          | panic ↦ none
          | ok (sid, msg) ↦
              elim (queue_encrypted p b msg (record { link = link'; out = no_output })) [
                | none ↦ none
                | some call ↦ some (ok (sid, call.out), call.link)
              ]
        ]
