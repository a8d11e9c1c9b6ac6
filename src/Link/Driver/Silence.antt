-- ===== src/Link/Driver/Silence.antt =====
-- What a peer can see of a link that closes (core/src/link/driver.rs): frames and events.
pub mod Cleartext
pub mod Established
pub mod Loop
use racnet.Prelude.{
  ◌<◌, leb, ltb, ◌||◌, ◌-◌, subst, ℕ, zero, suc, ◌≡◌, ◌≢◌, ◌⊎◌, inl, inr, refl, sym, ◌∙◌, Bool,
  true, false, Bytes, List, [], ◌∷◌, ◌++◌, ◌&&◌, not, Option, none, some, length, arith, Outcome,
  ok, err, panic, Option-cases, Outcome-cases, Bool-cases,
}
use racnet.Noise.Transport.{TransportState, decrypt}
use racnet.Wire.Pad.{is_padded_len}
use racnet.Noise.Primitives.{Primitives}
use racnet.Wire.Payload.{Cbor, SortKeyWindow}
use racnet.Wire.Entry.{Signing}
use racnet.Wire.Msg.{Message, decode_message}
use racnet.Wire.Frame.Stream.{next_body_shrinks}
use racnet.Wire.Frame.{FrameDecoder, push, next_body}
use racnet.Sync.Error.{SyncError}
use racnet.Store.{OrderIndex, Journal, EntryStore}
use racnet.Sync.Session.{Engine}
use racnet.Noise.Handshake.{
  HandshakeState, write_message, is_finished, into_transport, read_message,
}
use racnet.Sync.Session.{LinkRole}
use racnet.Sync.Session
use racnet.Link.Driver.Cleartext.{
  and_then, enter_handshake, take_keys, begin_handshake, greet, handle_hello_body, finish_or_wait,
  answer_handshake, shake, handle_handshake_body, effective_version,
}
use racnet.Link.Driver.{
  handshake_failed, encrypt_frame, set_state, queue_handshake_frame, error_frame, Call, LinkDriver,
  LinkState, LinkEvent, LinkError, LinkOutput, CloseReason, not_established, close_silently,
  close_with_error, queue_hello, queue_encrypted, no_output, is_closed_state, is_established,
  protocol_violation, version_incompatible,
}
use racnet.Link.Driver.Calls.{
  after_sync, demux, synchronise, handle_plaintext, handle_transport_body, queue_replies, beside,
  is_initiator, check_timeouts, on_tick, on_bytes, send, open_sync, start, handle_bodies,
  handle_body,
}

-- The reasons to close that the peer may learn from an ERROR frame.
abbrev pub is_loud : CloseReason → Bool
is_loud version_incompatible = true
is_loud (protocol_violation code) = true
is_loud _ = false

-- A link that is closed for any other reason leaves no frame to write, and its last event is the close.
abbrev pub IsQuietOutput : LinkState → LinkOutput → Type 0
IsQuietOutput (LinkState.closed reason) out =
    ((out.frames ≡ []) ⊎ (is_loud reason ≡ true))
    × (before : List LinkEvent) × (out.events ≡ before ++ (LinkEvent.closed reason ∷ []))
IsQuietOutput _ out = Unit {0}

abbrev pub IsQuiet : {N : Type 0} → Call N → Type 0
IsQuiet call = IsQuietOutput call.link.state call.out

abbrev pub IsQuietResult : {N : Type 0} → Option (Call N) → Type 0
IsQuietResult none = Unit {0}
IsQuietResult (some call) = IsQuiet call

module _ {N : Type 0} where
  pub close_silently-IsQuiet :
      (reason : CloseReason) (call : Call N) → IsQuiet (close_silently reason call)
  unfolding close_silently
  close_silently-IsQuiet reason call = (inl refl, call.out.events, refl)

module _ (p : Primitives) (b : Cbor) {N : Type 0} where
  pub close_with_error-IsQuiet :
      (code : ℕ) (reason : CloseReason) (call : Call N)
      → is_loud reason ≡ true
      → IsQuietResult (close_with_error p b code reason call)
  unfolding close_with_error
  close_with_error-IsQuiet code reason call loud =
      elim (Option-cases (error_frame p b call.link.state (record { code = code }) call)) [
        | inl e ↦ rw (e, close_with_error) tt
        | inr (call', e) ↦ rw (e, close_with_error) (inr loud, call'.out.events, refl)
      ]
