-- ===== src/Link/Driver.antt =====
-- core/src/link/driver.rs: the state machine of one link, its types and the ways it closes. A call
-- of a method works on the driver and on the output of that call; `none` is a panic.
pub mod Cleartext
pub mod Calls
pub mod Silence
pub mod Versions
pub mod Runs
pub mod Kept
use racnet.Prelude.{
  ℕ, ◌+◌, Bool, true, false, Bytes, List, [], ◌∷◌, ◌++◌, Option, none, some, length, Outcome, ok,
  err, panic, to_be_bytes,
}
use racnet.Noise.Primitives.{Primitives, NoiseError, bad_message}
use racnet.Noise.Handshake.{Keypair, HandshakeState}
use racnet.Noise.Transport.{TransportState, encrypt}
use racnet.Wire.Payload.{Cbor, Hello, Handshake, ErrorMsg}
use racnet.Wire.Msg.{Message, encode_message}
use racnet.Wire.Frame.{FrameDecoder, encode_frame}
use racnet.Wire.Frame
use racnet.Sync.Error.{SyncError}
use racnet.Sync.Session.{LinkRole, initiator, SyncConfig, SyncEvent, Syncer}
use racnet.Sync.Session

pub record LinkDriverConfig : Type 0 where
  pub versions : List ℕ
  pub features : ℕ
  pub transports : List ℕ
  pub max_lifetime_us : ℕ
  pub handshake_timeout_us : ℕ
  pub sync : SyncConfig

pub data CloseReason : Type 0 where
  version_incompatible : CloseReason
  handshake_failed : CloseReason
  handshake_timeout : CloseReason
  bad_ciphertext_length : CloseReason
  decrypt_failed : CloseReason
  protocol_violation : ℕ → CloseReason
  peer_error : ℕ → CloseReason
  lifetime_expired : CloseReason
  nonce_exhausted : CloseReason

pub data LinkEvent : Type 0 where
  established : (remote : Bytes) → LinkEvent
  sync : SyncEvent → LinkEvent
  closed : CloseReason → LinkEvent

pub record LinkOutput : Type 0 where
  pub frames : List Bytes
  pub events : List LinkEvent

pub data LinkError : Type 0 where
  not_established : LinkError
  not_permitted : LinkError
  sync : SyncError → LinkError

pub data LinkState : Type 0 where
  await_peer_hello : LinkState
  handshaking : HandshakeState → LinkState
  transport : TransportState → LinkState
  closed : CloseReason → LinkState

pub record LinkDriver (N : Type 0) : Type 0 where
  pub role : LinkRole
  pub state : LinkState
  pub config : LinkDriverConfig
  pub decoder : FrameDecoder
  pub syncer : Syncer N
  pub keys : Option (Keypair × Keypair)
  pub our_hello_body : Bytes
  pub remote_fingerprint : Option Bytes
  pub negotiated_version : Option ℕ
  pub opened_at_us : ℕ

-- `self` and `out`.
pub record Call (N : Type 0) : Type 0 where
  pub link : LinkDriver N
  pub out : LinkOutput

abbrev pub no_output : LinkOutput
no_output = record { frames = []; events = [] }

abbrev pub is_established_state : LinkState → Bool
is_established_state (LinkState.transport t) = true
is_established_state _ = false

abbrev pub is_closed_state : LinkState → Bool
is_closed_state (LinkState.closed r) = true
is_closed_state _ = false

abbrev reason_of : LinkState → Option CloseReason
reason_of (LinkState.closed r) = some r
reason_of _ = none

module _ {N : Type 0} where
  unfoldable pub new : LinkRole → Keypair → Keypair → LinkDriverConfig → ℕ → LinkDriver N
  new role static_keys ephemeral config now_us = record {
    role = role;
    state = LinkState.await_peer_hello;
    config = config;
    decoder = Frame.new;
    syncer = Session.new role config.sync;
    keys = some (static_keys, ephemeral);
    our_hello_body = [];
    remote_fingerprint = none;
    negotiated_version = none;
    opened_at_us = now_us;
  }

  unfoldable pub is_established : LinkDriver N → Bool
  is_established link = is_established_state link.state

  unfoldable pub close_reason : LinkDriver N → Option CloseReason
  close_reason link = reason_of link.state

  abbrev pub set_state : LinkState → Call N → Call N
  set_state state call = record call { link = record call.link { state = state } }

  abbrev pub put_frame : Bytes → Call N → Call N
  put_frame frame call = record call {
    out = record call.out { frames = call.out.frames ++ (frame ∷ []) };
  }

  abbrev pub put_event : LinkEvent → Call N → Call N
  put_event event call = record call {
    out = record call.out { events = call.out.events ++ (event ∷ []) };
  }

  -- The end of both ways to close.
  abbrev pub shut : CloseReason → Call N → Call N
  shut reason call = record {
    link = record call.link { state = LinkState.closed reason; keys = none };
    out = record call.out { events = call.out.events ++ (LinkEvent.closed reason ∷ []) };
  }

  unfoldable pub close_silently : CloseReason → Call N → Call N
  close_silently reason call = shut reason (record call { out = record call.out { frames = [] } })

abbrev as_bad_message : {E A : Type 0} → Outcome E A → Outcome NoiseError A
as_bad_message (ok a) = ok a
as_bad_message (err e) = err bad_message
as_bad_message panic = panic

module _ (p : Primitives) (b : Cbor) where
  unfoldable pub encrypt_frame :
      TransportState → Message → Outcome NoiseError Bytes × TransportState
  encrypt_frame t msg = elim (encode_message b msg) [
    | err e ↦ (err bad_message, t)
    | panic ↦ (panic, t)
    | ok plaintext ↦
        let (r, t') = encrypt p t plaintext in
        elim r [
          | err e ↦ (err e, t')
          | panic ↦ (panic, t')
          | ok ciphertext ↦ (ok (to_be_bytes (length ciphertext) ++ ciphertext), t')
        ]
  ]

  module _ {N : Type 0} where
    -- `if let Ok(frame) = .. { out.frames.push(frame) }`
    abbrev push_if_ok : {E : Type 0} → Outcome E Bytes → Call N → Option (Call N)
    push_if_ok (ok frame) call = some (put_frame frame call)
    push_if_ok (err e) call = some call
    push_if_ok panic call = none

    abbrev pub error_frame : LinkState → ErrorMsg → Call N → Option (Call N)
    error_frame (LinkState.transport t) e call =
        let (r, t') = encrypt_frame t (Message.error e) in
        push_if_ok r (set_state (LinkState.transport t') call)
    error_frame LinkState.await_peer_hello e call =
        push_if_ok (encode_frame b (Message.error e)) call
    error_frame (LinkState.handshaking hs) e call =
        push_if_ok (encode_frame b (Message.error e)) call
    error_frame (LinkState.closed r) e call = push_if_ok (encode_frame b (Message.error e)) call

    unfoldable pub close_with_error : ℕ → CloseReason → Call N → Option (Call N)
    close_with_error code reason call =
        elim (error_frame call.link.state (record { code = code }) call) [
          | none ↦ none
          | some call' ↦ some (shut reason call')
        ]

    unfoldable pub queue_hello : Call N → Option (Call N)
    queue_hello call =
        let config = call.link.config in
        let hello : Hello = record {
          versions = config.versions;
          features = config.features;
          transports = config.transports;
        } in
        elim (encode_message b (Message.hello hello)) [
          | ok body ↦ some (
              put_frame (to_be_bytes (length body) ++ body)
                (record call { link = record call.link { our_hello_body = body } }))
          | err e ↦ none
          | panic ↦ none
        ]

    unfoldable pub queue_encrypted : Message → Call N → Option (Call N)
    queue_encrypted msg call = elim call.link.state [
      | LinkState.transport t ↦
          let (r, t') = encrypt_frame t msg in
          let call' = set_state (LinkState.transport t') call in
          elim r [
            | ok frame ↦ some (put_frame frame call')
            | err e ↦ some (close_silently nonce_exhausted call')
            | panic ↦ none
          ]
      | _ ↦ some call
    ]

    unfoldable pub queue_handshake_frame : Bytes → Call N → Option (Call N)
    queue_handshake_frame noise_msg call =
        elim (encode_frame b (Message.handshake (record { msg = noise_msg }))) [
          | ok frame ↦ some (put_frame frame call)
          | err e ↦ some (close_silently handshake_failed call)
          | panic ↦ none
        ]
