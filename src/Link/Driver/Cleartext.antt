-- ===== src/Link/Driver/Cleartext.antt =====
-- The cleartext epoch of core/src/link/driver.rs: HELLO, version negotiation and the handshake.
use racnet.Prelude.{
  ℕ, max, Bool, true, false, Bytes, List, [], ◌∷◌, ◌++◌, Option, none, some, ◌==◌, if◌then◌else◌,
  ok, err, panic,
}
use racnet.Noise.Primitives.{Primitives}
use racnet.Noise.Handshake.{
  HandshakeState, Role, new_xx, write_message, read_message, is_finished, into_transport,
}
use racnet.Wire.Payload.{Cbor}
use racnet.Wire.Msg.{Message, decode_message}
use racnet.Sync.Session.{LinkRole}
use racnet.Sync.Session
use racnet.Link.Driver.{
  Call, LinkState, LinkEvent, version_incompatible, handshake_failed, set_state, put_event,
  close_silently, close_with_error, queue_hello, queue_handshake_frame,
}

abbrev pub contains : List ℕ → ℕ → Bool
contains [] v = false
contains (w ∷ ws) v = if w == v then true else contains ws v

abbrev max_with : ℕ → Option ℕ → Option ℕ
max_with v none = some v
max_with v (some w) = some (max v w)

-- `filter(|v| ours.contains(v)).max()` of the peer's versions.
unfoldable pub effective_version : List ℕ → List ℕ → Option ℕ
effective_version [] ours = none
effective_version (v ∷ theirs) ours =
    let best = effective_version theirs ours in if contains ours v then max_with v best else best

abbrev pub and_then : {A B : Type 0} → Option A → (A → Option B) → Option B
and_then none f = none
and_then (some a) f = f a

abbrev noise_role : LinkRole → Role
noise_role Session.initiator = Role.initiator
noise_role Session.responder = Role.responder

abbrev prologue_of : LinkRole → Bytes → Bytes → Bytes
prologue_of Session.initiator ours theirs = ours ++ theirs
prologue_of Session.responder ours theirs = theirs ++ ours

module _ (p : Primitives) (b : Cbor) {N : Type 0} where
  -- The initiator's first handshake message; `self.state` is set at the end.
  unfoldable pub enter_handshake : HandshakeState → LinkRole → Call N → Option (Call N)
  enter_handshake hs Session.initiator call =
      let (r, hs') = write_message p [] hs in
      elim r [
        | ok noise_msg ↦
            and_then (queue_handshake_frame p b noise_msg call)
              (λ call'. some (set_state (LinkState.handshaking hs') call'))
        | err e ↦ some (close_silently handshake_failed call)
        | panic ↦ none
      ]
  enter_handshake hs Session.responder call = some (set_state (LinkState.handshaking hs) call)

  -- From the prologue on.
  unfoldable pub take_keys : Bytes → LinkRole → Call N → Option (Call N)
  take_keys body role call = elim call.link.keys [
    | none ↦ none
    | some (static_keys, ephemeral) ↦
        let prologue = prologue_of role call.link.our_hello_body body in
        let hs = new_xx p (noise_role role) static_keys ephemeral prologue in
        enter_handshake hs role (record call { link = record call.link { keys = none } })
  ]

  -- From the responder's HELLO on.
  unfoldable pub begin_handshake : Bytes → LinkRole → Call N → Option (Call N)
  begin_handshake body Session.initiator call = take_keys body Session.initiator call
  begin_handshake body Session.responder call =
      and_then (queue_hello p b call) (λ call'. take_keys body Session.responder call')

  -- The `match` on the message in `handle_hello_body`, and what follows it.
  unfoldable pub greet : Bytes → Message → Call N → Option (Call N)
  greet body (Message.hello hello) call =
      elim (effective_version hello.versions call.link.config.versions) [
        | none ↦ close_with_error p b 2 version_incompatible call
        | some version ↦
            begin_handshake body call.link.role
              (record call { link = record call.link { negotiated_version = some version } })
      ]
  greet body (Message.error e) call =
      some (close_silently (if e.code == 2 then version_incompatible else handshake_failed) call)
  greet body _ call = some (close_silently handshake_failed call)

  unfoldable pub handle_hello_body : Bytes → Call N → Option (Call N)
  handle_hello_body body call = elim (decode_message b body) [
    | err e ↦ some (close_silently handshake_failed call)
    | panic ↦ none
    | ok msg ↦ greet body msg call
  ]

  -- The end of `handle_handshake_body`: the split, or the next message of the peer is awaited.
  unfoldable pub finish_or_wait : HandshakeState → Call N → Option (Call N)
  finish_or_wait hs call =
      if is_finished hs
      then elim (into_transport p hs) [
        | err e ↦ some (close_silently handshake_failed call)
        | panic ↦ none
        | ok (transport, remote_static) ↦
            let remote = p.sha256 remote_static in
            some (
              put_event (LinkEvent.established remote) (record call {
                link = record call.link {
                  remote_fingerprint = some remote;
                  state = LinkState.transport transport;
                };
              }))
      ]
      else some (set_state (LinkState.handshaking hs) call)

  -- After the peer's message was read.
  unfoldable pub answer_handshake : HandshakeState → Call N → Option (Call N)
  answer_handshake hs call =
      if is_finished hs
      then finish_or_wait hs call
      else let (r, hs') = write_message p [] hs in
        elim r [
          | ok noise_msg ↦
              and_then (queue_handshake_frame p b noise_msg call)
                (λ call'. finish_or_wait hs' call')
          | err e ↦ some (close_silently handshake_failed call)
          | panic ↦ none
        ]

  unfoldable pub shake : HandshakeState → Message → Call N → Option (Call N)
  shake hs (Message.handshake handshake) call =
      let (r, hs') = read_message p handshake.msg hs in
      elim r [
        | ok [] ↦ answer_handshake hs' call
        | ok (x ∷ payload) ↦ some (close_silently handshake_failed call)
        | err e ↦ some (close_silently handshake_failed call)
        | panic ↦ none
      ]
  shake hs (Message.error e) call =
      some (close_silently (if e.code == 2 then version_incompatible else handshake_failed) call)
  shake hs _ call = some (close_silently handshake_failed call)

  unfoldable pub handle_handshake_body : HandshakeState → Bytes → Call N → Option (Call N)
  handle_handshake_body hs body call = elim (decode_message b body) [
    | err e ↦ some (close_silently handshake_failed call)
    | panic ↦ none
    | ok msg ↦ shake hs msg call
  ]
