-- ===== src/Link/Driver/Silence/Cleartext.antt =====
-- The ways the handlers of the cleartext epoch of core/src/link/driver.rs close.
use racnet.Prelude.{
  inl, inr, refl, Bytes, [], ◌∷◌, Option, none, some, Option-cases, Outcome-cases, Bool-cases,
}
use racnet.Noise.Primitives.{Primitives}
use racnet.Wire.Payload.{Cbor}
use racnet.Wire.Msg.{Message, decode_message}
use racnet.Sync.Session.{Engine}
use racnet.Noise.Handshake.{
  HandshakeState, write_message, is_finished, into_transport, read_message,
}
use racnet.Sync.Session.{LinkRole}
use racnet.Sync.Session
use racnet.Link.Driver.Cleartext.{
  and_then, enter_handshake, take_keys, begin_handshake, greet, handle_hello_body, finish_or_wait,
  answer_handshake, shake, handle_handshake_body, effective_version,
}
use racnet.Link.Driver.{
  handshake_failed, set_state, queue_handshake_frame, Call, LinkState, queue_hello,
  version_incompatible,
}
use racnet.Link.Driver.Silence.{IsQuietResult, close_silently-IsQuiet, close_with_error-IsQuiet}

module _ (p : Primitives) (b : Cbor) {N : Type 0} where
  always_set :
      (o : Option (Call N)) (hs : HandshakeState)
      → IsQuietResult (and_then o (λ call. some (set_state (LinkState.handshaking hs) call)))
  always_set none hs = tt
  always_set (some call) hs = tt

  enter_handshake-IsQuiet :
      (hs : HandshakeState) (role : LinkRole) (call : Call N)
      → IsQuietResult (enter_handshake p b hs role call)
  unfolding enter_handshake
  enter_handshake-IsQuiet hs Session.responder call = tt
  enter_handshake-IsQuiet hs Session.initiator call =
      elim (Outcome-cases (write_message p [] hs).0) [
        | inr (inl (x, e)) ↦ rw (e, enter_handshake) (close_silently-IsQuiet handshake_failed call)
        | inr (inr e) ↦ rw (e, enter_handshake) tt
        | inl (m, e) ↦
            rw (e, enter_handshake)
              (always_set (queue_handshake_frame p b m call) (write_message p [] hs).1)
      ]

  and_then-IsQuiet :
      {A : Type 0} (o : Option A) (f : A → Option (Call N))
      → ((a : A) → IsQuietResult (f a))
      → IsQuietResult (and_then o f)
  and_then-IsQuiet none f h = tt
  and_then-IsQuiet (some a) f h = h a

  take_keys-IsQuiet :
      (body : Bytes) (role : LinkRole) (call : Call N)
      → IsQuietResult (take_keys p b body role call)
  unfolding take_keys
  take_keys-IsQuiet body role call = elim (Option-cases call.link.keys) [
    | inl e ↦ rw (e, take_keys) tt
    | inr (keys, e) ↦ rw (e, take_keys) (enter_handshake-IsQuiet _ role _)
  ]

  begin_handshake-IsQuiet :
      (body : Bytes) (role : LinkRole) (call : Call N)
      → IsQuietResult (begin_handshake p b body role call)
  unfolding begin_handshake
  begin_handshake-IsQuiet body Session.initiator call =
      take_keys-IsQuiet body Session.initiator call
  begin_handshake-IsQuiet body Session.responder call =
      and_then-IsQuiet (queue_hello p b call) _
        (λ call'. take_keys-IsQuiet body Session.responder call')

  greet-IsQuiet :
      (body : Bytes) (msg : Message) (call : Call N) → IsQuietResult (greet p b body msg call)
  unfolding greet
  greet-IsQuiet body (Message.hello hello) call =
      elim (Option-cases (effective_version hello.versions call.link.config.versions)) [
        | inl e ↦ rw (e, greet) (close_with_error-IsQuiet p b 2 version_incompatible call refl)
        | inr (v, e) ↦ rw (e, greet) (begin_handshake-IsQuiet body call.link.role _)
      ]
  greet-IsQuiet body (Message.error e) call = close_silently-IsQuiet _ call
  greet-IsQuiet body (Message.handshake m) call = close_silently-IsQuiet handshake_failed call
  greet-IsQuiet body (Message.gossip_push m) call = close_silently-IsQuiet handshake_failed call
  greet-IsQuiet body (Message.recon_init m) call = close_silently-IsQuiet handshake_failed call
  greet-IsQuiet body (Message.recon_msg m) call = close_silently-IsQuiet handshake_failed call
  greet-IsQuiet body (Message.recon_done m) call = close_silently-IsQuiet handshake_failed call

  pub handle_hello_body-IsQuiet :
      (body : Bytes) (call : Call N) → IsQuietResult (handle_hello_body p b body call)
  unfolding handle_hello_body
  handle_hello_body-IsQuiet body call = elim (Outcome-cases (decode_message b body)) [
    | inl (msg, e) ↦ rw (e, handle_hello_body) (greet-IsQuiet body msg call)
    | inr (inl (x, e)) ↦ rw (e, handle_hello_body) (close_silently-IsQuiet handshake_failed call)
    | inr (inr e) ↦ rw (e, handle_hello_body) tt
  ]

  finish_or_wait-IsQuiet :
      (hs : HandshakeState) (call : Call N) → IsQuietResult (finish_or_wait p b hs call)
  unfolding finish_or_wait
  finish_or_wait-IsQuiet hs call = elim (Bool-cases (is_finished hs)) [
    | inr e ↦ rw (e, finish_or_wait) tt
    | inl f ↦ elim (Outcome-cases (into_transport p hs)) [
      | inl (t, e) ↦ rw (f, e, finish_or_wait) tt
      | inr (inl (x, e)) ↦ rw (f, e, finish_or_wait) (close_silently-IsQuiet handshake_failed call)
      | inr (inr e) ↦ rw (f, e, finish_or_wait) tt
    ]
  ]

  answer_handshake-IsQuiet :
      (hs : HandshakeState) (call : Call N) → IsQuietResult (answer_handshake p b hs call)
  unfolding answer_handshake
  answer_handshake-IsQuiet hs call = elim (Bool-cases (is_finished hs)) [
    | inl f ↦ rw (f, answer_handshake) (finish_or_wait-IsQuiet hs call)
    | inr f ↦ elim (Outcome-cases (write_message p [] hs).0) [
      | inl (m, e) ↦
          rw (f, e, answer_handshake)
            (and_then-IsQuiet (queue_handshake_frame p b m call) _
              (λ call'. finish_or_wait-IsQuiet _ _))
      | inr (inl (x, e)) ↦
          rw (f, e, answer_handshake) (close_silently-IsQuiet handshake_failed call)
      | inr (inr e) ↦ rw (f, e, answer_handshake) tt
    ]
  ]

  shake-IsQuiet :
      (hs : HandshakeState) (msg : Message) (call : Call N) → IsQuietResult (shake p b hs msg call)
  unfolding shake
  shake-IsQuiet hs (Message.handshake m) call = elim (Outcome-cases (read_message p m.msg hs).0) [
    | inl ([], e) ↦ rw (e, shake) (answer_handshake-IsQuiet _ call)
    | inl (x ∷ payload, e) ↦ rw (e, shake) (close_silently-IsQuiet handshake_failed call)
    | inr (inl (x, e)) ↦ rw (e, shake) (close_silently-IsQuiet handshake_failed call)
    | inr (inr e) ↦ rw (e, shake) tt
  ]
  shake-IsQuiet hs (Message.error e) call = close_silently-IsQuiet _ call
  shake-IsQuiet hs (Message.hello m) call = close_silently-IsQuiet handshake_failed call
  shake-IsQuiet hs (Message.gossip_push m) call = close_silently-IsQuiet handshake_failed call
  shake-IsQuiet hs (Message.recon_init m) call = close_silently-IsQuiet handshake_failed call
  shake-IsQuiet hs (Message.recon_msg m) call = close_silently-IsQuiet handshake_failed call
  shake-IsQuiet hs (Message.recon_done m) call = close_silently-IsQuiet handshake_failed call

  pub handle_handshake_body-IsQuiet :
      (hs : HandshakeState) (body : Bytes) (call : Call N)
      → IsQuietResult (handle_handshake_body p b hs body call)
  unfolding handle_handshake_body
  handle_handshake_body-IsQuiet hs body call = elim (Outcome-cases (decode_message b body)) [
    | inl (msg, e) ↦ rw (e, handle_handshake_body) (shake-IsQuiet hs msg call)
    | inr (inl (x, e)) ↦
        rw (e, handle_handshake_body) (close_silently-IsQuiet handshake_failed call)
    | inr (inr e) ↦ rw (e, handle_handshake_body) tt
  ]
