-- ===== src/Link/Driver/Silence/Established.antt =====
-- The ways the handlers of the transport epoch of core/src/link/driver.rs close.
use racnet.Prelude.{
  ltb, ◌||◌, ◌-◌, subst, ◌≡◌, ◌≢◌, ◌⊎◌, inl, inr, refl, true, false, Bytes, List, [], ◌∷◌, not,
  Option, none, some, length, arith, Outcome, ok, err, panic, Option-cases, Outcome-cases,
  Bool-cases,
}
use racnet.Noise.Transport.{TransportState, decrypt}
use racnet.Wire.Pad.{is_padded_len}
use racnet.Noise.Primitives.{Primitives}
use racnet.Wire.Payload.{Cbor}
use racnet.Wire.Entry.{Signing}
use racnet.Wire.Msg.{Message, decode_message}
use racnet.Sync.Error.{SyncError}
use racnet.Store.{OrderIndex, Journal, EntryStore}
use racnet.Sync.Session.{Engine}
use racnet.Noise.Handshake.{HandshakeState}
use racnet.Link.Driver.{
  encrypt_frame, Call, LinkState, LinkOutput, CloseReason, queue_encrypted, is_closed_state,
  protocol_violation,
}
use racnet.Link.Driver.Calls.{
  after_sync, demux, synchronise, handle_plaintext, handle_transport_body, queue_replies, beside,
  handle_body,
}
use racnet.Link.Driver.Silence.{
  IsQuietOutput, IsQuiet, IsQuietResult, close_silently-IsQuiet, close_with_error-IsQuiet,
}
use racnet.Link.Driver.Silence.Cleartext.{handle_hello_body-IsQuiet, handle_handshake_body-IsQuiet}

LinkState-cases :
    (s : LinkState)
    → (s ≡ LinkState.await_peer_hello)
      ⊎ ((hs : HandshakeState) × (s ≡ LinkState.handshaking hs))
      ⊎ ((t : TransportState) × (s ≡ LinkState.transport t))
      ⊎ ((r : CloseReason) × (s ≡ LinkState.closed r))
LinkState-cases LinkState.await_peer_hello = inl refl
LinkState-cases (LinkState.handshaking hs) = inr (inl (hs, refl))
LinkState-cases (LinkState.transport t) = inr (inr (inl (t, refl)))
LinkState-cases (LinkState.closed r) = inr (inr (inr (r, refl)))

pub not_closed-IsQuietOutput :
    (s : LinkState) (out : LinkOutput) → is_closed_state s ≡ false → IsQuietOutput s out
not_closed-IsQuietOutput LinkState.await_peer_hello out h = tt
not_closed-IsQuietOutput (LinkState.handshaking hs) out h = tt
not_closed-IsQuietOutput (LinkState.transport t) out h = tt
not_closed-IsQuietOutput (LinkState.closed r) out h = absurd (false-ne-true h)
  where
    false-ne-true : true ≢ false
    false-ne-true e = cc

IsQuietResult-at :
    {N : Type 0} (o : Option (Call N)) (call : Call N)
    → o ≡ some call
    → IsQuietResult o
    → IsQuiet call
IsQuietResult-at o call e h = subst IsQuietResult e h

module _ (p : Primitives) (b : Cbor) {N : Type 0} where
  queue_encrypted-IsQuiet :
      (msg : Message) (call : Call N)
      → is_closed_state call.link.state ≡ false
      → IsQuietResult (queue_encrypted p b msg call)
  unfolding queue_encrypted
  queue_encrypted-IsQuiet msg call h = elim (LinkState-cases call.link.state) [
    | inl e ↦ rw (e, queue_encrypted) (rw e tt)
    | inr (inl (hs, e)) ↦ rw (e, queue_encrypted) (rw e tt)
    | inr (inr (inl (t, e))) ↦ elim (Outcome-cases (encrypt_frame p b t msg).0) [
      | inl (frame, f) ↦ rw (e, f, queue_encrypted) tt
      | inr (inl (x, f)) ↦ rw (e, f, queue_encrypted) (close_silently-IsQuiet _ _)
      | inr (inr f) ↦ rw (e, f, queue_encrypted) tt
    ]
    | inr (inr (inr (r, e))) ↦ absurd (ground (arith, e, h))
  ]

  queue_replies-IsQuiet :
      (msgs : List Message) (call : Call N)
      → is_closed_state call.link.state ≡ false
      → IsQuietResult (queue_replies p b msgs call)
  unfolding queue_replies
  queue_replies-IsQuiet [] call h = not_closed-IsQuietOutput call.link.state call.out h
  queue_replies-IsQuiet (msg ∷ msgs) call h = elim (Option-cases (queue_encrypted p b msg call)) [
    | inl e ↦ rw (e, queue_replies) tt
    | inr (call', e) ↦ elim (Bool-cases (is_closed_state call'.link.state)) [
      | inl shut ↦
          rw (e, shut, queue_replies)
            (IsQuietResult-at _ call' e (queue_encrypted-IsQuiet msg call h))
      | inr up ↦ rw (e, up, queue_replies) (queue_replies-IsQuiet msgs call' up)
    ]
  ]

abbrev pub IsQuietPair : {S N : Type 0} → Option (S × Call N) → Type 0
IsQuietPair none = Unit {0}
IsQuietPair (some (store, call)) = IsQuiet call

beside-IsQuiet :
    {S N : Type 0} (store : S) (o : Option (Call N))
    → IsQuietResult o
    → IsQuietPair (beside store o)
beside-IsQuiet store none h = h
beside-IsQuiet store (some call) h = h

after_sync-IsQuiet :
    (p : Primitives) (b : Cbor) {N : Type 0} (r : Outcome SyncError (Unit {0}))
    (replies : List Message) (call : Call N)
    → is_closed_state call.link.state ≡ false
    → IsQuietResult (after_sync p b r replies call)
after_sync-IsQuiet p b (ok _) replies call h = queue_replies-IsQuiet p b replies call h
after_sync-IsQuiet p b (err e) replies call h = close_with_error-IsQuiet p b _ _ call refl
after_sync-IsQuiet p b panic replies call h = tt

module _ (p : Primitives) (b : Cbor) {O J N : Type 0} (c : Signing) (index : OrderIndex O)
    (journals : Journal J) (engines : Engine N) where
  synchronise-IsQuiet :
      (msg : Message) (store : EntryStore O J) (call : Call N)
      → is_closed_state call.link.state ≡ false
      → IsQuietPair (synchronise p b c index journals engines msg store call)
  unfolding synchronise
  synchronise-IsQuiet msg store call h = beside-IsQuiet _ _ (after_sync-IsQuiet p b _ _ _ h)

  demux-IsQuiet :
      (msg : Message) (store : EntryStore O J) (call : Call N)
      → is_closed_state call.link.state ≡ false
      → IsQuietPair (demux p b c index journals engines msg store call)
  unfolding demux
  demux-IsQuiet (Message.hello m) store call h =
      beside-IsQuiet store _ (close_with_error-IsQuiet p b 3 _ call refl)
  demux-IsQuiet (Message.handshake m) store call h =
      beside-IsQuiet store _ (close_with_error-IsQuiet p b 3 _ call refl)
  demux-IsQuiet (Message.error e) store call h = close_silently-IsQuiet _ call
  demux-IsQuiet (Message.gossip_push m) store call h = synchronise-IsQuiet _ store call h
  demux-IsQuiet (Message.recon_init m) store call h = synchronise-IsQuiet _ store call h
  demux-IsQuiet (Message.recon_msg m) store call h = synchronise-IsQuiet _ store call h
  demux-IsQuiet (Message.recon_done m) store call h = synchronise-IsQuiet _ store call h

  handle_plaintext-IsQuiet :
      (plaintext : Bytes) (store : EntryStore O J) (call : Call N)
      → is_closed_state call.link.state ≡ false
      → IsQuietPair (handle_plaintext p b c index journals engines plaintext store call)
  unfolding handle_plaintext
  handle_plaintext-IsQuiet plaintext store call h =
      elim (Outcome-cases (decode_message b plaintext)) [
        | inl (msg, e) ↦ rw (e, handle_plaintext) (demux-IsQuiet msg store call h)
        | inr (inl (x, e)) ↦
            rw (e, handle_plaintext)
              (beside-IsQuiet store _
                (close_with_error-IsQuiet p b 1 (protocol_violation 1) call refl))
        | inr (inr e) ↦ rw (e, handle_plaintext) tt
      ]

  handle_transport_body-IsQuiet :
      (t : TransportState) (body : Bytes) (store : EntryStore O J) (call : Call N)
      → IsQuietPair (handle_transport_body p b c index journals engines t body store call)
  unfolding handle_transport_body
  handle_transport_body-IsQuiet t body store call =
      elim (Bool-cases (ltb (length body) 16 || not (is_padded_len (length body - 16)))) [
        | inl bad ↦ rw (bad, handle_transport_body) (close_silently-IsQuiet _ call)
        | inr good ↦ elim (Outcome-cases (decrypt p t body).0) [
          | inl (plaintext, e) ↦
              rw (good, e, handle_transport_body) (handle_plaintext-IsQuiet plaintext store _ refl)
          | inr (inl (x, e)) ↦ rw (good, e, handle_transport_body) (close_silently-IsQuiet _ call)
          | inr (inr e) ↦ rw (good, e, handle_transport_body) tt
        ]
      ]

  pub handle_body-IsQuiet :
      (body : Bytes) (store : EntryStore O J) (call : Call N)
      → is_closed_state call.link.state ≡ false
      → IsQuietPair (handle_body p b c index journals engines body store call)
  unfolding handle_body
  handle_body-IsQuiet body store call h = elim (LinkState-cases call.link.state) [
    | inl e ↦ rw (e, handle_body) (beside-IsQuiet store _ (handle_hello_body-IsQuiet p b body _))
    | inr (inl (hs, e)) ↦
        rw (e, handle_body) (beside-IsQuiet store _ (handle_handshake_body-IsQuiet p b hs body _))
    | inr (inr (inl (t, e))) ↦ rw (e, handle_body) (handle_transport_body-IsQuiet t body store _)
    | inr (inr (inr (r, e))) ↦ absurd (ground (arith, e, h))
  ]
