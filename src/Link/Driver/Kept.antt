-- ===== src/Link/Driver/Kept.antt =====
-- The entry store through the driver of a link (core/src/link/driver.rs): it changes by insertions only.
use racnet.Prelude.{
  ℕ, ◌||◌, ◌-◌, ◌≡◌, subst, refl, true, false, not, zero, suc, Bytes, List, [], ◌∷◌, Option, none,
  some, ltb, length, Option-cases, Outcome-cases, Bool-cases, inl, inr,
}
use racnet.Noise.Primitives.{Primitives}
use racnet.Noise.Transport.{TransportState, decrypt}
use racnet.Wire.Payload.{Cbor, Entry}
use racnet.Wire.Entry.{Signing}
use racnet.Wire.Msg.{Message, decode_message}
use racnet.Wire.Pad.{is_padded_len}
use racnet.Wire.Frame.{FrameDecoder, push, next_body}
use racnet.Store.{OrderIndex, Journal, EntryStore, insert_entry}
use racnet.Sync.Session.{Engine, Syncer, SyncOutput, push_entries, handle_message_into}
use racnet.Link.Driver.{Call, LinkDriver, LinkState, set_state, is_closed_state, no_output}
use racnet.Link.Driver.Calls.{
  beside, check_timeouts, synchronise, demux, handle_plaintext, handle_transport_body, handle_body,
  handle_bodies, on_bytes,
}

module _ (p : Primitives) (b : Cbor) {O J N : Type 0} (c : Signing) (index : OrderIndex O)
    (journals : Journal J) (engines : Engine N) (Q : EntryStore O J → Type 0)
    (keeps : (entry : Entry) (store : EntryStore O J)
      → Q store
      → Q (insert_entry c index journals entry store).1) where
  -- The store that a call leaves has the predicate; a panic leaves none.
  abbrev pub Kept : Option (EntryStore O J × Call N) → Type 0
  Kept none = Unit {0}
  Kept (some (store, call)) = Q store

  push_entries-kept :
      (entries : List Entry) (store : EntryStore O J)
      → Q store
      → Q (push_entries c index journals entries store).1
  unfolding push_entries
  push_entries-kept [] store q = q
  push_entries-kept (entry ∷ entries) store q =
      let rest =
        push_entries-kept entries (insert_entry c index journals entry store).1
          (keeps entry store q) in
      elim (Outcome-cases (insert_entry c index journals entry store).0) [
        | inl (true, e) ↦ rw (e, push_entries) rest
        | inl (false, e) ↦ rw (e, push_entries) rest
        | inr (inl (x, e)) ↦ rw (e, push_entries) (keeps entry store q)
        | inr (inr e) ↦ rw (e, push_entries) (keeps entry store q)
      ]

  handle_message_into-kept :
      (msg : Message) (s : Syncer N) (store : EntryStore O J) (output : SyncOutput)
      → Q store
      → Q (handle_message_into c index journals engines msg s store output).2
  unfolding handle_message_into
  handle_message_into-kept (Message.gossip_push m) s store output q =
      push_entries-kept m.entries store q
  handle_message_into-kept (Message.recon_init m) s store output q = q
  handle_message_into-kept (Message.recon_msg m) s store output q = q
  handle_message_into-kept (Message.recon_done m) s store output q = q
  handle_message_into-kept (Message.hello m) s store output q = q
  handle_message_into-kept (Message.handshake m) s store output q = q
  handle_message_into-kept (Message.error m) s store output q = q

  beside-Kept :
      (store : EntryStore O J) (call : Option (Call N)) → Q store → Kept (beside store call)
  beside-Kept store none q = tt
  beside-Kept store (some call) q = q

  synchronise-Kept :
      (msg : Message) (store : EntryStore O J) (call : Call N)
      → Q store
      → Kept (synchronise p b c index journals engines msg store call)
  unfolding synchronise
  synchronise-Kept msg store call q =
      beside-Kept _ _ (
        handle_message_into-kept msg call.link.syncer store (record { replies = []; events = [] })
          q)

  demux-Kept :
      (msg : Message) (store : EntryStore O J) (call : Call N)
      → Q store
      → Kept (demux p b c index journals engines msg store call)
  unfolding demux
  demux-Kept (Message.hello m) store call q = beside-Kept store _ q
  demux-Kept (Message.handshake m) store call q = beside-Kept store _ q
  demux-Kept (Message.error m) store call q = q
  demux-Kept (Message.gossip_push m) store call q =
      synchronise-Kept (Message.gossip_push m) store call q
  demux-Kept (Message.recon_init m) store call q =
      synchronise-Kept (Message.recon_init m) store call q
  demux-Kept (Message.recon_msg m) store call q =
      synchronise-Kept (Message.recon_msg m) store call q
  demux-Kept (Message.recon_done m) store call q =
      synchronise-Kept (Message.recon_done m) store call q

  handle_plaintext-Kept :
      (plaintext : Bytes) (store : EntryStore O J) (call : Call N)
      → Q store
      → Kept (handle_plaintext p b c index journals engines plaintext store call)
  unfolding handle_plaintext
  handle_plaintext-Kept plaintext store call q = elim (Outcome-cases (decode_message b plaintext)) [
    | inl (msg, e) ↦ rw (e, handle_plaintext) (demux-Kept msg store call q)
    | inr (inl (x, e)) ↦ rw (e, handle_plaintext) (beside-Kept store _ q)
    | inr (inr e) ↦ rw (e, handle_plaintext) tt
  ]

  handle_transport_body-Kept :
      (t : TransportState) (body : Bytes) (store : EntryStore O J) (call : Call N)
      → Q store
      → Kept (handle_transport_body p b c index journals engines t body store call)
  unfolding handle_transport_body
  handle_transport_body-Kept t body store call q =
      elim (Bool-cases (ltb (length body) 16 || not (is_padded_len (length body - 16)))) [
        | inl bad ↦ rw (bad, handle_transport_body) q
        | inr good ↦ elim (Outcome-cases (decrypt p t body).0) [
          | inl (plaintext, e) ↦
              rw (good, e, handle_transport_body)
                (handle_plaintext-Kept plaintext store
                  (set_state (LinkState.transport (decrypt p t body).1) call) q)
          | inr (inl (x, e)) ↦ rw (good, e, handle_transport_body) q
          | inr (inr e) ↦ rw (good, e, handle_transport_body) tt
        ]
      ]

  handle_body-Kept :
      (body : Bytes) (store : EntryStore O J) (call : Call N)
      → Q store
      → Kept (handle_body p b c index journals engines body store call)
  unfolding handle_body
  handle_body-Kept body store call q = at call.link.state refl
    where
      at :
          (state : LinkState)
          → call.link.state ≡ state
          → Kept (handle_body p b c index journals engines body store call)
      at LinkState.await_peer_hello e = rw (e, handle_body) (beside-Kept store _ q)
      at (LinkState.handshaking hs) e = rw (e, handle_body) (beside-Kept store _ q)
      at (LinkState.transport t) e =
          rw (e, handle_body) (handle_transport_body-Kept t body store _ q)
      at (LinkState.closed r) e = rw (e, handle_body) q

  handle_bodies-Kept :
      (fuel : ℕ) (decoder : FrameDecoder) (store : EntryStore O J) (call : Call N)
      → Q store
      → Kept (handle_bodies p b c index journals engines fuel decoder store call)
  unfolding handle_bodies
  handle_bodies-Kept zero decoder store call q = q
  handle_bodies-Kept (suc fuel) decoder store call q = elim (Option-cases (next_body decoder).0) [
    | inl e ↦ rw (e, handle_bodies) q
    | inr (body, e) ↦
        let kept = handle_body-Kept body store call q in
        elim (Option-cases (handle_body p b c index journals engines body store call)) [
          | inl f ↦ rw (e, f, handle_bodies) tt
          | inr ((store', call'), f) ↦
              let q' : Q store' = subst Kept f kept in
              elim (Bool-cases (is_closed_state call'.link.state)) [
                | inl y ↦ rw (e, f, y, handle_bodies) q'
                | inr y ↦
                    rw (e, f, y, handle_bodies)
                      (handle_bodies-Kept fuel (next_body decoder).1 store' call' q')
              ]
        ]
  ]

  pub on_bytes-Kept :
      (store : EntryStore O J) (bytes : Bytes) (now_us : ℕ) (link : LinkDriver N)
      → Q store
      → Kept (on_bytes p b c index journals engines store bytes now_us link)
  unfolding on_bytes
  on_bytes-Kept store bytes now_us link q =
      let timed = check_timeouts now_us (record { link = link; out = no_output }) in
      elim (Bool-cases timed.0) [
        | inl y ↦ rw (y, on_bytes) q
        | inr y ↦ elim (Bool-cases (is_closed_state timed.1.link.state)) [
          | inl z ↦ rw (y, z, on_bytes) q
          | inr z ↦
              rw (y, z, on_bytes)
                (handle_bodies-Kept _ (push timed.1.link.decoder bytes) store timed.1 q)
        ]
      ]
