-- ===== src/Link/Driver/Silence/Loop.antt =====
-- The ways `on_bytes` of core/src/link/driver.rs closes, the end of its loop, and closed links.
use racnet.Prelude.{
  ◌<◌, leb, ◌-◌, subst, ℕ, zero, suc, ◌≡◌, inl, inr, refl, Bool, true, false, Bytes, ◌&&◌, not,
  Option, some, length, arith, err, Option-cases, Bool-cases,
}
use racnet.Noise.Primitives.{Primitives}
use racnet.Wire.Payload.{Cbor, SortKeyWindow}
use racnet.Wire.Entry.{Signing}
use racnet.Wire.Msg.{Message}
use racnet.Wire.Frame.Stream.{next_body_shrinks}
use racnet.Wire.Frame.{FrameDecoder, next_body}
use racnet.Store.{OrderIndex, Journal, EntryStore}
use racnet.Sync.Session.{Engine}
use racnet.Link.Driver.{
  Call, LinkDriver, LinkState, CloseReason, not_established, no_output, is_closed_state,
  is_established,
}
use racnet.Link.Driver.Calls.{
  is_initiator, check_timeouts, on_tick, on_bytes, send, open_sync, start, handle_bodies,
  handle_body,
}
use racnet.Link.Driver.Silence.{IsQuietOutput, IsQuiet, close_silently-IsQuiet}
use racnet.Link.Driver.Silence.Established.{
  not_closed-IsQuietOutput, IsQuietPair, handle_body-IsQuiet,
}

module _ (p : Primitives) (b : Cbor) {O J N : Type 0} (c : Signing) (index : OrderIndex O)
    (journals : Journal J) (engines : Engine N) where
  IsQuietPair-at :
      (o : Option (EntryStore O J × Call N)) (store : EntryStore O J) (call : Call N)
      → o ≡ some (store, call)
      → IsQuietPair o
      → IsQuiet call
  IsQuietPair-at o store call e h = subst IsQuietPair e h

  handle_bodies-IsQuiet :
      (fuel : ℕ) (d : FrameDecoder) (store : EntryStore O J) (call : Call N)
      → is_closed_state call.link.state ≡ false
      → IsQuietPair (handle_bodies p b c index journals engines fuel d store call)
  unfolding handle_bodies
  handle_bodies-IsQuiet zero d store call h = not_closed-IsQuietOutput call.link.state call.out h
  handle_bodies-IsQuiet (suc fuel) d store call h = elim (Option-cases (next_body d).0) [
    | inl e ↦ rw (e, handle_bodies) (not_closed-IsQuietOutput call.link.state call.out h)
    | inr (body, e) ↦
        elim (Option-cases (handle_body p b c index journals engines body store call)) [
          | inl f ↦ rw (e, f, handle_bodies) tt
          | inr ((store', call'), f) ↦ elim (Bool-cases (is_closed_state call'.link.state)) [
            | inl shut ↦
                rw (e, f, shut, handle_bodies)
                  (IsQuietPair-at _ store' call' f
                    (handle_body-IsQuiet p b c index journals engines body store call h))
            | inr up ↦
                rw (e, f, up, handle_bodies)
                  (handle_bodies-IsQuiet fuel (next_body d).1 store' call' up)
          ]
        ]
  ]

  on_bytes-IsQuiet :
      (link : LinkDriver N) (store : EntryStore O J) (bytes : Bytes) (now : ℕ)
      → is_closed_state link.state ≡ false
      → IsQuietPair (on_bytes p b c index journals engines store bytes now link)
  unfolding on_bytes check_timeouts
  on_bytes-IsQuiet link store bytes now h =
      let elapsed = now - link.opened_at_us in
      elim (Bool-cases
        (not (is_established link) && leb link.config.handshake_timeout_us elapsed)) [
          | inl late ↦ rw (h, late) (close_silently-IsQuiet _ _)
          | inr r ↦ elim (Bool-cases (leb link.config.max_lifetime_us elapsed)) [
            | inl old ↦ rw (h, r, old) (close_silently-IsQuiet _ _)
            | inr young ↦ rw (h, r, young, h) (handle_bodies-IsQuiet _ _ store _ h)
          ]
        ]

  -- Bytes that arrive on a link that is not closed leave it open, or closed with the close as the last
  -- event; and then there is no frame to write, unless the reason is one that an ERROR frame may tell:
  -- no common version, or a violation of the protocol.
  pub on_bytes-IsQuietOutput :
      (link : LinkDriver N) (store store' : EntryStore O J) (bytes : Bytes) (now : ℕ)
      (call : Call N)
      → is_closed_state link.state ≡ false
      → on_bytes p b c index journals engines store bytes now link ≡ some (store', call)
      → IsQuietOutput call.link.state call.out
  on_bytes-IsQuietOutput link store store' bytes now call h e =
      IsQuietPair-at _ store' call e (on_bytes-IsQuiet link store bytes now h)

  -- Once there is more fuel than bytes, more fuel changes nothing.
  pub handle_bodies_fuel :
      (fuel fuel' : ℕ) (d : FrameDecoder) (store : EntryStore O J) (call : Call N)
      → length d.buf < fuel
      → length d.buf < fuel'
      → handle_bodies p b c index journals engines fuel d store call
        ≡ handle_bodies p b c index journals engines fuel' d store call
  unfolding handle_bodies
  handle_bodies_fuel zero fuel' d store call h h' = absurd (omega arith)
  handle_bodies_fuel (suc fuel) zero d store call h h' = absurd (omega arith)
  handle_bodies_fuel (suc fuel) (suc fuel') d store call h h' =
      elim (Option-cases (next_body d).0) [
        | inl e ↦ rw (e, handle_bodies) refl
        | inr (body, e) ↦
            elim (Option-cases (handle_body p b c index journals engines body store call)) [
              | inl f ↦ rw (e, f, handle_bodies) refl
              | inr ((store', call'), f) ↦ elim (Bool-cases (is_closed_state call'.link.state)) [
                | inl shut ↦ rw (e, f, shut, handle_bodies) refl
                | inr up ↦
                    rw (e, f, up, handle_bodies)
                      (handle_bodies_fuel fuel fuel' (next_body d).1 store' call'
                        (omega (arith, next_body_shrinks d body e))
                        (omega (arith, next_body_shrinks d body e)))
              ]
            ]
      ]

  never : (x : Bool) → (x && false) ≡ false
  never true = refl
  never false = refl

  -- A closed link stays as it is, writes nothing and reports nothing, whatever its user does; to send
  -- or to open a session is an error.
  pub closed_inert :
      (link : LinkDriver N) (reason : CloseReason) (store : EntryStore O J)
      → link.state ≡ LinkState.closed reason
      → ((now : ℕ) → on_tick now link ≡ record { link = link; out = no_output })
        × ((bytes : Bytes) (now : ℕ)
            → on_bytes p b c index journals engines store bytes now link
              ≡ some (store, record { link = link; out = no_output }))
        × ((msg : Message) → send p b msg link ≡ some (err not_established, link))
        × ((window : SortKeyWindow)
            → open_sync p b c index journals engines store window link
              ≡ some (err not_established, link))
        × (start p b link ≡ some (record { link = link; out = no_output }))
  unfolding on_tick on_bytes send open_sync start check_timeouts is_established
  closed_inert link reason store e = (
    λ now. rw e refl,
    λ bytes now. rw e refl,
    λ msg. rw e refl,
    λ window. rw e refl,
    rw (e, never (is_initiator link.role)) refl,
  )
