-- ===== src/Wire/Frame/RoundTrip.antt =====
-- `FrameDecoder` of core/src/wire/frame.rs against `encode_frame`.
use racnet.Prelude.{
  ◌≤◌, ◌<◌, ◌≡◌, sym, ◌∙◌, inl, inr, some, ◌++◌, Bytes, length, arith, length-append,
  take-append_length, drop-append_length, Outcome-cases, to_be_bytes, from_be-to_be, ok, ◌>>=◌,
  ok-injective,
}
use racnet.Wire.Payload.{Cbor}
use racnet.Wire.Pad.Blocks.{padded_len_bounds}
use racnet.Wire.Msg.{Message, encode_message, decode_payload, msg_type, payload_bytes}
use racnet.Wire.Msg.Total.{encode_message-cases, length-body_of}
use racnet.Wire.Msg.RoundTrip.{decode_message-encode_message}
use racnet.Wire.Frame.{push, new, split_frame, next_body, encode_frame, next_message}

split_frame-framed :
    (body rest : Bytes)
    → length body < 65536
    → split_frame (to_be_bytes (length body) ++ (body ++ rest)) ≡ some (body, rest)
unfolding split_frame
split_frame-framed body rest h = ground (
  arith,
  from_be-to_be (length body) h,
  take-append_length body rest,
  drop-append_length body rest,
  length-append body rest,
)

module _ (c : Cbor) where
  encode_message-length :
      (m : Message) (body : Bytes) → encode_message c m ≡ ok body → length body ≤ 63488
  encode_message-length m body e = elim (encode_message-cases c m) [
    | inl (_, r) ↦ cc
    | inr (inl (_, _, r)) ↦ cc
    | inr (inr (padded, v, p, r)) ↦
        let (fits, lo, hi) = padded_len_bounds _ padded p in
        rw (ok-injective (sym e ∙ r), length-body_of c m padded fits) hi
  ]

  -- Framing adds the two bytes of the length and refuses nothing: a message that `encode_message`
  -- encodes has a frame, and its other answers are passed on.
  pub encode_frame-encode_message :
      (m : Message)
      → encode_frame c m ≡ (encode_message c m >>= λ body. ok (to_be_bytes (length body) ++ body))
  unfolding encode_frame
  encode_frame-encode_message m = elim (Outcome-cases (encode_message c m)) [
    | inl (body, e) ↦ ground (arith, e, encode_message-length m body e)
    | inr (inl (x, e)) ↦ rw (e, ◌>>=◌)
    | inr (inr e) ↦ rw (e, ◌>>=◌)
  ]

  -- A frame that was pushed into an empty decoder, with more bytes behind it, comes out as the
  -- message that was framed, and the bytes behind it stay.
  pub next_message-encode_frame :
      (m : Message) (frame rest : Bytes)
      → encode_frame c m ≡ ok frame
      → decode_payload c (msg_type m) (payload_bytes c m) ≡ ok (m, length (payload_bytes c m))
      → next_message c (push new (frame ++ rest)) ≡ (ok (some m), record { buf = rest })
  unfolding next_message next_body push
  next_message-encode_frame m frame rest e d = elim (Outcome-cases (encode_message c m)) [
    | inl (body, b) ↦ ground (
      arith,
      b,
      e,
      encode_frame-encode_message m,
      split_frame-framed body rest,
      encode_message-length m body b,
      decode_message-encode_message c m body b d,
    )
    | inr (inl (x, b)) ↦ ground (arith, b, e, encode_frame-encode_message m)
    | inr (inr b) ↦ ground (arith, b, e, encode_frame-encode_message m)
  ]
