-- ===== src/Wire/Msg/RoundTrip.antt =====
-- `decode_message` of core/src/wire/msg.rs against `encode_message`.
use racnet.Prelude.{
  ℕ, ◌+◌, ◌-◌, ◌≤◌, ◌≡◌, refl, sym, ◌∙◌, inl, inr, true, some, ◌∷◌, ◌++◌, Bytes, length, zeros,
  length-zeros, take, arith, ok, ◌>>=◌, length-append, Outcome-cases, from_be_bytes,
  take-append_length, from_be-to_be, subst, ok-injective, ok-ne-err, get_elem?,
}
use racnet.Wire.Pad.{padded_len, is_some_eq}
use racnet.Wire.Pad.Blocks.{IsPermitted, padded_len_bounds, padded_len_smallest}
use racnet.Wire.Payload.{Cbor}
use racnet.Wire.Msg.{
  Message, MsgType, msg_type, type_byte, msg_type_from, validate, payload_bytes, decode_payload,
  encode_message, decode_whole, decode_message,
}
use racnet.Wire.Msg.Total.{body_of, length-body_of, encode_message-cases, msg_type_from-type_byte}

module _ (c : Cbor) where
  whole :
      (m : Message)
      → validate m ≡ ok tt
      → decode_payload c (msg_type m) (payload_bytes c m) ≡ ok (m, length (payload_bytes c m))
      → decode_whole c (msg_type m) (payload_bytes c m) ≡ ok m
  unfolding decode_whole
  whole m v d = rw (d, ◌>>=◌) (ground arith)

  three : (xs ys : Bytes) → take (3 + length xs - 3) (xs ++ ys) ≡ xs
  three xs ys =
      let e : 3 + length xs - 3 ≡ length xs = omega arith in rw e (take-append_length xs ys)

  decode-body_of :
      (m : Message) (padded : ℕ)
      → validate m ≡ ok tt
      → padded_len (3 + length (payload_bytes c m)) ≡ some padded
      → decode_payload c (msg_type m) (payload_bytes c m) ≡ ok (m, length (payload_bytes c m))
      → decode_message c (body_of c m padded) ≡ ok m
  unfolding decode_message body_of
  decode-body_of m padded v p d =
      let pad = zeros (padded - (3 + length (payload_bytes c m))) in
      ground (
        arith,
        padded_len_bounds _ padded p,
        length-append (payload_bytes c m) pad,
        length-zeros (padded - (3 + length (payload_bytes c m))),
        msg_type_from-type_byte (msg_type m),
        three (payload_bytes c m) pad,
        whole m v d,
        from_be-to_be (length (payload_bytes c m)),
      )

  -- A message that was encoded is decoded to itself, where the derived CBOR decoder reads back what
  -- the derived encoder wrote for its payload.
  pub decode_message-encode_message :
      (m : Message) (body : Bytes)
      → encode_message c m ≡ ok body
      → decode_payload c (msg_type m) (payload_bytes c m) ≡ ok (m, length (payload_bytes c m))
      → decode_message c body ≡ ok m
  decode_message-encode_message m body e d = elim (encode_message-cases c m) [
    | inl (_, r) ↦ cc
    | inr (inl (_, _, r)) ↦ cc
    | inr (inr (padded, v, p, r)) ↦
        subst (λ b. decode_message c b ≡ ok m) (ok-injective (sym r ∙ e))
          (decode-body_of m padded v p d)
  ]

  -- What `encode_message` writes has a permitted padded length, the smallest that holds the header
  -- and the payload, and starts with the message's type byte.
  pub encode_message_shape :
      (m : Message) (body : Bytes)
      → encode_message c m ≡ ok body
      → IsPermitted (length body)
        × (3 + length (payload_bytes c m) ≤ length body)
        × ((q : ℕ) → IsPermitted q → 3 + length (payload_bytes c m) ≤ q → length body ≤ q)
        × (get_elem? body 0 ≡ some (type_byte (msg_type m)))
  encode_message_shape m body e = elim (encode_message-cases c m) [
    | inl (_, r) ↦ absurd (ok-ne-err (sym e ∙ r))
    | inr (inl (_, _, r)) ↦ absurd (ok-ne-err (sym e ∙ r))
    | inr (inr (padded, v, p, r)) ↦
        let (perm, fits, least) = padded_len_smallest _ padded p in
        let b : body ≡ body_of c m padded = ok-injective (sym e ∙ r) in
        rw (b, length-body_of c m padded fits) (perm, fits, least, unfold body_of in refl)
  ]

  msg_type_from_sound : (b : ℕ) (t : MsgType) → msg_type_from b ≡ ok t → b ≡ type_byte t
  unfolding msg_type_from type_byte
  msg_type_from_sound b t e = ground arith

  decode_payload-msg_type :
      (t : MsgType) (bs : Bytes) (m : Message) (n : ℕ)
      → decode_payload c t bs ≡ ok (m, n)
      → msg_type m ≡ t
  unfolding decode_payload msg_type
  decode_payload-msg_type MsgType.hello bs m n e = ground arith
  decode_payload-msg_type _ bs m n e = ground arith

  decode_whole_sound :
      (t : MsgType) (payload : Bytes) (m : Message)
      → decode_whole c t payload ≡ ok m
      → (validate m ≡ ok tt) × (msg_type m ≡ t)
  unfolding decode_whole
  decode_whole_sound t payload m e = elim (Outcome-cases (decode_payload c t payload)) [
    | inl ((m', n), d) ↦ ground (arith, d, decode_payload-msg_type t payload m' n)
    | inr (inl (x, d)) ↦ ground (arith, d)
    | inr (inr d) ↦ ground (arith, d)
  ]

  block_length : (n len : ℕ) → is_some_eq (padded_len n) len ≡ true → padded_len n ≡ some len
  block_length n len h = ground arith

  -- A body that decodes starts with the type byte of its message, the message passes `validate`, and
  -- its length is the padded length of the header with the payload that the length field declares.
  pub decode_message_sound :
      (m : Message) (b0 b1 b2 : ℕ) (rest : Bytes)
      → decode_message c (b0 ∷ b1 ∷ b2 ∷ rest) ≡ ok m
      → (validate m ≡ ok tt)
        × (b0 ≡ type_byte (msg_type m))
        × (padded_len (3 + from_be_bytes b1 b2) ≡ some (3 + length rest))
  unfolding decode_message
  decode_message_sound m b0 b1 b2 rest e = elim (Outcome-cases (msg_type_from b0)) [
    | inl (t, d) ↦ ground (
      arith,
      d,
      msg_type_from_sound b0 t d,
      block_length (3 + from_be_bytes b1 b2) (3 + length rest),
      decode_whole_sound t (take (3 + from_be_bytes b1 b2 - 3) rest) m,
    )
    | inr (inl (x, d)) ↦ ground (arith, d)
    | inr (inr d) ↦ ground (arith, d)
  ]
