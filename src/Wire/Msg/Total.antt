-- ===== src/Wire/Msg/Total.antt =====
-- What `encode_message` and `decode_message` of core/src/wire/msg.rs answer on every input.
use racnet.Prelude.{
  ℕ, ◌+◌, ◌*◌, ◌-◌, ◌≤◌, ◌<◌, ◌≡◌, ◌≢◌, refl, ◌⊎◌, inl, inr, true, none, some, [], ◌∷◌, ◌++◌, Bytes,
  length, zeros, length-zeros, take, arith, ok, err, panic, ◌>>=◌, length-append, take,
  Option-cases, Outcome-cases, to_be_bytes,
}
use racnet.Wire.Error.{schema, too_large}
use racnet.Wire.Pad.{padded_len, is_some_eq}
use racnet.Wire.Pad.Blocks.{padded_len_bounds, padded_len-none_iff}
use racnet.Wire.Payload.{Cbor}
use racnet.Wire.Msg.{
  Message, MsgType, msg_type, type_byte, msg_type_from, validate, payload_bytes, decode_payload,
  encode_message, decode_whole, decode_message,
}

validate-cases : (m : Message) → (validate m ≡ ok tt) ⊎ (validate m ≡ err schema)
unfolding validate
validate-cases (Message.hello h) = ground arith
validate-cases (Message.gossip_push p) = ground arith
validate-cases _ = inl refl

pub msg_type_from-type_byte : (t : MsgType) → msg_type_from (type_byte t) ≡ ok t
unfolding msg_type_from type_byte
msg_type_from-type_byte MsgType.hello = refl
msg_type_from-type_byte _ = refl

module _ (c : Cbor) where
  -- The body that `encode_message` writes into a block of the given length.
  unfoldable pub body_of : Message → ℕ → Bytes
  body_of m padded =
      let payload = payload_bytes c m in
      type_byte (msg_type m) ∷ to_be_bytes (length payload)
      ++ (payload ++ zeros (padded - (3 + length payload)))

  pub length-body_of :
      (m : Message) (padded : ℕ)
      → 3 + length (payload_bytes c m) ≤ padded
      → length (body_of m padded) ≡ padded
  unfolding body_of
  length-body_of m padded h = omega (
    arith,
    length-append (payload_bytes c m) (zeros (padded - (3 + length (payload_bytes c m)))),
    length-zeros (padded - (3 + length (payload_bytes c m))),
  )

  pub encode_message-body_of :
      (m : Message) (padded : ℕ)
      → validate m ≡ ok tt
      → padded_len (3 + length (payload_bytes c m)) ≡ some padded
      → encode_message c m ≡ ok (body_of m padded)
  unfolding encode_message body_of
  encode_message-body_of m padded v p = ground (arith, padded_len_bounds _ padded p)

  refused : (m : Message) → validate m ≡ err schema → encode_message c m ≡ err schema
  unfolding encode_message
  refused m e = rw (e, ◌>>=◌)

  too_long :
      (m : Message)
      → validate m ≡ ok tt
      → padded_len (3 + length (payload_bytes c m)) ≡ none
      → encode_message c m ≡ err too_large
  unfolding encode_message
  too_long m v e = ground arith

  pub encode_message-cases :
      (m : Message)
      → ((validate m ≡ err schema) × (encode_message c m ≡ err schema))
        ⊎ ((validate m ≡ ok tt)
            × (63488 < 3 + length (payload_bytes c m))
            × (encode_message c m ≡ err too_large))
        ⊎ ((padded : ℕ) × (validate m ≡ ok tt)
            × (padded_len (3 + length (payload_bytes c m)) ≡ some padded)
            × (encode_message c m ≡ ok (body_of m padded)))
  encode_message-cases m = elim (validate-cases m) [
    | inr bad ↦ inl (bad, refused m bad)
    | inl good ↦ elim (Option-cases (padded_len (3 + length (payload_bytes c m)))) [
      | inl none_at ↦ inr (inl (good, (padded_len-none_iff _).0 none_at, too_long m good none_at))
      | inr (padded, e) ↦ inr (inr (padded, good, e, encode_message-body_of m padded good e))
    ]
  ]

  decode_payload-ne-panic : (t : MsgType) (bs : Bytes) → decode_payload c t bs ≢ panic
  unfolding decode_payload
  decode_payload-ne-panic MsgType.hello bs = ground arith
  decode_payload-ne-panic _ bs = ground arith

  validate-ne-panic : (m : Message) → validate m ≢ panic
  validate-ne-panic m = ground (arith, validate-cases m)

  msg_type_from-ne-panic : (b : ℕ) → msg_type_from b ≢ panic
  unfolding msg_type_from
  msg_type_from-ne-panic b = ground arith

  decode_whole-ne-panic : (t : MsgType) (payload : Bytes) → decode_whole c t payload ≢ panic
  unfolding decode_whole
  decode_whole-ne-panic t payload = elim (Outcome-cases (decode_payload c t payload)) [
    | inl ((m, position), e) ↦ rw (e, ◌>>=◌) (ground (arith, validate-ne-panic m))
    | inr (inl (x, e)) ↦ rw (e, ◌>>=◌) (λ p. cc)
    | inr (inr e) ↦ absurd (decode_payload-ne-panic t payload e)
  ]

  -- The padding test keeps the payload's slice in range.
  in_range : (n len : ℕ) → is_some_eq (padded_len n) len ≡ true → n ≤ len
  in_range n len h = elim (Option-cases (padded_len n)) [
    | inl e ↦ ground arith
    | inr (p, e) ↦ ground (arith, padded_len_bounds n p e)
  ]

  -- `decode_message` answers on every byte string: its indexing and slicing stay in range.
  pub decode_message-ne-panic : (body : Bytes) → decode_message c body ≢ panic
  unfolding decode_message
  decode_message-ne-panic [] = λ p. cc
  decode_message-ne-panic (b0 ∷ []) = λ p. cc
  decode_message-ne-panic (b0 ∷ b1 ∷ []) = λ p. cc
  decode_message-ne-panic (b0 ∷ b1 ∷ b2 ∷ rest) = elim (Outcome-cases (msg_type_from b0)) [
    | inl (t, e) ↦ ground (
      arith,
      e,
      in_range (3 + (256 * b1 + b2)) (3 + length rest),
      decode_whole-ne-panic t (take (3 + (256 * b1 + b2) - 3) rest),
    )
    | inr (inl (x, e)) ↦ ground (arith, e)
    | inr (inr e) ↦ absurd (msg_type_from-ne-panic b0 e)
  ]
