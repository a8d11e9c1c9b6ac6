-- ===== src/Wire/Runs.antt =====
-- The wire codec at concrete inputs. `tiny_cbor` encodes a number as one byte; it stands for the
-- derived codecs of two messages.
use racnet.Prelude.{
  ℕ, ◌+◌, ◌≡◌, ◌≢◌, refl, Option, none, some, [], ◌∷◌, ◌++◌, Bytes, length, zeros, ok, panic, ◌>>=◌,
  to_be_bytes, from_be_bytes,
}
use racnet.Wire.Pad.{padded_len}
use racnet.Wire.Payload.{Codec, Cbor}
use racnet.Wire.Msg.{
  Message, msg_type, type_byte, validate, payload_bytes, decode_payload, encode_message,
  decode_message,
}
use racnet.Wire.Msg.Total.{decode_message-ne-panic}
use racnet.Wire.Msg.RoundTrip.{decode_message-encode_message, decode_message_sound}
use racnet.Wire.Frame.{FrameDecoder, new, push, next_body, encode_frame, next_message}
use racnet.Wire.Frame.Stream.{Reads, stop, next, next_body-push, Reads-push}
use racnet.Wire.Frame.RoundTrip.{next_message-encode_frame, encode_frame-encode_message}

one_byte : {A : Type 0} → (ℕ → A) → Bytes → Option (A × ℕ)
one_byte f [] = none
one_byte f (b ∷ bs) = some (f b, 1)

abbrev no_codec : {A : Type 0} → Codec A
no_codec = record { encode = λ _. []; decode = λ _. none }

abbrev tiny_cbor : Cbor
unfolding one_byte
tiny_cbor = record {
  hello_codec = no_codec;
  handshake_codec = no_codec;
  gossip_push_codec = no_codec;
  recon_init_codec = no_codec;
  recon_msg_codec = no_codec;
  recon_done_codec = record {
    encode = λ m. m.sid ∷ [];
    decode = one_byte (λ b. record { sid = b });
  };
  error_codec = record { encode = λ m. m.code ∷ []; decode = one_byte (λ b. record { code = b }) };
}

abbrev error_2 : Message
error_2 = Message.error (record { code = 2 })

abbrev error_body : Bytes
error_body = 0x70 ∷ 0 ∷ 1 ∷ 2 ∷ zeros 252

abbrev error_frame : Bytes
error_frame = 1 ∷ 0 ∷ error_body

padded_300 : padded_len 300 ≡ some 512
unfolding padded_len
padded_300 = refl

error_encoded : encode_message tiny_cbor error_2 ≡ ok error_body
unfolding encode_message validate padded_len payload_bytes type_byte msg_type tiny_cbor
error_encoded = refl

error_decoded :
    decode_payload tiny_cbor (msg_type error_2) (payload_bytes tiny_cbor error_2)
    ≡ ok (error_2, length (payload_bytes tiny_cbor error_2))
unfolding decode_payload payload_bytes msg_type one_byte
error_decoded = refl

decode_message-ne-panic_example : decode_message tiny_cbor (0x70 ∷ 255 ∷ 255 ∷ zeros 253) ≢ panic
decode_message-ne-panic_example = decode_message-ne-panic tiny_cbor (0x70 ∷ 255 ∷ 255 ∷ zeros 253)

decode_message-encode_message_example : decode_message tiny_cbor error_body ≡ ok error_2
decode_message-encode_message_example =
    decode_message-encode_message tiny_cbor error_2 error_body error_encoded error_decoded

decode_message_sound_example :
    (validate error_2 ≡ ok tt)
    × (0x70 ≡ type_byte (msg_type error_2))
    × (padded_len (3 + from_be_bytes 0 1) ≡ some (3 + length (2 ∷ zeros 252)))
decode_message_sound_example =
    decode_message_sound tiny_cbor error_2 0x70 0 1 (2 ∷ zeros 252)
      decode_message-encode_message_example

abbrev two_and_more : FrameDecoder
two_and_more = record { buf = 0 ∷ 1 ∷ 7 ∷ 0 ∷ [] }

first_body : next_body two_and_more ≡ (some (7 ∷ []), record { buf = 0 ∷ [] })
unfolding next_body
first_body = refl

next_body-push_example :
    next_body (push two_and_more (2 ∷ 5 ∷ 6 ∷ []))
    ≡ (some (7 ∷ []), push (record { buf = 0 ∷ [] }) (2 ∷ 5 ∷ 6 ∷ []))
next_body-push_example =
    next_body-push two_and_more (record { buf = 0 ∷ [] }) (7 ∷ []) (2 ∷ 5 ∷ 6 ∷ []) first_body

abbrev seven : Bytes
seven = 7 ∷ []

first_piece : Reads two_and_more ((7 ∷ []) ∷ []) (record { buf = 0 ∷ [] })
unfolding next_body
first_piece = next first_body (stop refl)

second_piece :
    Reads
      (push (record { buf = 0 ∷ [] }) (2 ∷ 5 ∷ 6 ∷ []))
      ((5 ∷ 6 ∷ []) ∷ [])
      (record { buf = [] })
unfolding next_body push
second_piece = next refl (stop refl)

Reads-push_example :
    Reads (push two_and_more (2 ∷ 5 ∷ 6 ∷ [])) ((7 ∷ []) ∷ (5 ∷ 6 ∷ []) ∷ []) (record { buf = [] })
Reads-push_example =
    Reads-push ((5 ∷ 6 ∷ []) ∷ []) (2 ∷ 5 ∷ 6 ∷ []) (record { buf = [] }) first_piece second_piece

error_framed : encode_frame tiny_cbor error_2 ≡ ok error_frame
unfolding encode_frame
error_framed = rw error_encoded

next_message-encode_frame_example :
    next_message tiny_cbor (push new (error_frame ++ (9 ∷ [])))
    ≡ (ok (some error_2), record { buf = 9 ∷ [] })
next_message-encode_frame_example =
    next_message-encode_frame tiny_cbor error_2 error_frame (9 ∷ []) error_framed error_decoded

encode_frame-encode_message_example :
    encode_frame tiny_cbor error_2
    ≡ (encode_message tiny_cbor error_2 >>= λ body. ok (to_be_bytes (length body) ++ body))
encode_frame-encode_message_example = encode_frame-encode_message tiny_cbor error_2
