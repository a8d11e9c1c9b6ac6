-- ===== src/Wire/Msg.antt =====
-- core/src/wire/msg.rs: the registry of message types and the codec of inner messages.
pub mod Total
pub mod RoundTrip
use racnet.Prelude.{
  ℕ, ◌+◌, ◌-◌, Bool, true, false, not, Option, none, some, List, [], ◌∷◌, ◌++◌, Bytes, length,
  zeros, length-zeros, ltb, ◌==◌, if◌then◌else◌, Outcome, ok, err, panic, ◌>>=◌, ◌>>◌, ok_or,
  expect, index, slice, u16_try_from, to_be_bytes, from_be_bytes,
}
use racnet.Wire.Error.{
  WireError, too_large, bad_frame_length, bad_payload_length, schema, unknown_msg_type, cbor,
  trailing_bytes,
}
use racnet.Wire.Pad.{padded_len, is_some_eq}
use racnet.Wire.Payload.{
  Hello, Handshake, GossipPush, ReconInit, ReconMsg, ReconDone, ErrorMsg, Codec, Cbor,
}

pub data MsgType : Type 0 where
  hello handshake gossip_push recon_init recon_msg recon_done error : MsgType

-- `msg_type as u8`
unfoldable pub type_byte : MsgType → ℕ
type_byte hello = 0x01
type_byte handshake = 0x02
type_byte gossip_push = 0x10
type_byte recon_init = 0x20
type_byte recon_msg = 0x21
type_byte recon_done = 0x22
type_byte error = 0x70

-- `MsgType::try_from`
unfoldable pub msg_type_from : ℕ → Outcome WireError MsgType
msg_type_from value =
    if value == 0x01
    then ok hello
    else if value == 0x02
    then ok handshake
    else if value == 0x10
    then ok gossip_push
    else if value == 0x20
    then ok recon_init
    else if value == 0x21
    then ok recon_msg
    else if value == 0x22
    then ok recon_done
    else if value == 0x70
    then ok error
    else err (unknown_msg_type value)

pub data Message : Type 0 where
  hello : Hello → Message
  handshake : Handshake → Message
  gossip_push : GossipPush → Message
  recon_init : ReconInit → Message
  recon_msg : ReconMsg → Message
  recon_done : ReconDone → Message
  error : ErrorMsg → Message

unfoldable pub msg_type : Message → MsgType
msg_type (Message.hello _) = MsgType.hello
msg_type (Message.handshake _) = MsgType.handshake
msg_type (Message.gossip_push _) = MsgType.gossip_push
msg_type (Message.recon_init _) = MsgType.recon_init
msg_type (Message.recon_msg _) = MsgType.recon_msg
msg_type (Message.recon_done _) = MsgType.recon_done
msg_type (Message.error _) = MsgType.error

abbrev is_empty {ℓ} : {A : Type ℓ} → List A → Bool
is_empty [] = true
is_empty (x ∷ xs) = false

abbrev check : Bool → WireError → Outcome WireError (Unit {0})
check true e = ok tt
check false e = err e

unfoldable pub validate : Message → Outcome WireError (Unit {0})
validate (Message.hello h) = check (not (is_empty h.versions)) schema
validate (Message.gossip_push p) = check (not (is_empty p.entries)) schema
validate _ = ok tt

abbrev pub header_len : ℕ
header_len = 3

-- `dec.decode()?` with the position of the decoder after it.
abbrev decode_as : {A : Type 0} → Codec A → (A → Message) → Bytes → Outcome WireError (Message × ℕ)
decode_as c wrap payload = do (p, position) ← ok_or (c.decode payload) cbor; ok (wrap p, position)

module _ (c : Cbor) where
  unfoldable pub payload_bytes : Message → Bytes
  payload_bytes (Message.hello p) = c.hello_codec.encode p
  payload_bytes (Message.handshake p) = c.handshake_codec.encode p
  payload_bytes (Message.gossip_push p) = c.gossip_push_codec.encode p
  payload_bytes (Message.recon_init p) = c.recon_init_codec.encode p
  payload_bytes (Message.recon_msg p) = c.recon_msg_codec.encode p
  payload_bytes (Message.recon_done p) = c.recon_done_codec.encode p
  payload_bytes (Message.error p) = c.error_codec.encode p

  -- The `match msg_type` of `decode_message`.
  unfoldable pub decode_payload : MsgType → Bytes → Outcome WireError (Message × ℕ)
  decode_payload MsgType.hello = decode_as c.hello_codec Message.hello
  decode_payload MsgType.handshake = decode_as c.handshake_codec Message.handshake
  decode_payload MsgType.gossip_push = decode_as c.gossip_push_codec Message.gossip_push
  decode_payload MsgType.recon_init = decode_as c.recon_init_codec Message.recon_init
  decode_payload MsgType.recon_msg = decode_as c.recon_msg_codec Message.recon_msg
  decode_payload MsgType.recon_done = decode_as c.recon_done_codec Message.recon_done
  decode_payload MsgType.error = decode_as c.error_codec Message.error

  unfoldable pub encode_message : Message → Outcome WireError Bytes
  encode_message msg = do
    validate msg
    let payload = payload_bytes msg
    let unpadded = header_len + length payload
    padded ← ok_or (padded_len unpadded) too_large
    len ← expect (u16_try_from (length payload))
    let out = type_byte (msg_type msg) ∷ to_be_bytes len ++ payload
    ok (out ++ zeros (padded - length out))

  -- The end of `decode_message`: the payload holds one value and nothing behind it.
  unfoldable pub decode_whole : MsgType → Bytes → Outcome WireError Message
  decode_whole msg_type payload = do
    (msg, position) ← decode_payload msg_type payload
    check (position == length payload) trailing_bytes
    validate msg
    ok msg

  unfoldable pub decode_message : Bytes → Outcome WireError Message
  decode_message body = if ltb (length body) 256 then err (bad_frame_length (length body)) else do
    hi ← index body 1
    lo ← index body 2
    let payload_len = from_be_bytes hi lo
    let unpadded = header_len + payload_len
    check (is_some_eq (padded_len unpadded) (length body)) (bad_payload_length payload_len)
    first ← index body 0
    msg_type ← msg_type_from first
    payload ← slice body header_len unpadded
    decode_whole msg_type payload
