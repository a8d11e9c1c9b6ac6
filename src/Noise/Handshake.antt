-- ===== src/Noise/Handshake.antt =====
-- core/src/noise/handshake.rs with the key pairs of core/src/noise/dh.rs: the XX handshake.
pub mod Agreement
pub mod Order
pub mod Turns
use racnet.Prelude.{
  byte_string, ℕ, ◌+◌, ◌-◌, Bool, true, false, not, ◌&&◌, ◌||◌, Option, none, some, Bytes, [], ◌++◌,
  length, take, drop, split_at, ltb, leb, ◌==◌, if◌then◌else◌, Outcome, ok, err, panic,
}
use racnet.Prelude.Method.{
  Method, resume, ◌>>=◌, ◌>>◌, pure, fail, gets, modify, get_or_fail, unreachable,
}
use racnet.Noise.Primitives.{Primitives, NoiseError, bad_message, out_of_order}
use racnet.Noise.Symmetric
use racnet.Noise.Symmetric.{
  SymmetricState, mix_hash, mix_key, encrypt_and_hash, decrypt_and_hash, split,
}
use racnet.Noise.Transport
use racnet.Noise.Transport.{TransportState}

-- The bytes "Noise_XX_25519_ChaChaPoly_SHA256".
abbrev pub protocol_name : Bytes
protocol_name = byte_string "Noise_XX_25519_ChaChaPoly_SHA256"

-- `secret` and `public`; `from_secret_bytes` computes the public key.
pub record Keypair : Type 0 where
  pub secret : Bytes
  pub public : Bytes

pub data Role : Type 0 where
  initiator responder : Role

pub record HandshakeState : Type 0 where
  pub symmetric : SymmetricState
  pub s : Keypair
  pub e : Keypair
  pub re : Option Bytes
  pub rs : Option Bytes
  pub role : Role
  pub step : ℕ

abbrev dhlen : ℕ
dhlen = 32

abbrev taglen : ℕ
taglen = 16

abbrev our_turn : Role → ℕ → Bool
our_turn initiator step = step == 1 || step == 3
our_turn responder step = step == 2

unfoldable pub our_turn_to_write : HandshakeState → Bool
our_turn_to_write hs = our_turn hs.role hs.step

unfoldable pub expected_overhead : HandshakeState → ℕ
expected_overhead hs =
    if hs.step == 1
    then dhlen
    else if hs.step == 2
    then dhlen + dhlen + taglen + taglen
    else if hs.step == 3
    then dhlen + taglen + taglen
    else 0

unfoldable pub is_finished : HandshakeState → Bool
is_finished hs = ltb 3 hs.step

abbrev Handshaking : Type 0 → Type 0
Handshaking = Method HandshakeState NoiseError

-- A change of `self.symmetric`, and a call of one of its methods.
abbrev on_symmetric : (SymmetricState → SymmetricState) → Handshaking (Unit {0})
on_symmetric f = modify (λ hs. record hs { symmetric = f hs.symmetric })

abbrev call_symmetric :
    (SymmetricState → Outcome NoiseError Bytes × SymmetricState) → Handshaking Bytes
call_symmetric f hs = let (r, sym) = f hs.symmetric in (r, record hs { symmetric = sym })

-- `try_into().expect("32-byte plaintext")`
abbrev expect_32 : Bytes → Handshaking Bytes
expect_32 bytes hs = if length bytes == 32 then (ok bytes, hs) else (panic, hs)

-- `rest.split_at(n)`
abbrev split_message : ℕ → Bytes → Handshaking (Bytes × Bytes)
split_message n bytes hs = (split_at n bytes, hs)

module _ (p : Primitives) where
  unfoldable pub from_secret_bytes : Bytes → Keypair
  from_secret_bytes bytes = record { secret = bytes; public = p.mul_base_clamped bytes }

  unfoldable pub dh : Keypair → Bytes → Bytes
  dh pair peer = p.mul_clamped peer pair.secret

  unfoldable pub new_xx : Role → Keypair → Keypair → Bytes → HandshakeState
  new_xx role s e prologue = record {
    symmetric = mix_hash p (Symmetric.initialize p protocol_name) prologue;
    s = s;
    e = e;
    re = none;
    rs = none;
    role = role;
    step = 1;
  }

  -- The three arms of the `match` in `write_message`.
  unfoldable pub write_e : Handshaking Bytes
  write_e = do e ← gets (λ hs. hs.e); on_symmetric (λ sym. mix_hash p sym e.public); pure e.public

  unfoldable pub write_e_ee_s_es : Handshaking Bytes
  write_e_ee_s_es = do
    hs ← gets (λ hs. hs)
    on_symmetric (λ sym. mix_hash p sym hs.e.public)
    re ← get_or_fail out_of_order hs.re
    on_symmetric (λ sym. mix_key p sym (dh hs.e re))
    enc_s ← call_symmetric (λ sym. encrypt_and_hash p sym hs.s.public)
    on_symmetric (λ sym. mix_key p sym (dh hs.s re))
    pure (hs.e.public ++ enc_s)

  unfoldable pub write_s_se : Handshaking Bytes
  write_s_se = do
    hs ← gets (λ hs. hs)
    enc_s ← call_symmetric (λ sym. encrypt_and_hash p sym hs.s.public)
    re ← get_or_fail out_of_order hs.re
    on_symmetric (λ sym. mix_key p sym (dh hs.s re))
    pure enc_s

  unfoldable pub write_arm : ℕ → Handshaking Bytes
  write_arm step =
      if step == 1
      then write_e
      else if step == 2
      then write_e_ee_s_es
      else if step == 3
      then write_s_se
      else unreachable

  unfoldable pub write_message : Bytes → Handshaking Bytes
  write_message payload = do
    hs ← gets (λ hs. hs)
    if ltb 3 hs.step || not (our_turn_to_write hs) then fail out_of_order else do
      out ← write_arm hs.step
      enc_payload ← call_symmetric (λ sym. encrypt_and_hash p sym payload)
      modify (λ hs. record hs { step = hs.step + 1 })
      pure (out ++ enc_payload)

  -- The three arms of the `match` in `read_message`: each answers with the rest of the message.
  unfoldable pub read_e : Bytes → Handshaking Bytes
  read_e message = do
    (re, rest) ← split_message dhlen message
    on_symmetric (λ sym. mix_hash p sym re)
    modify (λ hs. record hs { re = some re })
    pure rest

  unfoldable pub read_e_ee_s_es : Bytes → Handshaking Bytes
  read_e_ee_s_es message = do
    hs ← gets (λ hs. hs)
    (re, rest) ← split_message dhlen message
    on_symmetric (λ sym. mix_hash p sym re)
    modify (λ hs. record hs { re = some re })
    on_symmetric (λ sym. mix_key p sym (dh hs.e re))
    (enc_s, rest') ← split_message (dhlen + taglen) rest
    s_plain ← call_symmetric (λ sym. decrypt_and_hash p sym enc_s)
    rs ← expect_32 s_plain
    modify (λ hs. record hs { rs = some rs })
    on_symmetric (λ sym. mix_key p sym (dh hs.e rs))
    pure rest'

  unfoldable pub read_s_se : Bytes → Handshaking Bytes
  read_s_se message = do
    hs ← gets (λ hs. hs)
    (enc_s, rest) ← split_message (dhlen + taglen) message
    s_plain ← call_symmetric (λ sym. decrypt_and_hash p sym enc_s)
    rs ← expect_32 s_plain
    modify (λ hs. record hs { rs = some rs })
    on_symmetric (λ sym. mix_key p sym (dh hs.e rs))
    pure rest

  unfoldable pub read_arm : ℕ → Bytes → Handshaking Bytes
  read_arm step message =
      if step == 1
      then read_e message
      else if step == 2
      then read_e_ee_s_es message
      else if step == 3
      then read_s_se message
      else unreachable

  unfoldable pub read_message : Bytes → Handshaking Bytes
  read_message message = do
    hs ← gets (λ hs. hs)
    let misplaced = ltb 3 hs.step || our_turn_to_write hs
    let min_len = if hs.step == 1 then dhlen else expected_overhead hs
    let short = ltb (length message) min_len
    if misplaced then fail out_of_order else if short then fail bad_message else do
      rest ← read_arm hs.step message
      payload ← call_symmetric (λ sym. decrypt_and_hash p sym rest)
      modify (λ hs. record hs { step = hs.step + 1 })
      pure payload

  -- The initiator sends on the first cipher of the split, the responder on the second.
  abbrev transport_of : Role → SymmetricState → TransportState
  transport_of initiator sym = let (c1, c2, hash) = split p sym in Transport.new c1 c2 hash
  transport_of responder sym = let (c1, c2, hash) = split p sym in Transport.new c2 c1 hash

  abbrev finish : Option Bytes → HandshakeState → Outcome NoiseError (TransportState × Bytes)
  finish none hs = err out_of_order
  finish (some rs) hs = ok (transport_of hs.role hs.symmetric, rs)

  unfoldable pub into_transport : HandshakeState → Outcome NoiseError (TransportState × Bytes)
  into_transport hs = if not (is_finished hs) then err out_of_order else finish hs.rs hs
