-- ===== src/Noise/Runs.antt =====
-- The session layer at concrete inputs, over primitives that have the laws and no secrecy.
use racnet.Prelude.{
  false, ◌<◌, ℕ, ◌+◌, ◌*◌, ◌-◌, ◌≡◌, ◌≢◌, ◌⊎◌, refl, ap, true, false, Option, none, some, List, [],
  ◌∷◌, ◌++◌, Bytes, length, length-append, length-take, take, zeros, arith, ok, err, panic, u64_max,
  leb, if◌then◌else◌, take-append_length,
}
use native.Mathlib.Nat.{mul_comm}
use racnet.Noise.Primitives.{Primitives, Lawful, out_of_order}
use racnet.Noise.Cipher.{CipherState}
use racnet.Noise.Transport.{TransportState}
use racnet.Noise.Transport.Stream.{IsChannel, encrypt_all, decrypt_all, decrypt_all-encrypt_all}
use racnet.Noise.Handshake.{
  HandshakeState, responder, new_xx, from_secret_bytes, write_message, read_message,
}
use racnet.Noise.Handshake.Agreement.{EndsInAgreement, handshake_agrees}
use racnet.Noise.Handshake.Order.{read_message-ne-panic}
use racnet.Noise.Handshake.Turns.{writes, turns_alternate}

-- A text is sealed by sixteen bytes behind it; a point is one number in 32 places.
abbrev pub opened : Bytes → Option Bytes
opened sealed = if leb 16 (length sealed) then some (take (length sealed - 16) sealed) else none

abbrev pub total : Bytes → ℕ
total [] = 0
total (b ∷ bs) = b + total bs

abbrev pub head_or_0 : Bytes → ℕ
head_or_0 [] = 0
head_or_0 (b ∷ bs) = b

abbrev pub toy : Primitives
toy = record {
  sha256 = λ m. m;
  hmac_sha256 = λ k m. k ++ m;
  aead_encrypt = λ key nonce ad text. some (text ++ zeros 16);
  aead_decrypt = λ key nonce ad sealed. opened sealed;
  mul_base_clamped = λ a. total a ∷ zeros 31;
  mul_clamped = λ point a. head_or_0 point * total a ∷ zeros 31;
}

reopened : (text : Bytes) → opened (text ++ zeros 16) ≡ some text
reopened text =
    let l : length (text ++ zeros 16) ≡ length text + 16 = length-append text (zeros 16) in
    let back : take (length (text ++ zeros 16) - 16) (text ++ zeros 16) ≡ text =
      let n : length (text ++ zeros 16) - 16 ≡ length text = omega (arith, l) in
      rw n (take-append_length text (zeros 16)) in
    ground (arith, l, back)

shorter : (sealed text : Bytes) → opened sealed ≡ some text → length sealed ≡ length text + 16
shorter sealed text e = ground (arith, length-take (length sealed - 16) sealed)

toy-Lawful : Lawful toy
toy-Lawful = record {
  dh_agrees = λ a b. ap (λ (n : ℕ). n ∷ zeros 31) (mul_comm (total a) (total b));
  length-public = λ a. refl;
  seals =
      λ key nonce ad text h. (text ++ zeros 16, refl, reopened text, length-append text (zeros 16));
  opens_shorter = λ key nonce ad sealed text e. shorter sealed text e;
}

abbrev used_up : CipherState
used_up = record { k = some (7 ∷ []); n = u64_max }

-- One message before a rekeying is due.
abbrev worn : CipherState
worn = record { k = some (7 ∷ []); n = 1023 }

abbrev sender : TransportState
sender = record { send = worn; recv = worn; hash = []; failed = false }

sender-IsChannel : IsChannel sender sender
sender-IsChannel = record {
  same = refl;
  ready = record { key = 7 ∷ []; keyed = refl; fresh = omega arith };
  sender_up = refl;
  receiver_up = refl;
}

abbrev two_texts : List Bytes
two_texts = (1 ∷ []) ∷ (2 ∷ 3 ∷ []) ∷ []

decrypt_all-encrypt_all_example :
    (sealed : List Bytes) × ((encrypt_all toy sender two_texts).0 ≡ ok sealed)
    × ((decrypt_all toy sender sealed).0 ≡ ok two_texts)
decrypt_all-encrypt_all_example =
    decrypt_all-encrypt_all toy toy-Lawful two_texts sender sender sender-IsChannel (omega arith)
      (omega arith)

abbrev key_a : Bytes
key_a = 1 ∷ 2 ∷ []

abbrev key_b : Bytes
key_b = 3 ∷ []

handshake_agrees_example : EndsInAgreement toy key_a key_b key_b key_a (9 ∷ []) [] (5 ∷ []) []
handshake_agrees_example =
    handshake_agrees toy toy-Lawful key_a key_b key_b key_a (9 ∷ []) [] (5 ∷ []) [] (omega arith)
      (omega arith)

abbrev answering : HandshakeState
answering = new_xx toy responder (from_secret_bytes toy key_a) (from_secret_bytes toy key_b) []

-- After a first message of 32 zeros.
abbrev answered : HandshakeState
answered = (read_message toy (zeros 32) answering).1

turns_alternate_example :
    ((3 < answering.step) ⊎ (writes answering.role answering.step ≡ false)
      → write_message toy (zeros 32) answering ≡ (err out_of_order, answering))
    × ((3 < answering.step) ⊎ (writes answering.role answering.step ≡ true)
        → read_message toy (zeros 32) answering ≡ (err out_of_order, answering))
    × (write_message toy (zeros 32) answering ≡ (ok [], answered)
        → write_message toy [] answered ≡ (err out_of_order, answered))
    × (read_message toy (zeros 32) answering ≡ (ok [], answered)
        → read_message toy [] answered ≡ (err out_of_order, answered))
unfolding new_xx
turns_alternate_example = turns_alternate toy answering answered (zeros 32) [] [] (omega arith)

read_message-ne-panic_example : (read_message toy (zeros 40) answering).0 ≢ panic
unfolding new_xx
read_message-ne-panic_example =
    read_message-ne-panic toy answering (zeros 40) toy-Lawful (omega arith)
      (λ e. absurd (omega arith))
