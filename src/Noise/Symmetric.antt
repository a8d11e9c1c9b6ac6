-- ===== src/Noise/Symmetric.antt =====
-- core/src/noise/symmetric.rs: the symmetric state and the two-output HKDF.
use racnet.Prelude.{
  ◌-◌, Bytes, [], ◌∷◌, ◌++◌, length, zeros, leb, if◌then◌else◌, Outcome, ok, err, panic,
}
use racnet.Noise.Primitives.{Primitives, NoiseError}
use racnet.Noise.Cipher
use racnet.Noise.Cipher.{CipherState, initialize_key, encrypt_with_ad, decrypt_with_ad}

pub record SymmetricState : Type 0 where
  pub ck : Bytes
  pub h : Bytes
  pub cipher : CipherState

module _ (p : Primitives) where
  unfoldable pub hkdf2 : Bytes → Bytes → Bytes × Bytes
  hkdf2 chaining_key ikm =
      let temp = p.hmac_sha256 chaining_key ikm in
      let out1 = p.hmac_sha256 temp (1 ∷ []) in (out1, p.hmac_sha256 temp (out1 ++ (2 ∷ [])))

  unfoldable pub initialize : Bytes → SymmetricState
  initialize protocol_name =
      let h : Bytes =
        if leb (length protocol_name) 32
        then protocol_name ++ zeros (32 - length protocol_name)
        else p.sha256 protocol_name in
      record { ck = h; h = h; cipher = Cipher.new }

  unfoldable pub mix_hash : SymmetricState → Bytes → SymmetricState
  mix_hash s bytes = record s { h = p.sha256 (s.h ++ bytes) }

  unfoldable pub mix_key : SymmetricState → Bytes → SymmetricState
  mix_key s ikm =
      let (ck, temp_k) = hkdf2 s.ck ikm in
      record s { ck = ck; cipher = initialize_key s.cipher temp_k }

  -- What follows the cipher's answer: the hash takes in the ciphertext, given here, unless it failed.
  unfoldable pub hash_ok :
      SymmetricState
      → (Bytes → Bytes)
      → Outcome NoiseError Bytes × CipherState
      → Outcome NoiseError Bytes × SymmetricState
  hash_ok s ciphertext (ok text, c) =
      (ok text, mix_hash (record s { cipher = c }) (ciphertext text))
  hash_ok s ciphertext (err e, c) = (err e, record s { cipher = c })
  hash_ok s ciphertext (panic, c) = (panic, record s { cipher = c })

  unfoldable pub encrypt_and_hash :
      SymmetricState → Bytes → Outcome NoiseError Bytes × SymmetricState
  encrypt_and_hash s plaintext = hash_ok s (λ text. text) (encrypt_with_ad p s.cipher s.h plaintext)

  unfoldable pub decrypt_and_hash :
      SymmetricState → Bytes → Outcome NoiseError Bytes × SymmetricState
  decrypt_and_hash s ciphertext =
      hash_ok s (λ _. ciphertext) (decrypt_with_ad p s.cipher s.h ciphertext)

  unfoldable pub split : SymmetricState → CipherState × CipherState × Bytes
  split s =
      let (temp_k1, temp_k2) = hkdf2 s.ck [] in
      (initialize_key Cipher.new temp_k1, initialize_key Cipher.new temp_k2, s.h)
