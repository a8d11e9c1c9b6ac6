-- ===== src/Noise/Primitives.antt =====
-- The primitives that core/src/noise/*.rs takes from other crates (`sha2`, `hmac`,
-- `chacha20poly1305`, `curve25519-dalek`) as a parameter, and their documented laws.
use racnet.Prelude.{◌+◌, ◌≤◌, ◌≡◌, Bytes, Option, some, length}

pub record Primitives : Type 0 where
  -- `Sha256::digest`
  pub sha256 : Bytes → Bytes
  -- HMAC-SHA256 of a message under a key.
  pub hmac_sha256 : Bytes → Bytes → Bytes
  -- ChaCha20-Poly1305: key, nonce, associated data, text; `none` is the crate's `Error`.
  pub aead_encrypt : Bytes → Bytes → Bytes → Bytes → Option Bytes
  pub aead_decrypt : Bytes → Bytes → Bytes → Bytes → Option Bytes
  -- X25519: the public point of a secret, and a point times a secret.
  pub mul_base_clamped : Bytes → Bytes
  pub mul_clamped : Bytes → Bytes → Bytes

-- What the code relies on: the two ends of a Diffie-Hellman exchange agree, a sealed text of a size
-- that occurs here opens to itself and is 16 bytes longer, whatever opens is 16 bytes shorter
-- than what was opened, and a public key has 32 bytes.
pub record Lawful (p : Primitives) : Type 0 where
  pub dh_agrees :
      (a b : Bytes)
      → p.mul_clamped (p.mul_base_clamped a) b ≡ p.mul_clamped (p.mul_base_clamped b) a
  pub length-public : (a : Bytes) → length (p.mul_base_clamped a) ≡ 32
  pub seals :
      (key nonce ad text : Bytes)
      → length text ≤ 65535
      → (sealed : Bytes) × (p.aead_encrypt key nonce ad text ≡ some sealed)
        × (p.aead_decrypt key nonce ad sealed ≡ some text)
        × (length sealed ≡ length text + 16)
  pub opens_shorter :
      (key nonce ad sealed text : Bytes)
      → p.aead_decrypt key nonce ad sealed ≡ some text
      → length sealed ≡ length text + 16

pub data NoiseError : Type 0 where
  decrypt_failed bad_message nonce_exhausted out_of_order entropy : NoiseError
