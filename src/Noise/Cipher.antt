-- ===== src/Noise/Cipher.antt =====
-- core/src/noise/cipher.rs: the cipher state. Erasing old keys from memory is left out.
pub mod Sealing
use racnet.Prelude.{
  ℕ, ◌+◌, Option, none, some, Bytes, [], ◌++◌, length, take, zeros, to_le_bytes, u64_max, ◌==◌,
  if◌then◌else◌, Outcome, ok, err, panic, ltb,
}
use racnet.Noise.Primitives.{Primitives, NoiseError, decrypt_failed, nonce_exhausted}

pub record CipherState : Type 0 where
  pub k : Option Bytes
  pub n : ℕ

abbrev pub new : CipherState
new = record { k = none; n = 0 }

-- 32 zero bits, then the counter, little endian.
abbrev pub nonce_bytes : ℕ → Bytes
nonce_bytes n = zeros 4 ++ to_le_bytes 8 n

unfoldable pub initialize_key : CipherState → Bytes → CipherState
initialize_key c key = record { k = some key; n = 0 }

-- `map_err` on the primitive's answer, then the counter goes up.
unfoldable pub count_up : CipherState → Option Bytes → Outcome NoiseError Bytes × CipherState
count_up c none = (err decrypt_failed, c)
count_up c (some text) = (ok text, record c { n = c.n + 1 })

module _ (p : Primitives) where
  unfoldable pub encrypt_with_ad :
      CipherState → Bytes → Bytes → Outcome NoiseError Bytes × CipherState
  unfolding count_up
  encrypt_with_ad c ad plaintext = elim c.k [
    | none ↦ (ok plaintext, c)
    | some key ↦
        if c.n == u64_max
        then (err nonce_exhausted, c)
        else count_up c (p.aead_encrypt key (nonce_bytes c.n) ad plaintext)
  ]

  unfoldable pub decrypt_with_ad :
      CipherState → Bytes → Bytes → Outcome NoiseError Bytes × CipherState
  unfolding count_up
  decrypt_with_ad c ad ciphertext = elim c.k [
    | none ↦ (ok ciphertext, c)
    | some key ↦
        if c.n == u64_max
        then (err nonce_exhausted, c)
        else count_up c (p.aead_decrypt key (nonce_bytes c.n) ad ciphertext)
  ]

  -- `block[..32]` panics on a shorter block, and `expect` on a failed encryption.
  abbrev new_key : Option Bytes → Outcome NoiseError Bytes
  new_key none = panic
  new_key (some block) = if ltb (length block) 32 then panic else ok (take 32 block)

  unfoldable pub rekey : CipherState → Outcome NoiseError CipherState
  rekey c = elim c.k [
    | none ↦ ok c
    | some key ↦ elim (new_key (p.aead_encrypt key (nonce_bytes u64_max) [] (zeros 32))) [
      | ok fresh ↦ ok (initialize_key c fresh)
      | err e ↦ err e
      | panic ↦ panic
    ]
  ]

  unfoldable pub rekey_preserving_nonce : CipherState → Outcome NoiseError CipherState
  rekey_preserving_nonce c = elim (rekey c) [
    | ok c' ↦ ok (record c' { n = c.n })
    | err e ↦ err e
    | panic ↦ panic
  ]
