-- ===== src/Noise/Transport.antt =====
-- core/src/noise/transport.rs: the transport state with its rekeying every 1024 messages.
pub mod Stream
use racnet.Prelude.{
  ℕ, ◌<◌, ◌%◌, Bool, true, false, ◌&&◌, Option, none, some, Bytes, [], ltb, ◌==◌, if◌then◌else◌,
  Outcome, ok, err, panic,
}
use racnet.Noise.Primitives.{Primitives, NoiseError, decrypt_failed}
use racnet.Noise.Cipher.{CipherState, encrypt_with_ad, decrypt_with_ad, rekey_preserving_nonce}

abbrev pub rekey_interval : ℕ
rekey_interval = 1024

pub record TransportState : Type 0 where
  pub send : CipherState
  pub recv : CipherState
  pub hash : Bytes
  pub failed : Bool

unfoldable pub new : CipherState → CipherState → Bytes → TransportState
new send recv hash = record { send = send; recv = recv; hash = hash; failed = false }

abbrev is_err : {A : Type 0} → Outcome NoiseError A → Bool
is_err (err e) = true
is_err _ = false

module _ (p : Primitives) where
  unfoldable pub rekey_if_due : CipherState → Outcome NoiseError CipherState
  rekey_if_due c =
      if ltb 0 c.n && (c.n % rekey_interval == 0) then rekey_preserving_nonce p c else ok c

  -- `rekey_if_due` answers with a cipher or panics.
  unfoldable pub encrypt : TransportState → Bytes → Outcome NoiseError Bytes × TransportState
  encrypt t plaintext = if t.failed then (err decrypt_failed, t) else elim (rekey_if_due t.send) [
    | err e ↦ (err e, t)
    | panic ↦ (panic, t)
    | ok c ↦ let (r, c') = encrypt_with_ad p c [] plaintext in (r, record t { send = c' })
  ]

  unfoldable pub decrypt : TransportState → Bytes → Outcome NoiseError Bytes × TransportState
  decrypt t ciphertext = if t.failed then (err decrypt_failed, t) else elim (rekey_if_due t.recv) [
    | err e ↦ (err e, t)
    | panic ↦ (panic, t)
    | ok c ↦
        let (r, c') = decrypt_with_ad p c [] ciphertext in
        (r, record t { recv = c'; failed = is_err r })
  ]
