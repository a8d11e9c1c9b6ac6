-- ===== src/Noise/Cipher/Sealing.antt =====
-- The cipher state of core/src/noise/cipher.rs at the two ends of a channel.
use racnet.Prelude.{
  ◌+◌, ◌≤◌, ◌<◌, ◌≡◌, ◌≢◌, ◌⊎◌, inl, inr, refl, some, Bytes, [], length, take, zeros, u64_max, ◌==◌,
  arith, ok, err, Bool-cases, Option-cases, ==_iff,
}
use racnet.Noise.Primitives.{Primitives, Lawful, NoiseError, nonce_exhausted}
use racnet.Noise.Cipher.{
  CipherState, nonce_bytes, initialize_key, encrypt_with_ad, decrypt_with_ad, rekey,
  rekey_preserving_nonce,
}

-- A cipher with a key and a counter that can still go up.
pub record IsReady (c : CipherState) : Type 0 where
  pub key : Bytes
  pub keyed : c.k ≡ some key
  pub fresh : c.n < u64_max

module _ (p : Primitives) (lawful : Lawful p) where
  -- A text that one end sealed opens at the other end, which has the same cipher state, and both
  -- count up.
  pub seal_opens :
      (c : CipherState) (ad text : Bytes)
      → IsReady c
      → length text ≤ 65535
      → (sealed : Bytes) × (encrypt_with_ad p c ad text ≡ (ok sealed, record c { n = c.n + 1 }))
        × (decrypt_with_ad p c ad sealed ≡ (ok text, record c { n = c.n + 1 }))
        × (length sealed ≡ length text + 16)
  unfolding encrypt_with_ad decrypt_with_ad
  seal_opens c ad text r h =
      let (sealed, e, d, l) = lawful.seals r.key (nonce_bytes c.n) ad text h in
      (sealed, ground (arith, r.keyed, r.fresh, e), ground (arith, r.keyed, r.fresh, d), l)

  -- Rekeying a cipher that has a key gives it another key, and keeps its counter.
  pub rekey_preserving_nonce-IsReady :
      (c : CipherState)
      → IsReady c
      → (c' : CipherState) × (rekey_preserving_nonce p c ≡ ok c') × IsReady c' × (c'.n ≡ c.n)
  unfolding rekey_preserving_nonce rekey initialize_key
  rekey_preserving_nonce-IsReady c r =
      let (sealed, e, d, l) =
        lawful.seals r.key (nonce_bytes u64_max) [] (zeros 32) (omega arith) in
      (
        record { k = some (take 32 sealed); n = c.n },
        ground (arith, r.keyed, e, l),
        record { key = take 32 sealed; keyed = refl; fresh = r.fresh },
        refl,
      )

-- The counter never passes `u64::MAX - 1`: with a key, a cipher at the last value refuses, and an
-- answer counts up by one from a smaller value; any other answer leaves the cipher as it was.
pub encrypt_with_ad_counts :
    (p : Primitives) (c : CipherState) (ad text key : Bytes)
    → c.k ≡ some key
    → ((c.n ≡ u64_max) × (encrypt_with_ad p c ad text ≡ (err nonce_exhausted, c)))
      ⊎ ((c.n ≢ u64_max)
          × (sealed : Bytes) × (encrypt_with_ad p c ad text
              ≡ (ok sealed, record c { n = c.n + 1 })))
      ⊎ ((c.n ≢ u64_max) × (e : NoiseError) × (encrypt_with_ad p c ad text ≡ (err e, c)))
unfolding encrypt_with_ad
encrypt_with_ad_counts p c ad text key k = elim (Bool-cases (c.n == u64_max)) [
  | inl last ↦ inl ((==_iff _ _).0 last, ground (arith, k, last))
  | inr more ↦ elim (Option-cases (p.aead_encrypt key (nonce_bytes c.n) ad text)) [
    | inl e ↦ inr (inr (ground arith, NoiseError.decrypt_failed, ground (arith, k, more, e)))
    | inr (sealed, e) ↦ inr (inl (ground arith, sealed, ground (arith, k, more, e)))
  ]
]
