-- ===== src/Noise/Handshake/Order.antt =====
-- The handshake of core/src/noise/handshake.rs on any calls and any input.
use racnet.Prelude.{
  ℕ, ◌+◌, ◌≤◌, ◌≡◌, ◌≢◌, inl, inr, refl, true, false, Bool, ◌||◌, some, Bytes, length, arith, ok,
  panic, Bool-cases, Outcome-cases, take, drop, length-take, length-drop, split_at_fits, ◌==◌,
  ==_iff, ltb, ltb→ge,
}
use racnet.Prelude.Method.{◌>>=◌, ◌>>◌, modify, pure}
use racnet.Noise.Primitives.{Primitives, Lawful, NoiseError}
use racnet.Noise.Cipher.{decrypt_with_ad, initialize_key, count_up, nonce_bytes}
use racnet.Noise.Symmetric.{SymmetricState, mix_hash, mix_key, decrypt_and_hash, hash_ok}
use racnet.Noise.Handshake.{
  HandshakeState, read_message, read_arm, read_e, read_e_ee_s_es, read_s_se, our_turn_to_write,
  expected_overhead, call_symmetric, dh,
}

module _ (p : Primitives) where
  decrypt-ne-panic : (s : SymmetricState) (sealed : Bytes) → (decrypt_and_hash p s sealed).0 ≢ panic
  unfolding decrypt_and_hash hash_ok decrypt_with_ad count_up
  decrypt-ne-panic s sealed = ground arith

  mix_key-keyed :
      (s : SymmetricState) (ikm : Bytes) → (key : Bytes) × ((mix_key p s ikm).cipher.k ≡ some key)
  unfolding mix_key initialize_key
  mix_key-keyed s ikm = (_, refl)

  decrypt-length :
      Lawful p
      → (s : SymmetricState) (sealed text key : Bytes) → s.cipher.k ≡ some key
      → (decrypt_and_hash p s sealed).0 ≡ ok text
      → length sealed ≡ length text + 16
  unfolding decrypt_and_hash hash_ok decrypt_with_ad count_up
  decrypt-length lawful s sealed text key k e =
      ground (arith, k, lawful.opens_shorter key (nonce_bytes s.cipher.n) s.h sealed text)

  -- The last part of `read_message`: the payload is opened, and the step counted.
  payload_ne_panic :
      (hs : HandshakeState) (rest : Bytes)
      → ((call_symmetric (λ sym. decrypt_and_hash p sym rest) >>= λ payload.
            modify {E = NoiseError} (λ hs. record hs { step = hs.step + 1 }) >> pure payload)
          hs).0
        ≢ panic
  payload_ne_panic hs rest = elim (Outcome-cases (decrypt_and_hash p hs.symmetric rest).0) [
    | inl (text, e) ↦ rw e (λ q. cc)
    | inr (inl (x, e)) ↦ rw e (λ q. cc)
    | inr (inr e) ↦ absurd (decrypt-ne-panic hs.symmetric rest e)
  ]

  -- Where a static key is opened, it has 32 bytes or the opening failed.
  key_size :
      Lawful p
      → (s : SymmetricState) (ikm sealed text : Bytes) → length sealed ≡ 48
      → (decrypt_and_hash p (mix_key p s ikm) sealed).0 ≡ ok text
      → (length text == 32) ≡ true
  key_size lawful s ikm sealed text l e =
      let (key, k) = mix_key-keyed s ikm in
      (==_iff _ _).1 (omega (arith, decrypt-length lawful (mix_key p s ikm) sealed text key k e))

  arm_2-ne-panic :
      Lawful p
      → (hs : HandshakeState) (m : Bytes) → 96 ≤ length m
      → ((read_e_ee_s_es p m >>= λ rest.
            call_symmetric (λ sym. decrypt_and_hash p sym rest) >>= λ payload.
            modify {E = NoiseError} (λ hs. record hs { step = hs.step + 1 }) >> pure payload)
          hs).0
        ≢ panic
  unfolding read_e_ee_s_es
  arm_2-ne-panic lawful hs m h =
      let s = mix_hash p hs.symmetric (take 32 m) in
      let enc_s = take 48 (drop 32 m) in
      let size : length enc_s ≡ 48 = omega (arith, length-take 48 (drop 32 m), length-drop 32 m) in
      let front = split_at_fits NoiseError 32 m (omega (arith, h)) in
      let back = split_at_fits NoiseError 48 (drop 32 m) (omega (arith, h, length-drop 32 m)) in
      elim (Outcome-cases (decrypt_and_hash p (mix_key p s (dh p hs.e (take 32 m))) enc_s).0) [
        | inl (text, e) ↦ rw front (
            rw back (
              rw e (
                rw (key_size lawful s (dh p hs.e (take 32 m)) enc_s text size e)
                  (payload_ne_panic _ _))))
        | inr (inl (x, e)) ↦ rw front (rw back (rw e (λ q. cc)))
        | inr (inr e) ↦ absurd (decrypt-ne-panic _ enc_s e)
      ]

  arm_3-ne-panic :
      Lawful p
      → (hs : HandshakeState) (m key : Bytes) → hs.symmetric.cipher.k ≡ some key
      → 64 ≤ length m
      → ((read_s_se p m >>= λ rest.
            call_symmetric (λ sym. decrypt_and_hash p sym rest) >>= λ payload.
            modify {E = NoiseError} (λ hs. record hs { step = hs.step + 1 }) >> pure payload)
          hs).0
        ≢ panic
  unfolding read_s_se
  arm_3-ne-panic lawful hs m key k h =
      let enc_s = take 48 m in
      let size : length enc_s ≡ 48 = omega (arith, length-take 48 m) in
      let front = split_at_fits NoiseError 48 m (omega (arith, h)) in
      elim (Outcome-cases (decrypt_and_hash p hs.symmetric enc_s).0) [
        | inl (text, e) ↦
            let fits : (length text == 32) ≡ true =
              (==_iff _ _).1
                (omega (arith, decrypt-length lawful hs.symmetric enc_s text key k e)) in
            rw front (rw e (rw fits (payload_ne_panic _ _)))
        | inr (inl (x, e)) ↦ rw front (rw e (λ q. cc))
        | inr (inr e) ↦ absurd (decrypt-ne-panic _ enc_s e)
      ]

  arm_1-ne-panic :
      (hs : HandshakeState) (m : Bytes)
      → 32 ≤ length m
      → ((read_e p m >>= λ rest. call_symmetric (λ sym. decrypt_and_hash p sym rest) >>= λ payload.
            modify {E = NoiseError} (λ hs. record hs { step = hs.step + 1 }) >> pure payload)
          hs).0
        ≢ panic
  unfolding read_e
  arm_1-ne-panic hs m h = rw (split_at_fits NoiseError 32 m h) (payload_ne_panic _ _)

-- `read_message` answers every message from the peer without a panic: its slices are in range, and a
-- static key that opens has 32 bytes. The handshake is at one of the steps that it counts, and at the
-- third a key has been mixed in.
pub read_message-ne-panic :
    (p : Primitives) (hs : HandshakeState) (m : Bytes)
    → Lawful p
    → 1 ≤ hs.step
    → (hs.step ≡ 3 → (key : Bytes) × (hs.symmetric.cipher.k ≡ some key))
    → (read_message p m hs).0 ≢ panic
unfolding read_message read_arm expected_overhead
read_message-ne-panic p hs m lawful h keyed =
    elim (Bool-cases (ltb 3 hs.step || our_turn_to_write hs)) [
      | inl out ↦ rw out (λ q. cc)
      | inr turn ↦ elim (Bool-cases (hs.step == 1)) [
        | inl one ↦ elim (Bool-cases (ltb (length m) 32)) [
          | inl short ↦ rw (turn, one, short) (λ q. cc)
          | inr enough ↦ rw turn (rw one (rw enough (arm_1-ne-panic p hs m (ltb→ge _ _ enough))))
        ]
        | inr more ↦ elim (Bool-cases (hs.step == 2)) [
          | inl two ↦ elim (Bool-cases (ltb (length m) 96)) [
            | inl short ↦ rw turn (rw more (rw two (rw short (λ q. cc))))
            | inr enough ↦
                rw turn
                  (rw more (rw two (rw enough (arm_2-ne-panic p lawful hs m (ltb→ge _ _ enough)))))
          ]
          | inr rest ↦ elim (Bool-cases (hs.step == 3)) [
            | inl three ↦ elim (Bool-cases (ltb (length m) 64)) [
              | inl short ↦ rw turn (rw more (rw rest (rw three (rw short (λ q. cc)))))
              | inr enough ↦
                  let (key, k) = keyed ((==_iff _ _).0 three) in
                  rw turn (
                    rw more (
                      rw rest (
                        rw three
                          (rw enough (arm_3-ne-panic p lawful hs m key k (ltb→ge _ _ enough))))))
            ]
            | inr other ↦ absurd (beyond hs.step (our_turn_to_write hs) h turn more rest other)
          ]
        ]
      ]
    ]
  where
    beyond :
        (n : ℕ) (b : Bool)
        → 1 ≤ n
        → (ltb 3 n || b) ≡ false
        → (n == 1) ≡ false
        → (n == 2) ≡ false
        → (n == 3) ≡ false
        → ⊥
    beyond n b h t e1 e2 e3 = ground arith
