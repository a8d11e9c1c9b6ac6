-- ===== src/Noise/Transport/Stream.antt =====
-- Sequences of messages through core/src/noise/transport.rs.
use racnet.Prelude.{
  ℕ, ◌+◌, ◌%◌, ◌≤◌, ◌<◌, ◌≡◌, inl, inr, refl, ap, false, ◌&&◌, some, Bytes, List, [], ◌∷◌, length,
  All, u64_max, ◌==◌, ltb, arith, Outcome, ok, err, panic, Bool-cases, ◌>>=◌,
}
use racnet.Noise.Primitives.{Primitives, Lawful, NoiseError}
use racnet.Noise.Cipher.{CipherState}
use racnet.Noise.Cipher.Sealing.{IsReady, seal_opens, rekey_preserving_nonce-IsReady}
use racnet.Noise.Transport.{TransportState, encrypt, decrypt, rekey_if_due}

-- The two ends of one direction: what one sends on is what the other receives on.
pub record IsChannel (a b : TransportState) : Type 0 where
  pub same : b.recv ≡ a.send
  pub ready : IsReady a.send
  pub sender_up : a.failed ≡ false
  pub receiver_up : b.failed ≡ false

module _ (p : Primitives) where
  -- A sender's calls of `encrypt`, one for each text, and a receiver's calls of `decrypt`, up to the
  -- first that fails.
  unfoldable pub encrypt_all :
      TransportState → List Bytes → Outcome NoiseError (List Bytes) × TransportState
  encrypt_all a [] = (ok [], a)
  encrypt_all a (text ∷ texts) =
      let (r, a') = encrypt p a text in
      elim r [
        | err e ↦ (err e, a')
        | panic ↦ (panic, a')
        | ok sealed ↦
            let (rest, a'') = encrypt_all a' texts in (rest >>= λ more. ok (sealed ∷ more), a'')
      ]

  unfoldable pub decrypt_all :
      TransportState → List Bytes → Outcome NoiseError (List Bytes) × TransportState
  decrypt_all b [] = (ok [], b)
  decrypt_all b (sealed ∷ more) =
      let (r, b') = decrypt p b sealed in
      elim r [
        | err e ↦ (err e, b')
        | panic ↦ (panic, b')
        | ok text ↦
            let (rest, b'') = decrypt_all b' more in (rest >>= λ texts. ok (text ∷ texts), b'')
      ]

module _ (p : Primitives) (lawful : Lawful p) where
  rekey_if_due-IsReady :
      (c : CipherState)
      → IsReady c
      → (c' : CipherState) × (rekey_if_due p c ≡ ok c') × IsReady c' × (c'.n ≡ c.n)
  unfolding rekey_if_due
  rekey_if_due-IsReady c r = elim (Bool-cases (ltb 0 c.n && (c.n % 1024 == 0))) [
    | inl due ↦ rw due (rekey_preserving_nonce-IsReady p lawful c r)
    | inr early ↦ rw early (c, refl, r, refl)
  ]

  -- One message: it arrives, and both ends count up together, through a rekeying if one is due.
  pub delivers :
      (a b : TransportState) (text : Bytes)
      → IsChannel a b
      → length text ≤ 65535
      → (sealed : Bytes) × (a' : TransportState) × (b' : TransportState) × (encrypt p a text
          ≡ (ok sealed, a'))
        × (decrypt p b sealed ≡ (ok text, b'))
        × (b'.recv ≡ a'.send)
        × (a'.failed ≡ false)
        × (b'.failed ≡ false)
        × (a'.send.n ≡ a.send.n + 1)
        × ((key : Bytes) × (a'.send.k ≡ some key))
  unfolding encrypt decrypt
  delivers a b text ch h =
      let (c, due, r, n) = rekey_if_due-IsReady a.send ch.ready in
      let (sealed, e, d, l) = seal_opens p lawful c [] text r h in
      (
        sealed,
        record a { send = record c { n = c.n + 1 } },
        record b { recv = record c { n = c.n + 1 }; failed = false },
        ground (arith, ch.sender_up, due, e),
        ground (arith, ch.receiver_up, ch.same, due, d),
        refl,
        ch.sender_up,
        refl,
        ap (λ (k : ℕ). k + 1) n,
        (r.key, r.keyed),
      )

  -- Every sequence of texts arrives in order, across as many rekeyings as it takes, as long as the
  -- counter does not reach its last value; each text is within the size of a frame's body.
  pub decrypt_all-encrypt_all :
      (texts : List Bytes) (a b : TransportState)
      → IsChannel a b
      → All (λ text. length text ≤ 65535) texts
      → a.send.n + length texts < u64_max
      → (sealed : List Bytes) × ((encrypt_all p a texts).0 ≡ ok sealed)
        × ((decrypt_all p b sealed).0 ≡ ok texts)
  unfolding encrypt_all decrypt_all
  decrypt_all-encrypt_all [] a b ch h room = ([], refl, refl)
  decrypt_all-encrypt_all (text ∷ texts) a b ch (ht, hs) room =
      let (sealed, a', b', e, d, same, ua, ub, n, (key, k)) = delivers a b text ch ht in
      let ch' : IsChannel a' b' = record {
        same = same;
        ready = record { key = key; keyed = k; fresh = omega arith };
        sender_up = ua;
        receiver_up = ub;
      } in
      let (more, es, ds) = decrypt_all-encrypt_all texts a' b' ch' hs (omega arith) in
      (sealed ∷ more, ground (arith, e, es), ground (arith, d, ds))
