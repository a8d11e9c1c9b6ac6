-- ===== src/Noise/Handshake/Agreement.antt =====
-- The XX handshake of core/src/noise/handshake.rs between two honest parties.
use racnet.Prelude.{
  ℕ, ◌+◌, ◌≤◌, ◌≡◌, refl, sym, ap, ◌∙◌, true, false, Option, none, some, Bytes, ◌++◌, length, arith,
  ok, length-append, split_at-append, append_assoc, ltb, ge→ltb, ◌==◌, ==_iff,
}
use racnet.Noise.Primitives.{Primitives, Lawful, NoiseError}
use racnet.Noise.Cipher.{CipherState, encrypt_with_ad, decrypt_with_ad, initialize_key}
use racnet.Noise.Cipher.Sealing.{IsReady, seal_opens}
use racnet.Noise.Symmetric.{
  SymmetricState, mix_hash, mix_key, encrypt_and_hash, decrypt_and_hash, split, hash_ok, hkdf2,
}
use racnet.Noise.Transport
use racnet.Noise.Transport.{TransportState}
use racnet.Noise.Transport.Stream.{IsChannel}
use racnet.Noise.Symmetric.{initialize}
use racnet.Noise.Handshake.{
  protocol_name, HandshakeState, Keypair, Role, initiator, responder, new_xx, write_message,
  write_arm, read_arm, write_e, read_e, write_e_ee_s_es, read_e_ee_s_es, write_s_se, read_s_se,
  our_turn_to_write, expected_overhead, dh, read_message, is_finished, into_transport,
  from_secret_bytes,
}

-- A party in the given role after some messages.
abbrev party :
    Role → Keypair → Keypair → ℕ → SymmetricState → Option Bytes → Option Bytes → HandshakeState
party role s e step sym re rs = record {
  symmetric = sym;
  s = s;
  e = e;
  re = re;
  rs = rs;
  role = role;
  step = step;
}

module _ (p : Primitives) (lawful : Lawful p) where
  -- What one side seals the other opens, from the same symmetric state into the same one.
  mirror :
      (s : SymmetricState) (text : Bytes)
      → IsReady s.cipher
      → length text ≤ 65535
      → (sealed : Bytes) × (s' : SymmetricState) × (encrypt_and_hash p s text ≡ (ok sealed, s'))
        × (decrypt_and_hash p s sealed ≡ (ok text, s'))
        × (length sealed ≡ length text + 16)
        × (s'.cipher ≡ record s.cipher { n = s.cipher.n + 1 })
  unfolding encrypt_and_hash decrypt_and_hash hash_ok mix_hash
  mirror s text r h =
      let (sealed, e, d, l) = seal_opens p lawful s.cipher s.h text r h in
      let c = record s.cipher { n = s.cipher.n + 1 } in
      (sealed, mix_hash p (record s { cipher = c }) sealed, rw e, rw d, l, refl)

  mix_key-IsReady :
      (s : SymmetricState) (ikm : Bytes)
      → IsReady (mix_key p s ikm).cipher × ((mix_key p s ikm).cipher.n ≡ 0)
  unfolding mix_key initialize_key hkdf2
  mix_key-IsReady s ikm = (record { key = _; keyed = refl; fresh = omega arith }, refl)

  -- With no key yet the payload travels as it is, and is hashed.
  plain :
      (s : SymmetricState) (text : Bytes)
      → s.cipher.k ≡ none
      → (encrypt_and_hash p s text ≡ (ok text, mix_hash p s text))
        × (decrypt_and_hash p s text ≡ (ok text, mix_hash p s text))
  unfolding encrypt_and_hash decrypt_and_hash hash_ok encrypt_with_ad decrypt_with_ad
  plain s text h = (rw h, rw h)

  mix_hash-cipher : (s : SymmetricState) (bytes : Bytes) → (mix_hash p s bytes).cipher ≡ s.cipher
  unfolding mix_hash
  mix_hash-cipher s bytes = refl

  long_enough : (n : ℕ) (xs ys : Bytes) → length xs ≡ n → ltb (length (xs ++ ys)) n ≡ false
  long_enough n xs ys h = ge→ltb _ _ (omega (arith, length-append xs ys))

  message_1 :
      (si ei sr er : Keypair) (sym : SymmetricState) (payload : Bytes)
      → sym.cipher.k ≡ none
      → length ei.public ≡ 32
      → let sym1 = mix_hash p (mix_hash p sym ei.public) payload in
        (write_message p payload (party initiator si ei 1 sym none none)
          ≡ (ok (ei.public ++ payload), party initiator si ei 2 sym1 none none))
        × (read_message p (ei.public ++ payload) (party responder sr er 1 sym none none)
            ≡ (ok payload, party responder sr er 2 sym1 (some ei.public) none))
  unfolding write_message read_message write_arm read_arm write_e read_e our_turn_to_write
  message_1 si ei sr er sym payload h l =
      let keyless = ap (λ (c : CipherState). c.k) (mix_hash-cipher sym ei.public) ∙ h in
      let (sealed, opened) = plain (mix_hash p sym ei.public) payload keyless in
      (
        rw sealed,
        rw
            (
              long_enough 32 ei.public payload l,
              split_at-append NoiseError 32 ei.public payload l,
              opened,
            )
            refl,
      )

  -- Right after a key was mixed in, one text can be sealed, and the cipher stays ready.
  sealed_once :
      (s : SymmetricState) (ikm text : Bytes)
      → length text ≤ 65535
      → (sealed : Bytes) × (s' : SymmetricState) × (encrypt_and_hash p (mix_key p s ikm) text
          ≡ (ok sealed, s'))
        × (decrypt_and_hash p (mix_key p s ikm) sealed ≡ (ok text, s'))
        × (length sealed ≡ length text + 16)
        × IsReady s'.cipher
  sealed_once s ikm text h =
      let (ready, zero_at) = mix_key-IsReady s ikm in
      let (sealed, s', e, d, l, c) = mirror (mix_key p s ikm) text ready h in
      (
        sealed,
        s',
        e,
        d,
        l,
        rw c (record { key = ready.key; keyed = ready.keyed; fresh = omega (arith, zero_at) }),
      )

  message_2 :
      (si ei sr er : Keypair) (sym : SymmetricState) (payload : Bytes)
      → length er.public ≡ 32
      → length sr.public ≡ 32
      → dh p er ei.public ≡ dh p ei er.public
      → dh p sr ei.public ≡ dh p ei sr.public
      → length payload ≤ 65535
      → (m : Bytes) × (sym' : SymmetricState) × IsReady sym'.cipher
        × (write_message p payload (party responder sr er 2 sym (some ei.public) none)
            ≡ (ok m, party responder sr er 3 sym' (some ei.public) none))
        × (read_message p m (party initiator si ei 2 sym none none)
            ≡ (ok payload, party initiator si ei 3 sym' (some er.public) (some sr.public)))
  unfolding write_message read_message write_arm read_arm write_e_ee_s_es read_e_ee_s_es
      our_turn_to_write expected_overhead
  message_2 si ei sr er sym payload le ls ee es h =
      let (enc_s, s2, e1, d1, l1, r1) =
        sealed_once (mix_hash p sym er.public) (dh p er ei.public) sr.public (omega arith) in
      let (enc_p, s4, e2, d2, l2, r2) = sealed_once s2 (dh p sr ei.public) payload h in
      let whole : (er.public ++ enc_s) ++ enc_p ≡ er.public ++ (enc_s ++ enc_p) =
        append_assoc er.public enc_s enc_p in
      let fits : ltb (length (er.public ++ (enc_s ++ enc_p))) 96 ≡ false =
        ge→ltb _ _
          (omega (arith, length-append er.public (enc_s ++ enc_p), length-append enc_s enc_p)) in
      let key_size : (length sr.public == 32) ≡ true = (==_iff _ _).1 ls in
      (
        (er.public ++ enc_s) ++ enc_p,
        s4,
        r2,
        rw e1 (rw e2),
        rw whole (
            rw fits (
              rw (split_at-append NoiseError 32 er.public (enc_s ++ enc_p) le) (
                rw (split_at-append NoiseError 48 enc_s enc_p (omega arith))
                  (rw (← ee) (rw d1 (rw key_size (rw (← es) (rw d2)))))))),
      )

  message_3 :
      (si ei sr er : Keypair) (sym : SymmetricState) (payload : Bytes)
      → IsReady sym.cipher
      → length si.public ≡ 32
      → dh p si er.public ≡ dh p er si.public
      → length payload ≤ 65535
      → (m : Bytes) × (sym' : SymmetricState) × (write_message p payload
            (party initiator si ei 3 sym (some er.public) (some sr.public))
          ≡ (ok m, party initiator si ei 4 sym' (some er.public) (some sr.public)))
        × (read_message p m (party responder sr er 3 sym (some ei.public) none)
            ≡ (ok payload, party responder sr er 4 sym' (some ei.public) (some si.public)))
  unfolding write_message read_message write_arm read_arm write_s_se read_s_se our_turn_to_write
      expected_overhead
  message_3 si ei sr er sym payload ready ls se h =
      let (enc_s, s2, e1, d1, l1, c1) = mirror sym si.public ready (omega arith) in
      let (enc_p, s4, e2, d2, l2, r2) = sealed_once s2 (dh p si er.public) payload h in
      let fits : ltb (length (enc_s ++ enc_p)) 64 ≡ false =
        ge→ltb _ _ (omega (arith, length-append enc_s enc_p)) in
      let key_size : (length si.public == 32) ≡ true = (==_iff _ _).1 ls in
      (
        enc_s ++ enc_p,
        s4,
        rw e1 (rw e2),
        rw fits (
            rw (split_at-append NoiseError 48 enc_s enc_p (omega arith))
              (rw d1 (rw key_size (rw (← se) (rw d2))))),
      )

-- How the XX pattern ends between two parties with these secrets, prologue and payloads: all three
-- messages are written and read, each payload arrives, `into_transport` gives each party the other's
-- static key, and the two transport states share the handshake hash and make a channel both ways.
abbrev pub EndsInAgreement :
    Primitives → Bytes → Bytes → Bytes → Bytes → Bytes → Bytes → Bytes → Bytes → Type 0
EndsInAgreement p si ei sr er prologue payload1 payload2 payload3 =
    (m1 m2 m3 : Bytes) × (i1 i2 i3 r1 r2 r3 : HandshakeState) × (ti tr : TransportState)
    × (write_message p payload1
          (new_xx p initiator (from_secret_bytes p si) (from_secret_bytes p ei) prologue)
        ≡ (ok m1, i1))
    × (read_message p m1
          (new_xx p responder (from_secret_bytes p sr) (from_secret_bytes p er) prologue)
        ≡ (ok payload1, r1))
    × (write_message p payload2 r1 ≡ (ok m2, r2))
    × (read_message p m2 i1 ≡ (ok payload2, i2))
    × (write_message p payload3 i2 ≡ (ok m3, i3))
    × (read_message p m3 r2 ≡ (ok payload3, r3))
    × (into_transport p i3 ≡ ok (ti, p.mul_base_clamped sr))
    × (into_transport p r3 ≡ ok (tr, p.mul_base_clamped si))
    × (ti.hash ≡ tr.hash)
    × IsChannel ti tr
    × IsChannel tr ti

-- Two parties that run the XX pattern with the same prologue end in agreement, over lawful
-- primitives, and with second and third payloads of at most 65535 bytes.
pub handshake_agrees :
    (p : Primitives)
    → Lawful p
    → (si ei sr er prologue payload1 payload2 payload3 : Bytes) → length payload2 ≤ 65535
    → length payload3 ≤ 65535
    → EndsInAgreement p si ei sr er prologue payload1 payload2 payload3
unfolding new_xx from_secret_bytes into_transport is_finished Transport.new split initialize_key
handshake_agrees p lawful si ei sr er prologue payload1 payload2 payload3 h2 h3 =
    let ksi = from_secret_bytes p si in
    let kei = from_secret_bytes p ei in
    let ksr = from_secret_bytes p sr in
    let ker = from_secret_bytes p er in
    let sym0 = mix_hash p (initialize p protocol_name) prologue in
    let keyless : sym0.cipher.k ≡ none = unfold mix_hash initialize in refl in
    let sym1 = mix_hash p (mix_hash p sym0 kei.public) payload1 in
    let (w1, r1) =
      message_1 p lawful ksi kei ksr ker sym0 payload1 keyless (lawful.length-public ei) in
    let (m2, sym2, ready2, w2, r2) =
      message_2 p lawful ksi kei ksr ker sym1 payload2 (lawful.length-public er)
        (lawful.length-public sr) (unfold dh in lawful.dh_agrees ei er)
        (unfold dh in lawful.dh_agrees ei sr) h2 in
    let (m3, sym3, w3, r3) =
      message_3 p lawful ksi kei ksr ker sym2 payload3 ready2 (lawful.length-public si)
        (unfold dh in lawful.dh_agrees er si) h3 in
    (
      kei.public ++ payload1,
      m2,
      m3,
      party initiator ksi kei 2 sym1 none none,
      party initiator ksi kei 3 sym2 (some ker.public) (some ksr.public),
      party initiator ksi kei 4 sym3 (some ker.public) (some ksr.public),
      party responder ksr ker 2 sym1 (some kei.public) none,
      party responder ksr ker 3 sym2 (some kei.public) none,
      party responder ksr ker 4 sym3 (some kei.public) (some ksi.public),
      Transport.new (split p sym3).0 (split p sym3).1 (split p sym3).2,
      Transport.new (split p sym3).1 (split p sym3).0 (split p sym3).2,
      w1,
      r1,
      w2,
      r2,
      w3,
      r3,
      refl,
      refl,
      refl,
      record {
        same = refl;
        ready = record { key = _; keyed = refl; fresh = omega arith };
        sender_up = refl;
        receiver_up = refl;
      },
      record {
        same = refl;
        ready = record { key = _; keyed = refl; fresh = omega arith };
        sender_up = refl;
        receiver_up = refl;
      },
    )
