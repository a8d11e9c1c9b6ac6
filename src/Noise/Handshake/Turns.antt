-- ===== src/Noise/Handshake/Turns.antt =====
-- The order of the messages of core/src/noise/handshake.rs: the initiator writes the first and the third,
-- the responder the second.
use racnet.Prelude.{
  ℕ, ◌+◌, ◌%◌, ◌≤◌, ◌<◌, ◌≡◌, ◌⊎◌, ◌∙◌, inl, inr, refl, true, false, Bool, ◌||◌, not, Option, some,
  none, Bytes, arith, ok, err, Outcome, length, Bool-cases, Option-cases, Outcome-cases, ◌==◌, ltb,
  ltb→ge, subst, if◌then◌else◌,
}
use racnet.Noise.Primitives.{Primitives, NoiseError, out_of_order}
use racnet.Prelude.Method.{Method, ◌>>=◌, ◌>>◌, get_or_fail, modify, pure}
use racnet.Noise.Symmetric.{mix_hash, mix_key, encrypt_and_hash, decrypt_and_hash}
use racnet.Noise.Handshake.{
  HandshakeState, Role, initiator, responder, write_message, read_message, write_arm, read_arm,
  write_e, write_e_ee_s_es, write_s_se, read_e, read_e_ee_s_es, read_s_se, our_turn_to_write,
  expected_overhead, call_symmetric, on_symmetric, split_message, expect_32, dh, Keypair,
}

-- Whether a role writes a message, counted from 1: the initiator writes the odd ones.
abbrev pub writes : Role → ℕ → Bool
writes initiator n = n % 2 == 1
writes responder n = n % 2 == 0

turn-writes :
    (hs : HandshakeState)
    → 1 ≤ hs.step
    → hs.step ≤ 3
    → our_turn_to_write hs ≡ writes hs.role hs.step
unfolding our_turn_to_write
turn-writes hs h k =
    elim hs.role as (λ r. our_turn_to_write (record hs { role = r }) ≡ writes r hs.step) [
      | initiator ↦ ground (arith, h, k)
      | responder ↦ ground (arith, h, k)
    ]

-- Out of the three messages, or not the turn, of a writer and of a reader.
write_guard :
    (hs : HandshakeState)
    → 1 ≤ hs.step
    → (3 < hs.step) ⊎ (writes hs.role hs.step ≡ false)
    → (ltb 3 hs.step || not (our_turn_to_write hs)) ≡ true
write_guard hs h k = elim (Bool-cases (ltb 3 hs.step)) [
  | inl y ↦ rw y refl
  | inr y ↦ ground (arith, y, k, turn-writes hs h (ltb→ge _ _ y))
]

read_guard :
    (hs : HandshakeState)
    → 1 ≤ hs.step
    → (3 < hs.step) ⊎ (writes hs.role hs.step ≡ true)
    → (ltb 3 hs.step || our_turn_to_write hs) ≡ true
read_guard hs h k = elim (Bool-cases (ltb 3 hs.step)) [
  | inl y ↦ rw y refl
  | inr y ↦ ground (arith, y, k, turn-writes hs h (ltb→ge _ _ y))
]

-- The role and the counter are those of the other state.
abbrev IsBeside : HandshakeState → HandshakeState → Type 0
IsBeside hs hs' = (hs'.role ≡ hs.role) × (hs'.step ≡ hs.step)

abbrev Stays : {A : Type 0} → Method HandshakeState NoiseError A → Type 0
Stays m = (hs : HandshakeState) → IsBeside hs (m hs).1

bind-Stays :
    {A B : Type 0} (m : Method HandshakeState NoiseError A)
    (f : A → Method HandshakeState NoiseError B)
    → Stays m
    → ((a : A) → Stays (f a))
    → Stays (m >>= f)
bind-Stays m f h k hs = elim (Outcome-cases (m hs).0) [
  | inl (a, e) ↦ let (r, n) = h hs in let (r', n') = k a (m hs).1 in rw e (r' ∙ r, n' ∙ n)
  | inr (inl (x, e)) ↦ rw e (h hs)
  | inr (inr e) ↦ rw e (h hs)
]

get_or_fail-Stays : {A : Type 0} (e : NoiseError) (o : Option A) → Stays (get_or_fail e o)
get_or_fail-Stays e none hs = (refl, refl)
get_or_fail-Stays e (some a) hs = (refl, refl)

expect_32-Stays : (bytes : Bytes) → Stays (expect_32 bytes)
expect_32-Stays bytes hs = elim (Bool-cases (length bytes == 32)) [
  | inl y ↦ rw y (refl, refl)
  | inr y ↦ rw y (refl, refl)
]

module _ (p : Primitives) where
  write_e_ee_s_es-Stays : Stays (write_e_ee_s_es p)
  unfolding write_e_ee_s_es
  write_e_ee_s_es-Stays hs = elim (Option-cases hs.re) [
    | inl e ↦ rw e (refl, refl)
    | inr (re, e) ↦
        let sym = mix_key p (mix_hash p hs.symmetric hs.e.public) (dh p hs.e re) in
        elim (Outcome-cases (encrypt_and_hash p sym hs.s.public).0) [
          | inl (x, f) ↦ rw (e, f) (refl, refl)
          | inr (inl (x, f)) ↦ rw (e, f) (refl, refl)
          | inr (inr f) ↦ rw (e, f) (refl, refl)
        ]
  ]

  write_arm-Stays : (step : ℕ) → Stays (write_arm p step)
  unfolding write_arm write_e write_s_se
  write_arm-Stays step = elim (Bool-cases (step == 1)) [
    | inl one ↦ rw one (λ hs. (refl, refl))
    | inr a ↦ elim (Bool-cases (step == 2)) [
      | inl two ↦ rw (a, two) write_e_ee_s_es-Stays
      | inr b ↦ elim (Bool-cases (step == 3)) [
        | inl three ↦
            rw (a, b, three)
              (λ hs.
                bind-Stays (call_symmetric (λ sym. encrypt_and_hash p sym hs.s.public)) _
                  (λ _. (refl, refl))
                  (λ enc_s.
                    bind-Stays (get_or_fail out_of_order hs.re) _
                      (get_or_fail-Stays out_of_order hs.re) (λ _ _. (refl, refl)))
                  hs)
        | inr c ↦ rw (a, b, c) (λ hs. (refl, refl))
      ]
    ]
  ]

  -- The static key: opened, checked for its size and mixed in, whatever it is then.
  open_static-Stays :
      (e : Keypair) (enc_s rest : Bytes)
      → Stays (
          call_symmetric (λ sym. decrypt_and_hash p sym enc_s) >>= λ s_plain.
          expect_32 s_plain >>= λ rs.
          modify {E = NoiseError} (λ hs. record hs { rs = some rs })
          >> (on_symmetric (λ sym. mix_key p sym (dh p e rs)) >> pure rest))
  open_static-Stays e enc_s rest =
      bind-Stays (call_symmetric (λ sym. decrypt_and_hash p sym enc_s)) _ (λ _. (refl, refl))
        (λ s_plain.
          bind-Stays (expect_32 s_plain) _ (expect_32-Stays s_plain) (λ _ _. (refl, refl)))

  read_arm-Stays : (step : ℕ) (m : Bytes) → Stays (read_arm p step m)
  unfolding read_arm read_e read_e_ee_s_es read_s_se
  read_arm-Stays step m = elim (Bool-cases (step == 1)) [
    | inl one ↦ rw one (bind-Stays (split_message 32 m) _ (λ _. (refl, refl)) (λ _ _. (refl, refl)))
    | inr a ↦ elim (Bool-cases (step == 2)) [
      | inl two ↦
          rw (a, two)
            (λ hs.
              bind-Stays (split_message 32 m) _ (λ _. (refl, refl))
                (λ (re, rest) hs1.
                  bind-Stays (split_message 48 rest) _ (λ _. (refl, refl))
                    (λ (enc_s, rest'). open_static-Stays hs.e enc_s rest')
                    (record hs1 {
                      symmetric = mix_key p (mix_hash p hs1.symmetric re) (dh p hs.e re);
                      re = some re;
                    }))
                hs)
      | inr b ↦ elim (Bool-cases (step == 3)) [
        | inl three ↦
            rw (a, b, three)
              (λ hs.
                bind-Stays (split_message 48 m) _ (λ _. (refl, refl))
                  (λ (enc_s, rest). open_static-Stays hs.e enc_s rest) hs)
        | inr c ↦ rw (a, b, c) (λ hs. (refl, refl))
      ]
    ]
  ]

  -- A call that succeeds leaves the role and counts the message.
  abbrev Counts : HandshakeState → Outcome NoiseError Bytes × HandshakeState → Type 0
  Counts hs (ok m, hs') = (hs'.role ≡ hs.role) × (hs'.step ≡ hs.step + 1)
  Counts hs (_, hs') = Unit {0}

  write_message-Counts :
      (hs : HandshakeState) (payload : Bytes) → Counts hs (write_message p payload hs)
  unfolding write_message
  write_message-Counts hs payload =
      elim (Bool-cases (ltb 3 hs.step || not (our_turn_to_write hs))) [
        | inl out ↦ rw out tt
        | inr turn ↦
            let (r, n) = write_arm-Stays hs.step hs in
            let sealing = encrypt_and_hash p (write_arm p hs.step hs).1.symmetric payload in
            elim (Outcome-cases (write_arm p hs.step hs).0) [
              | inr (inl (x, e)) ↦ rw turn (rw e tt)
              | inr (inr e) ↦ rw turn (rw e tt)
              | inl (x, e) ↦ elim (Outcome-cases sealing.0) [
                | inl (y, f) ↦ rw turn (rw e (rw f (r, omega (arith, n))))
                | inr (inl (y, f)) ↦ rw turn (rw e (rw f tt))
                | inr (inr f) ↦ rw turn (rw e (rw f tt))
              ]
            ]
      ]

  read_message-Counts : (hs : HandshakeState) (m : Bytes) → Counts hs (read_message p m hs)
  unfolding read_message
  read_message-Counts hs m = elim (Bool-cases (ltb 3 hs.step || our_turn_to_write hs)) [
    | inl out ↦ rw out tt
    | inr turn ↦
        elim (Bool-cases (ltb (length m) (if hs.step == 1 then 32 else expected_overhead hs))) [
          | inl short ↦ rw turn (rw short tt)
          | inr long ↦
              let (r, n) = read_arm-Stays hs.step m hs in
              let arm = read_arm p hs.step m hs in
              elim (Outcome-cases arm.0) [
                | inr (inl (x, e)) ↦ rw turn (rw long (rw e tt))
                | inr (inr e) ↦ rw turn (rw long (rw e tt))
                | inl (x, e) ↦ elim (Outcome-cases (decrypt_and_hash p arm.1.symmetric x).0) [
                  | inl (y, f) ↦ rw turn (rw long (rw e (rw f (r, omega (arith, n)))))
                  | inr (inl (y, f)) ↦ rw turn (rw long (rw e (rw f tt)))
                  | inr (inr f) ↦ rw turn (rw long (rw e (rw f tt)))
                ]
              ]
        ]
  ]

  write_refused :
      (hs : HandshakeState) (payload : Bytes)
      → 1 ≤ hs.step
      → (3 < hs.step) ⊎ (writes hs.role hs.step ≡ false)
      → write_message p payload hs ≡ (err out_of_order, hs)
  unfolding write_message
  write_refused hs payload h k = rw (write_guard hs h k) refl

  read_refused :
      (hs : HandshakeState) (m : Bytes)
      → 1 ≤ hs.step
      → (3 < hs.step) ⊎ (writes hs.role hs.step ≡ true)
      → read_message p m hs ≡ (err out_of_order, hs)
  unfolding read_message
  read_refused hs m h k = rw (read_guard hs h k) refl

-- Turns do not come twice.
next_turn : (r : Role) (n : ℕ) (b : Bool) → writes r n ≡ b → writes r (n + 1) ≡ not b
next_turn initiator n b h = ground (arith, h)
next_turn responder n b h = ground (arith, h)

module _ (p : Primitives) (hs hs' : HandshakeState) (bytes m again : Bytes) (h : 1 ≤ hs.step) where
  write_again :
      write_message p bytes hs ≡ (ok m, hs') → write_message p again hs' ≡ (err out_of_order, hs')
  write_again e = elim (Bool-cases (writes hs.role hs.step)) [
    | inl y ↦
        let (r, n) = subst (Counts p hs) e (write_message-Counts p hs bytes) in
        write_refused p hs' again (omega (arith, n))
          (inr (rw (r, n) (next_turn hs.role hs.step true y)))
    | inr y ↦ absurd cc (e, write_refused p hs bytes h (inr y))
  ]

  read_again :
      read_message p bytes hs ≡ (ok m, hs') → read_message p again hs' ≡ (err out_of_order, hs')
  read_again e = elim (Bool-cases (writes hs.role hs.step)) [
    | inr y ↦
        let (r, n) = subst (Counts p hs) e (read_message-Counts p hs bytes) in
        read_refused p hs' again (omega (arith, n))
          (inr (rw (r, n) (next_turn hs.role hs.step false y)))
    | inl y ↦ absurd cc (e, read_refused p hs bytes h (inr y))
  ]

-- From step 1 on: the initiator writes the odd messages and the responder the even ones, and a party that
-- writes or reads out of turn, or after the third message, is answered OutOfOrder with the handshake as it
-- was; and after a message written none is written, and after one read none is read, before the other.
pub turns_alternate :
    (p : Primitives) (hs hs' : HandshakeState) (bytes m again : Bytes)
    → 1 ≤ hs.step
    → ((3 < hs.step) ⊎ (writes hs.role hs.step ≡ false)
        → write_message p bytes hs ≡ (err out_of_order, hs))
      × ((3 < hs.step) ⊎ (writes hs.role hs.step ≡ true)
          → read_message p bytes hs ≡ (err out_of_order, hs))
      × (write_message p bytes hs ≡ (ok m, hs')
          → write_message p again hs' ≡ (err out_of_order, hs'))
      × (read_message p bytes hs ≡ (ok m, hs') → read_message p again hs' ≡ (err out_of_order, hs'))
turns_alternate p hs hs' bytes m again h = (
  write_refused p hs bytes h,
  read_refused p hs bytes h,
  λ e. write_again p hs hs' bytes m again h e,
  λ e. read_again p hs hs' bytes m again h e,
)
