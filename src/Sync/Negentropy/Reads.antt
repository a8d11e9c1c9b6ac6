-- ===== src/Sync/Negentropy/Reads.antt =====
-- Reading a range of a message of core/src/sync/negentropy/mod.rs never panics and takes something.
use racnet.Prelude.{
  ◌%◌, ◌^◌, ℕ, zero, suc, ◌+◌, ◌*◌, ◌≤◌, ◌<◌, ◌≢◌, Bytes, List, [], ◌∷◌, length, length-drop,
  length-take, take, drop, ltb, split_at_fits, ltb→ge, arith, panic, Yields, bind-Yields, Yields-ok,
  Yields-weaken, Bool-cases, Outcome-cases, inl, inr,
}
use racnet.Sync.Error.{SyncError}
use racnet.Sync.Varint.{read_varint, read_digits}
use racnet.Sync.Varint.RoundTrip.{read_varint_takes}
use racnet.Sync.Bound.{Bound, BoundCodec, decode, decode_prefix, take_prefix}
use racnet.Sync.Bound.Separation.{new_fits}
use racnet.Sync.Negentropy.Reconcile.{read_ids}

read_digits_returns : (bs : Bytes) (res : ℕ) → read_digits bs res ≢ panic
unfolding read_digits
read_digits_returns [] res e = cc
read_digits_returns (b ∷ bs) res e =
    ground (arith, read_digits_returns bs (res * 128 % 2 ^ 64 + b % 128))

-- Less is left of the input.
abbrev pub IsShorter : {A : Type 0} → Bytes → A × Bytes → Type 0
IsShorter input r = length r.1 < length input

read_varint_returns : (input : Bytes) → read_varint input ≢ panic
unfolding read_varint
read_varint_returns input = read_digits_returns input 0

pub read_varint-Yields : (input : Bytes) → Yields (IsShorter input) (read_varint input)
read_varint-Yields input = elim (Outcome-cases (read_varint input)) [
  | inl ((n, rest), e) ↦
      Yields-ok (IsShorter input) (read_varint input) (n, rest) e
        (read_varint_takes input rest n e).1
  | inr (inl (x, e)) ↦ rw (e, Yields) tt
  | inr (inr e) ↦ absurd (read_varint_returns input e)
]

take_prefix-Yields :
    (ts len : ℕ) (input : Bytes)
    → Yields (λ (r : Bound × Bytes). length r.1 ≤ length input) (take_prefix ts len input)
unfolding take_prefix
take_prefix-Yields ts len input = elim (Bool-cases (ltb 32 len)) [
  | inl y ↦ rw (y, take_prefix, Yields) tt
  | inr y ↦ elim (Bool-cases (ltb (length input) len)) [
    | inl z ↦ rw (y, z, take_prefix, Yields) tt
    | inr z ↦
        let fits : length (take len input) ≤ 32 =
          omega (arith, ltb→ge _ _ y, length-take len input) in
        rw (y, z, new_fits ts (take len input) fits, take_prefix, Yields)
          (omega (arith, length-drop len input))
  ]
]

decode_prefix-Yields : (ts : ℕ) (input : Bytes) → Yields (IsShorter input) (decode_prefix ts input)
unfolding decode_prefix
decode_prefix-Yields ts input =
    bind-Yields (IsShorter input) (IsShorter input) (read_varint input) _ (read_varint-Yields input)
      (λ r h.
        Yields-weaken _ (IsShorter input) (take_prefix ts r.0 r.1) (take_prefix-Yields ts r.0 r.1)
          (λ d k. omega (arith, h, k)))

pub decode-Yields :
    (input : Bytes) (codec : BoundCodec) → Yields (IsShorter input) (decode input codec).0
unfolding decode
decode-Yields input codec = elim (Outcome-cases (read_varint input)) [
  | inl ((raw, rest), e) ↦
      let less = (read_varint_takes input rest raw e).1 in
      rw (e, decode)
        (Yields-weaken _ (IsShorter input) _ (decode_prefix-Yields _ rest)
          (λ d k. omega (arith, less, k)))
  | inr (inl (x, e)) ↦ rw (e, Yields, decode) tt
  | inr (inr e) ↦ absurd (read_varint_returns input e)
]

pub read_ids-Yields :
    (n : ℕ) (cursor : Bytes)
    → n * 32 ≤ length cursor
    → Yields (λ (r : List Bytes × Bytes). length r.1 ≤ length cursor) (read_ids n cursor)
unfolding read_ids
read_ids-Yields zero cursor h = omega arith
read_ids-Yields (suc n) cursor h =
    rw (split_at_fits SyncError 32 cursor (omega (arith, h)), read_ids)
      (bind-Yields _ _ (read_ids n (drop 32 cursor)) _
        (read_ids-Yields n (drop 32 cursor) (omega (arith, h, length-drop 32 cursor)))
        (λ r k. omega (arith, k, length-drop 32 cursor)))
