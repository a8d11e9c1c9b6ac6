-- ===== src/Wire/Frame.antt =====
-- core/src/wire/frame.rs: frames with a two-byte length in front, and their reassembly from a stream.
pub mod Stream
pub mod RoundTrip
use racnet.Prelude.{
  ℕ, ◌+◌, Option, none, some, List, [], ◌∷◌, ◌++◌, Bytes, length, take, drop, ltb, if◌then◌else◌,
  Outcome, ok, ◌>>=◌, expect, u16_try_from, to_be_bytes, from_be_bytes, err, panic,
}
use racnet.Wire.Error.{WireError}
use racnet.Wire.Payload.{Cbor}
use racnet.Wire.Msg.{Message, encode_message, decode_message}

pub record FrameDecoder : Type 0 where
  pub buf : Bytes

abbrev pub new : FrameDecoder
new = record { buf = [] }

unfoldable pub push : FrameDecoder → Bytes → FrameDecoder
push d bytes = record { buf = d.buf ++ bytes }

-- `None` for fewer than two bytes, or fewer than the length says; else `buf[2..2 + len]`, and what
-- `drain` leaves.
unfoldable pub split_frame : Bytes → Option (Bytes × Bytes)
split_frame [] = none
split_frame (b0 ∷ []) = none
split_frame (b0 ∷ b1 ∷ rest) =
    let len = from_be_bytes b0 b1 in
    if ltb (2 + length rest) (2 + len) then none else some (take len rest, drop len rest)

unfoldable pub next_body : FrameDecoder → Option Bytes × FrameDecoder
unfolding split_frame
next_body d = elim (split_frame d.buf) [
  | none ↦ (none, d)
  | some (body, rest) ↦ (some body, record { buf = rest })
]

module _ (c : Cbor) where
  unfoldable pub encode_frame : Message → Outcome WireError Bytes
  encode_frame msg = do
    body ← encode_message c msg
    len ← expect (u16_try_from (length body))
    ok (to_be_bytes len ++ body)

  unfoldable pub next_message : FrameDecoder → Outcome WireError (Option Message) × FrameDecoder
  next_message d =
      let (body, d') = next_body d in
      elim body [
        | none ↦ (ok none, d')
        | some bytes ↦ (decode_message c bytes >>= λ msg. ok (some msg), d')
      ]
