-- ===== src/Wire/Frame/Stream.antt =====
-- `FrameDecoder` of core/src/wire/frame.rs as a reader of a stream that arrives in pieces.
use racnet.Prelude.{
  ◌<◌, ◌≡◌, refl, ap, sym, ◌∙◌, inl, inr, none, some, List, [], ◌∷◌, ◌++◌, Bytes, length, arith,
  length-append, length-take, length-drop, take-append, drop-append, take-append-drop, Option-cases,
  IsByte, All, from_be_bytes, to_be_bytes, subst,
}
use racnet.Wire.Frame.{FrameDecoder, push, split_frame, next_body}

split_frame-append :
    (buf body rest more : Bytes)
    → split_frame buf ≡ some (body, rest)
    → split_frame (buf ++ more) ≡ some (body, rest ++ more)
unfolding split_frame
split_frame-append [] body rest more e = cc
split_frame-append (b0 ∷ []) body rest more e = cc
split_frame-append (b0 ∷ b1 ∷ xs) body rest more e = ground (
  arith,
  length-append xs more,
  take-append (from_be_bytes b0 b1) xs more,
  drop-append (from_be_bytes b0 b1) xs more,
)

-- A body that `next_body` finds is found all the same when more bytes have been pushed behind it,
-- and they stay in the buffer.
pub next_body-push :
    (d d' : FrameDecoder) (body more : Bytes)
    → next_body d ≡ (some body, d')
    → next_body (push d more) ≡ (some body, push d' more)
unfolding next_body push
next_body-push d d' body more e = elim (Option-cases (split_frame d.buf)) [
  | inl n ↦ ground (arith, n)
  | inr ((x, rest), s) ↦ ground (arith, s, split_frame-append d.buf x rest more s)
]

split_frame_takes :
    (buf body rest : Bytes)
    → All IsByte buf
    → split_frame buf ≡ some (body, rest)
    → (length body < 65536) × (buf ≡ to_be_bytes (length body) ++ (body ++ rest))
unfolding split_frame
split_frame_takes [] body rest h e = cc
split_frame_takes (b0 ∷ []) body rest h e = cc
split_frame_takes (b0 ∷ b1 ∷ xs) body rest (h0, (h1, h)) e =
    let len = from_be_bytes b0 b1 in ground (arith, length-take len xs, take-append-drop len xs)

-- Each body takes its bytes and the two of its length out of the buffer, from the front.
pub next_body_takes :
    (d d' : FrameDecoder) (body : Bytes)
    → All IsByte d.buf
    → next_body d ≡ (some body, d')
    → (length body < 65536) × (d.buf ≡ to_be_bytes (length body) ++ (body ++ d'.buf))
unfolding next_body
next_body_takes d d' body h e = elim (Option-cases (split_frame d.buf)) [
  | inl n ↦ ground (arith, n)
  | inr ((x, rest), s) ↦ ground (arith, s, split_frame_takes d.buf x rest h s)
]

-- What the calls of `next_body` up to the first `None` return: the bodies, and the decoder left.
pub data Reads : FrameDecoder → List Bytes → FrameDecoder → Type 0 where
  stop : {d d' : FrameDecoder} → next_body d ≡ (none, d') → Reads d [] d'
  next :
      {d d' end : FrameDecoder} {body : Bytes} {bodies : List Bytes}
      → next_body d ≡ (some body, d')
      → Reads d' bodies end
      → Reads d (body ∷ bodies) end

next_body-none : (d d' : FrameDecoder) → next_body d ≡ (none, d') → d' ≡ d
unfolding next_body
next_body-none d d' e = ground arith

-- Bytes may arrive in any pieces: reading the bodies of the first piece, pushing the second and
-- reading on gives what reading the whole gives.
pub Reads-push :
    {d mid : FrameDecoder} {xs : List Bytes} (ys : List Bytes) (more : Bytes) (end : FrameDecoder)
    → Reads d xs mid
    → Reads (push mid more) ys end
    → Reads (push d more) (xs ++ ys) end
Reads-push {d} {mid} ys more end (stop e) r =
    subst (λ x. Reads (push x more) ys end) (next_body-none d mid e) r
Reads-push ys more end (next {d = d} {d' = d'} {body = body} e r) r' =
    next (next_body-push d d' body more e) (Reads-push ys more end r r')

-- Reading has one outcome.
pub Reads-unique :
    {d e1 e2 : FrameDecoder} {xs ys : List Bytes}
    → Reads d xs e1
    → Reads d ys e2
    → (xs ≡ ys) × (e1 ≡ e2)
Reads-unique (stop e) (stop e') = (refl, cc)
Reads-unique (stop e) (next e' r) = cc
Reads-unique (next e r) (stop e') = cc
Reads-unique {e2 = e2} (next {d' = d'} {bodies = bs} e r) (next {d' = d''} {bodies = bs'} e' r') =
    let both : d'' ≡ d' = ap (λ p. p.1) (sym e' ∙ e) in
    let (same, at_end) = Reads-unique r (subst (λ x. Reads x bs' e2) both r') in
    (ground (arith, same, e, e'), at_end)

split_frame_shrinks :
    (buf body rest : Bytes) → split_frame buf ≡ some (body, rest) → length rest < length buf
unfolding split_frame
split_frame_shrinks [] body rest e = cc
split_frame_shrinks (b0 ∷ []) body rest e = cc
split_frame_shrinks (b0 ∷ b1 ∷ bs) body rest e =
    ground (arith, length-drop (from_be_bytes b0 b1) bs)

-- A body takes two bytes off the buffer at least.
pub next_body_shrinks :
    (d : FrameDecoder) (body : Bytes)
    → (next_body d).0 ≡ some body
    → length (next_body d).1.buf < length d.buf
unfolding next_body
next_body_shrinks d body e = elim (Option-cases (split_frame d.buf)) [
  | inl n ↦ absurd (ground (arith, n, e))
  | inr ((body', rest), f) ↦ rw (f, next_body) (split_frame_shrinks d.buf body' rest f)
]
