-- ===== src/Api/Lifetimes.antt =====
-- The life of a link over the calls of a node (core/src/api/node.rs).
use racnet.Prelude.{
  ℕ, ◌≤◌, ◌<◌, ◌≡◌, true, false, List, Bytes, Outcome, ok, Option, some, none, lookup, nat_eq,
  subst, refl, Option-cases, Bool-cases, inl, inr, arith,
}
use racnet.Link.Limiter.{admit}
use racnet.Api
use racnet.Noise.Primitives.{Primitives}
use racnet.Noise.Handshake.{Keypair}
use racnet.Wire.Payload.{Cbor}
use racnet.Wire.Entry.{Signing}
use racnet.Store.{OrderIndex, Journal}
use racnet.Sync.Session.{Engine}
use racnet.Api.{LinkOpen, ApiError}
use racnet.Api.Node.{NodeInner, clamp_now}
use racnet.Api.Calls.{accept}
use racnet.Api.Links.{IsGone, IsBounded, IsLater, AllKeys-found}
use racnet.Api.Finality.{mentions, closes, closes-mentions}
use racnet.Api.Steps.{Step, Step-Tells, Run, Run-Tells}

-- No link has an id that was not given out.
absent :
    {O J N : Type 0} (s : NodeInner O J N) (id : ℕ)
    → IsBounded s
    → s.next_link_id ≤ id
    → IsGone id s
absent s id bounded h = elim (Option-cases (lookup id s.links)) [
  | inl e ↦ e
  | inr (link, e) ↦
      absurd omega (arith, h, AllKeys-found (λ k. k < s.next_link_id) id link s.links e bounded)
]

-- A link that is opened has the id of the counter.
abbrev HasNextId : ℕ → Outcome ApiError (Option LinkOpen) → Type 0
HasNextId n (ok (some opened)) = opened.link_id ≡ n
HasNextId n _ = Unit {0}

accept-HasNextId :
    (p : Primitives) (b : Cbor) {O J N : Type 0} (k : Option Keypair) (addr : Bytes) (now_us : ℕ)
    (s : NodeInner O J N)
    → HasNextId s.next_link_id (accept p b k addr now_us s).0
unfolding accept clamp_now
accept-HasNextId p b none addr now_us s = tt
accept-HasNextId p b (some k) addr now_us s =
    let clamped = clamp_now now_us s in
    elim (Option-cases (admit clamped.limiter addr clamped.last_now_us).0) [
      | inl e ↦ rw (e, accept) tt
      | inr (t, e) ↦ rw (e, accept) refl
    ]

module _ (p : Primitives) (b : Cbor) {O J N : Type 0} (c : Signing) (index : OrderIndex O)
    (journals : Journal J) (engines : Engine N) where
  -- When every id in use was given out and a call reports a link closed, the link is gone after the call
  -- and after every run of further calls, and no event of the run names it.
  pub closed_final :
      (r s t : NodeInner O J N) (events rest : List Api.Event) (id : ℕ)
      → IsBounded r
      → Step p b c index journals engines r events s
      → closes id events ≡ true
      → Run p b c index journals engines s rest t
      → IsGone id s × IsGone id t × (mentions id rest ≡ false)
  closed_final r s t events rest id bounded step h run =
      let told = Step-Tells p b c index journals engines r s events step in
      let tells = Run-Tells p b c index journals engines s t rest run in
      let gone = told.final bounded id h in
      let given = told.known bounded id (closes-mentions id events h) in
      (gone, tells.later.gone id given gone, tells.silent id given gone)

  -- Over any run of calls the clock does not go back, the counter of link ids does not go back, every id in
  -- use stays one that was given out, and an id that was given out and is gone is not used again.
  pub Run-IsLater :
      (s t : NodeInner O J N) (events : List Api.Event)
      → Run p b c index journals engines s events t
      → IsLater s t
  Run-IsLater s t events run = (Run-Tells p b c index journals engines s t events run).later

  -- When every id in use was given out, the id that `accept` gives to a link after a run of calls was
  -- named by no event of the run and belonged to no link at its start or at its end.
  pub accept_fresh :
      (s t t' : NodeInner O J N) (events : List Api.Event) (k : Option Keypair) (addr : Bytes)
      (now_us : ℕ) (opened : LinkOpen)
      → IsBounded s
      → Run p b c index journals engines s events t
      → accept p b k addr now_us t ≡ (ok (some opened), t')
      → (mentions opened.link_id events ≡ false) × IsGone opened.link_id s × IsGone opened.link_id t
  accept_fresh s t t' events k addr now_us opened bounded run h =
      let tells = Run-Tells p b c index journals engines s t events run in
      let e : opened.link_id ≡ t.next_link_id =
        subst (λ x. HasNextId t.next_link_id x.0) h (accept-HasNextId p b k addr now_us t) in
      let named : mentions opened.link_id events ≡ false =
        elim (Bool-cases (mentions opened.link_id events)) [
          | inl y ↦ absurd omega (arith, tells.known bounded opened.link_id y, e)
          | inr y ↦ y
        ] in
      (
        named,
        absent s opened.link_id bounded (omega (arith, e, tells.later.given)),
        absent t opened.link_id (tells.later.bounded bounded) (omega (arith, e)),
      )
