-- ===== src/Sync/Negentropy/Replies.antt =====
-- A responder answers every message that it accepts: the `expect` of core/src/sync/session.rs on the
-- reply of a new engine (core/src/sync/negentropy/mod.rs) does not fail.
use racnet.Prelude.{
  ◌≡◌, ◌≢◌, false, Bytes, [], ◌∷◌, none, arith, ok, ok-injective, bind_ok, subst, length,
}
use racnet.Sync.Bound
use racnet.Sync.Session.{Round}
use racnet.Sync.Negentropy.{NegentropyStore, Negentropy}
use racnet.Sync.Negentropy.Reconcile.{Scan, reconcile, scan_ranges, scan_message, round_of}

module _ {S : Type 0} (stores : NegentropyStore S) (n : Negentropy S) where
  round_of-answers : (s : Scan) → n.is_initiator ≡ false → (round_of stores n s).reply ≢ none
  unfolding round_of
  round_of-answers s h e = ground (arith, h)

  scan_ranges-answers :
      (msg : Bytes) (round : Round)
      → n.is_initiator ≡ false
      → scan_ranges stores n msg ≡ ok round
      → round.reply ≢ none
  unfolding scan_ranges
  scan_ranges-answers msg round h e =
      let (start, _, f) = bind_ok (Bound.from_ts 0) _ round e in
      let (s, _, g) = bind_ok (scan_message stores n (length msg) _) _ round f in
      subst (λ r. r.reply ≢ none) (ok-injective g) (round_of-answers s h)

  -- Where a responder's engine accepts a message, there is a reply.
  pub reconcile-answers :
      (msg : Bytes) (round : Round)
      → n.is_initiator ≡ false
      → reconcile stores n msg ≡ ok round
      → round.reply ≢ none
  unfolding reconcile
  reconcile-answers [] round h e = cc
  reconcile-answers (version ∷ rest) round h e = ground (arith, scan_ranges-answers rest round h)
