-- ===== src/Sync/Session/Answered.antt =====
-- The sessions of core/src/sync/session.rs over the engine of core/src/sync/negentropy/mod.rs and the
-- store of core/src/store/mod.rs with its order index.
use racnet.Prelude.{
  ℕ, ◌^◌, ◌<◌, ◌≡◌, ◌≢◌, refl, ap, sym, ◌∙◌, subst, Bool, ltb, ◌&&◌, true, false, Bytes, List, [],
  ◌∷◌, Option, none, All, leb, if◌then◌else◌, arith, panic, expect, Yields, bind-Yields,
  Yields-not_panic, Yields-if, Yields-refine, expect-Yields,
}
use racnet.Store.{Item, Journal, EntryStore}
use racnet.Store.Indexed.{
  tree_index, within, snapshot-within, items-IsEntryId, IsEntryId-Has32, Has32,
}
use racnet.Store.InStep.{IsInStep}
use racnet.Store.Order.{Tree}
use racnet.Store.Order.Sorted.{IsSorted, IsBelow}
use racnet.Store.Order.Shape.{items, size}
use racnet.Wire.Entry.{Signing}
use racnet.Wire.Payload.{ReconInit, SortKeyWindow}
use racnet.Sync.Error.{SyncError}
use racnet.Sync.Session.{Engine, Round, Syncer, begin, answer, handle_init, open_session}
use racnet.Sync.Negentropy.{Negentropy, new, initiate, below_floor}
use racnet.Sync.Negentropy.Reconcile.{reconcile}
use racnet.Sync.Negentropy.Sealed.{sealed_store, seal, sort_in, sort, dedup_from, dedup}
use racnet.Sync.Negentropy.Total.{Presents, IsAny, initiate-Yields}
use racnet.Sync.Negentropy.Panics.{reconcile-Yields}
use racnet.Sync.Negentropy.Contract.{sealed_store-Presents}
use racnet.Sync.Negentropy.Replies.{reconcile-answers}

-- `sha256` is `Sha256::digest`.
abbrev pub negentropy_engine : (Bytes → Bytes) → Engine (Negentropy (List Item))
negentropy_engine sha256 = record {
  new = λ items limit. new (seal items) limit;
  initiate = initiate (sealed_store sha256);
  reconcile = λ n msg. (reconcile (sealed_store sha256) n msg, n);
}

-- A sorted list is sealed as it is.
sort_in-below : (x : Item) (xs : List Item) → All (IsBelow x) xs → sort_in x xs ≡ x ∷ xs
unfolding sort_in
sort_in-below x [] h = refl
sort_in-below x (y ∷ ys) (h, hs) = rw (h, sort_in) refl

sort-IsSorted : (xs : List Item) → IsSorted xs → sort xs ≡ xs
unfolding sort
sort-IsSorted [] h = refl
sort-IsSorted (x ∷ xs) (h, hs) = rw (sort-IsSorted xs hs) (sort_in-below x xs h)

dedup_from-below :
    (x : Item) (xs : List Item) → All (IsBelow x) xs → IsSorted xs → dedup_from x xs ≡ xs
unfolding dedup_from
dedup_from-below x [] h s = refl
dedup_from-below x (y ∷ ys) (h, hs) (k, s) =
    rw (h, dedup_from) (ap (λ r. y ∷ r) (dedup_from-below y ys k s))

dedup-IsSorted : (xs : List Item) → IsSorted xs → dedup xs ≡ xs
unfolding dedup
dedup-IsSorted [] h = refl
dedup-IsSorted (x ∷ xs) (h, hs) = ap (λ r. x ∷ r) (dedup_from-below x xs h hs)

pub seal-IsSorted : (xs : List Item) → IsSorted xs → seal xs ≡ xs
unfolding seal
seal-IsSorted xs h = ap dedup (sort-IsSorted xs h) ∙ dedup-IsSorted xs h

-- A window of a sorted list is sorted, and has ids of 32 bytes where the list has.
either :
    (Q : List Item → Type 0) (b : Bool) (xs ys : List Item) → Q xs → Q ys → Q (if b then xs else ys)
either Q true xs ys h k = h
either Q false xs ys h k = k

abbrev kept : SortKeyWindow → Item → Bool
kept window x = leb window.since x.sort_key && ltb x.sort_key window.until

within-All :
    (P : Item → Type 0) (window : SortKeyWindow) (xs : List Item)
    → All P xs
    → All P (within window xs)
unfolding within
within-All P window [] h = tt
within-All P window (x ∷ xs) (h, hs) =
    let rest = within-All P window xs hs in
    either (All P) (kept window x) (x ∷ within window xs) (within window xs) (h, rest) rest

within-IsSorted :
    (window : SortKeyWindow) (xs : List Item) → IsSorted xs → IsSorted (within window xs)
unfolding within
within-IsSorted window [] h = tt
within-IsSorted window (x ∷ xs) (h, hs) =
    let rest = within-IsSorted window xs hs in
    either IsSorted (kept window x) (x ∷ within window xs) (within window xs)
      (within-All (IsBelow x) window xs h, rest) rest

-- A new engine, over what it was given.
IsFresh : {S : Type 0} → S → Negentropy S → Type 0
IsFresh s n = (n.store ≡ s) × (n.is_initiator ≡ false)

new-Yields : {S : Type 0} (s : S) (limit : Option ℕ) → Yields (IsFresh s) (new s limit)
unfolding new IsFresh
new-Yields s limit = Yields-if (IsFresh s) (below_floor limit) _ _ (λ _. tt) (λ _. (refl, refl))

module _ {J : Type 0} (c : Signing) (journals : Journal J) (sha256 : Bytes → Bytes) where
  sealed-Presents :
      (store : EntryStore Tree J) (window : SortKeyWindow) (n : Negentropy (List Item))
      → IsInStep c journals store
      → IsFresh (seal (within window (items store.order))) n
      → Presents (sealed_store sha256) n.store (within window (items store.order))
  unfolding IsFresh
  sealed-Presents store window n h (e, _) =
      let xs = within window (items store.order) in
      let sorted = within-IsSorted window (items store.order) h.index.0 in
      let ids =
        within-All Has32 window (items store.order)
          (IsEntryId-Has32 (items store.order) (items-IsEntryId store.order h.index.1)) in
      subst (λ s. Presents (sealed_store sha256) s xs) (sym (e ∙ seal-IsSorted xs sorted))
        (sealed_store-Presents sha256 xs sorted ids)

  -- Over a store whose index is in step and holds fewer than 2^32 items, opening a session does not panic.
  pub begin-Yields :
      (store : EntryStore Tree J) (window : SortKeyWindow) (s : Syncer (Negentropy (List Item)))
      → IsInStep c journals store
      → size store.order < 2 ^ 32
      → Yields IsAny (begin c tree_index journals (negentropy_engine sha256) store window s)
  unfolding begin
  begin-Yields store window s h k =
      rw (snapshot-within store window h.index k, Yields, begin)
        (bind-Yields (IsFresh (seal (within window (items store.order)))) IsAny
          (new (seal (within window (items store.order))) s.config.frame_limit) _
          (new-Yields _ s.config.frame_limit)
          (λ n fresh.
            initiate-Yields (sealed_store sha256) n _ (sealed-Presents store window n h fresh)))

  -- The answer to an opened session does not panic either, whatever the message: the engine always has a
  -- reply.
  pub answer-Yields :
      (store : EntryStore Tree J) (init : ReconInit) (s : Syncer (Negentropy (List Item)))
      → IsInStep c journals store
      → size store.order < 2 ^ 32
      → Yields IsAny (answer c tree_index journals (negentropy_engine sha256) store init s)
  unfolding answer IsFresh
  answer-Yields store init s h k =
      let items' = within init.window (items store.order) in
      let HasReply : Round → Type 0 = λ r. r.reply ≢ none in
      rw (snapshot-within store init.window h.index k, Yields, answer)
        (bind-Yields (IsFresh (seal items')) IsAny (new (seal items') s.config.frame_limit) _
          (new-Yields _ s.config.frame_limit)
          (λ n fresh.
            bind-Yields HasReply IsAny (reconcile (sealed_store sha256) n init.msg) _
              (Yields-refine IsAny HasReply (reconcile (sealed_store sha256) n init.msg)
                (reconcile-Yields (sealed_store sha256) n items'
                  (sealed-Presents store init.window n h fresh) init.msg)
                (λ round e. reconcile-answers (sealed_store sha256) n init.msg round fresh.1 e))
              (λ round replied.
                bind-Yields IsAny IsAny (expect round.reply) _
                  (expect-Yields SyncError round.reply replied) (λ _ _. tt))))

  -- Over the order index, the sealed snapshot and the Negentropy engine, with the index in step with the
  -- entries and fewer than 2^32 items: neither opening a session nor a peer's RECON_INIT, whatever its
  -- bytes, makes the session manager panic.
  pub handle_init_returns :
      (store : EntryStore Tree J) (init : ReconInit) (window : SortKeyWindow)
      (s : Syncer (Negentropy (List Item)))
      → IsInStep c journals store
      → size store.order < 2 ^ 32
      → ((open_session c tree_index journals (negentropy_engine sha256) store window s).0 ≢ panic)
        × ((handle_init c tree_index journals (negentropy_engine sha256) store init s).0 ≢ panic)
  unfolding open_session handle_init
  handle_init_returns store init window s h k =
      let begun = Yields-not_panic IsAny _ (begin-Yields store window s h k) in
      let answered = Yields-not_panic IsAny _ (answer-Yields store init s h k) in
      (ground (arith, begun), ground (arith, answered))
