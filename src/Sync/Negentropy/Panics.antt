-- ===== src/Sync/Negentropy/Panics.antt =====
-- `reconcile` of core/src/sync/negentropy/mod.rs panics on no message, over any store that keeps its
-- contract, and its loop ends within as many rounds as the message has bytes.
use racnet.Prelude.{
  ℕ, zero, suc, ◌+◌, ◌-◌, ◌/◌, ◌≤◌, ◌<◌, ◌≡◌, ◌==◌, ◌&&◌, ◌=?◌, subst, Bool, true, false, not,
  Bytes, List, [], ◌∷◌, ◌++◌, Option, none, some, All, All-take, All-drop, length, length-drop,
  length-take, take, drop, split_at_fits, ltb, leb, ltb→ge, arith, Yields, bind-Yields, Yields-if,
  Yields-weaken, Bool-cases, inl, inr, bytes_eq, ==_iff,
}
use racnet.Store.{Item}
use racnet.Store.Order.Summed
use racnet.Sync.Error.{SyncError}
use racnet.Sync.Varint.{read_varint}
use racnet.Sync.Bound
use racnet.Sync.Bound.{Bound, BoundCodec, encode, decode}
use racnet.Sync.Bound.Separation.{new_fits}
use racnet.Sync.Negentropy.{NegentropyStore, Negentropy, flush_skip, exceeds_limit, split_range}
use racnet.Sync.Negentropy.Reconcile.{
  Scan, Arm, read_ids, answer_ids, answer_end, on_fingerprint, learn_ids, answer_list, on_id_list,
  on_mode, finish_range, scan_range, scan_message, scan_ranges, reconcile,
}
use racnet.Sync.Negentropy.Reads.{IsShorter, read_varint-Yields, decode-Yields, read_ids-Yields}
use racnet.Sync.Negentropy.Total.{Presents, IsAny, split_range-Yields, infinity-Yields}

-- Where a responder stops, it is at one of the items.
IsStop : ℕ → ℕ → Option (Item × ℕ) → Type 0
IsStop lo hi none = Unit {0}
IsStop lo hi (some (item, rank)) = (length item.id ≡ 32) × (lo ≤ rank) × (rank ≤ hi)

wider :
    (rank n : ℕ) (o : Option (Item × ℕ))
    → IsStop (rank + 1) (rank + 1 + n) o
    → IsStop rank (rank + suc n) o
unfolding IsStop
wider rank n none h = tt
wider rank n (some (item, r)) (h, k, l) = (h, omega (arith, k), omega (arith, l))

answer_ids-IsStop :
    (limit : Option ℕ) (full_len rank : ℕ) (items : List Item) (response : Bytes) (num : ℕ)
    → All (λ x. length x.id ≡ 32) items
    → IsStop rank (rank + length items) (answer_ids limit full_len rank items response num).2
unfolding answer_ids IsStop
answer_ids-IsStop limit full_len rank [] response num h = tt
answer_ids-IsStop limit full_len rank (item ∷ items) response num (h, hs) =
    elim (Bool-cases (exceeds_limit limit (full_len + length response))) [
      | inl y ↦ rw (y, IsStop, answer_ids) (h, omega arith, omega arith)
      | inr y ↦
          rw (y, answer_ids)
            (wider rank _
              (answer_ids limit full_len (rank + 1) items (response ++ item.id) (num + 1)).2
              (answer_ids-IsStop limit full_len (rank + 1) items (response ++ item.id) (num + 1)
                hs))
    ]

answer_end-Yields :
    (lo upper : ℕ) (o : Option (Item × ℕ)) (b : Bound)
    → lo ≤ upper
    → IsStop lo upper o
    → Yields (λ (r : Bound × ℕ). (lo ≤ r.1) × (r.1 ≤ upper)) (answer_end o b upper)
unfolding answer_end IsStop Bound.at_item
answer_end-Yields lo upper none b k h = omega (arith, k)
answer_end-Yields lo upper (some (item, rank)) b k (l, a, c) =
    rw (new_fits item.sort_key item.id (omega (arith, l)), Yields) (a, c)

length-slice :
    (lo hi : ℕ) (xs : List Item)
    → lo ≤ hi
    → hi ≤ length xs
    → length (Summed.slice lo hi xs) ≡ hi - lo
length-slice lo hi xs h k = omega (arith, length-take (hi - lo) (drop lo xs), length-drop lo xs)

module _ {S : Type 0} (stores : NegentropyStore S) (n : Negentropy S) (xs : List Item)
    (h : Presents stores n.store xs) where
  -- What an arm leaves: the end of the range within the store, and no more of the message.
  IsArm : Scan → Arm → Type 0
  IsArm s arm =
      (s.prev_rank ≤ arm.upper)
      × (arm.upper ≤ length xs)
      × (length arm.scan.cursor ≤ length s.cursor)

  on_fingerprint-Yields :
      (s : Scan) (b : Bound) (upper : ℕ)
      → s.prev_rank ≤ upper
      → upper ≤ length xs
      → Yields (IsArm s) (on_fingerprint stores n s b upper)
  unfolding on_fingerprint IsArm
  on_fingerprint-Yields s b upper k l =
      let (ours, e) = h.fingerprint s.prev_rank upper k l in
      Yields-if (IsArm s) (ltb (length s.cursor) 16) _ _ (λ _. tt)
        (λ enough.
          rw (split_at_fits SyncError 16 s.cursor (ltb→ge _ _ enough), e, Yields)
            (Yields-if (IsArm s) (take 16 s.cursor =? ours) _ _
              (λ _. (k, l, omega (arith, length-drop 16 s.cursor)))
              (λ _.
                bind-Yields IsAny (IsArm s)
                  (split_range stores n.store s.prev_rank upper b
                    (flush_skip s.skip s.prev_bound s.codec []).1
                    (flush_skip s.skip s.prev_bound s.codec []).2)
                  _ (split_range-Yields stores n.store xs h s.prev_rank upper b _ _ k l)
                  (λ _ _. (k, l, omega (arith, length-drop 16 s.cursor))))))

  learn_ids-Yields :
      (s : Scan) (upper : ℕ) (received : List Bytes)
      → s.prev_rank ≤ upper
      → upper ≤ length xs
      → Yields (IsArm s) (learn_ids stores n s upper received)
  unfolding learn_ids IsArm
  learn_ids-Yields s upper received k l =
      rw (h.for_each s.prev_rank upper k l, Yields, learn_ids) (k, l, omega arith)

  answer_list-Yields :
      (s : Scan) (b : Bound) (upper : ℕ)
      → s.prev_rank ≤ upper
      → upper ≤ length xs
      → Yields (IsArm s) (answer_list stores n s b upper)
  unfolding answer_list IsArm
  answer_list-Yields s b upper k l =
      let has32 : Item → Type 0 = λ x. length x.id ≡ 32 in
      let items = Summed.slice s.prev_rank upper xs in
      let ids =
        All-take has32 (upper - s.prev_rank) (drop s.prev_rank xs)
          (All-drop has32 s.prev_rank xs h.ids) in
      let stop = answer_ids-IsStop n.frame_limit (length s.full) s.prev_rank items [] 0 ids in
      let whole : s.prev_rank + length items ≡ upper =
        omega (arith, length-slice s.prev_rank upper xs k l) in
      let stopped = (answer_ids n.frame_limit (length s.full) s.prev_rank items [] 0).2 in
      rw (h.for_each s.prev_rank upper k l, answer_list)
        (bind-Yields _ (IsArm s) (answer_end stopped b upper) _
          (answer_end-Yields s.prev_rank upper stopped b k
            (subst (λ hi. IsStop s.prev_rank hi stopped) whole stop))
          (λ r m. (m.0, omega (arith, m, l), omega arith)))

  on_id_list-Yields :
      (s : Scan) (b : Bound) (upper : ℕ)
      → s.prev_rank ≤ upper
      → upper ≤ length xs
      → Yields (IsArm s) (on_id_list stores n s b upper)
  unfolding on_id_list IsArm
  on_id_list-Yields s b upper k l =
      bind-Yields (IsShorter s.cursor) (IsArm s) (read_varint s.cursor) _
        (read_varint-Yields s.cursor)
        (λ r less.
          Yields-if (IsArm s) (ltb (length r.1 / 32) r.0) _ _ (λ _. tt)
            (λ enough.
              bind-Yields _ (IsArm s) (read_ids r.0 r.1) _
                (read_ids-Yields r.0 r.1 (omega (arith, ltb→ge _ _ enough)))
                (λ q left.
                  let after : Scan = record s { cursor = q.1 } in
                  Yields-weaken (IsArm after) (IsArm s) _
                    (Yields-if (IsArm after) n.is_initiator _ _
                      (λ _. learn_ids-Yields after upper q.0 k l)
                      (λ _. answer_list-Yields after b upper k l))
                    (λ arm (a, c, d). (a, c, omega (arith, d, left, less))))))

  on_mode-Yields :
      (mode : ℕ) (s : Scan) (b : Bound) (upper : ℕ)
      → s.prev_rank ≤ upper
      → upper ≤ length xs
      → Yields (IsArm s) (on_mode stores n mode s b upper)
  unfolding on_mode IsArm
  on_mode-Yields mode s b upper k l =
      Yields-if (IsArm s) (mode == 0) _ _ (λ _. (k, l, omega arith))
        (λ _.
          Yields-if (IsArm s) (mode == 1) _ _ (λ _. on_fingerprint-Yields s b upper k l)
            (λ _.
              Yields-if (IsArm s) (mode == 2) _ _ (λ _. on_id_list-Yields s b upper k l) (λ _. tt)))

  -- What a round leaves: a rank within the store, and less of the message, unless the loop ends.
  IsNext : Scan → Scan × Bool → Type 0
  IsNext s (s', true) = Unit {0}
  IsNext s (s', false) = (s'.prev_rank ≤ length xs) × (length s'.cursor < length s.cursor)

  finish_range-Yields :
      (s : Scan) (b : Bound) (arm : Arm)
      → arm.upper ≤ length xs
      → length arm.scan.cursor < length s.cursor
      → Yields (IsNext s) (finish_range stores n b arm)
  unfolding finish_range IsNext
  finish_range-Yields s b arm k l =
      let (fp, e) =
        h.fingerprint arm.upper (stores.len n.store) (omega (arith, k, h.len))
          (omega (arith, h.len)) in
      Yields-if (IsNext s) (exceeds_limit n.frame_limit (length arm.scan.full + length arm.out)) _ _
        (λ _.
          rw (e, Yields)
            (bind-Yields IsAny (IsNext s) Bound.infinity _ infinity-Yields (λ _ _. tt)))
        (λ _. (k, l))

  at_end : (s : Scan) (arm : Arm) → IsArm s arm → arm.upper ≤ length xs
  unfolding IsArm
  at_end s arm (_, k, _) = k

  left :
      (s s' : Scan) (arm : Arm)
      → IsArm s' arm
      → length s'.cursor < length s.cursor
      → length arm.scan.cursor < length s.cursor
  unfolding IsArm
  left s s' arm (_, _, k) l = omega (arith, k, l)

  scan_range-Yields :
      (s : Scan) → s.prev_rank ≤ length xs → Yields (IsNext s) (scan_range stores n s)
  unfolding scan_range
  scan_range-Yields s k =
      bind-Yields (IsShorter s.cursor) (IsNext s) (decode s.cursor s.codec).0 _
        (decode-Yields s.cursor s.codec)
        (λ d less.
          bind-Yields (IsShorter d.1) (IsNext s) (read_varint d.1) _ (read_varint-Yields d.1)
            (λ m less'.
              let (upper, e, a, c) =
                h.lower_bound s.prev_rank (stores.len n.store) d.0 (omega (arith, k, h.len))
                  (omega (arith, h.len)) in
              rw (e, Yields)
                (let s' : Scan = record s { cursor = m.1; codec = (decode s.cursor s.codec).1 } in
                  bind-Yields (IsArm s') (IsNext s) (on_mode stores n m.0 s' d.0 upper) _
                    (on_mode-Yields m.0 s' d.0 upper a (omega (arith, c, h.len)))
                    (λ arm shape.
                      finish_range-Yields s d.0 arm (at_end s' arm shape)
                        (left s s' arm shape (omega (arith, less, less')))))))

  scan_message-Yields :
      (fuel : ℕ) (s : Scan)
      → s.prev_rank ≤ length xs
      → length s.cursor ≤ fuel
      → Yields IsAny (scan_message stores n fuel s)
  unfolding scan_message IsNext
  scan_message-Yields zero s k l =
      rw ((==_iff (length s.cursor) 0).1 (omega (arith, l)), scan_message, Yields) tt
  scan_message-Yields (suc fuel) s k l =
      Yields-if IsAny (length s.cursor == 0) _ _ (λ _. tt)
        (λ _.
          bind-Yields (IsNext s) IsAny (scan_range stores n s) _ (scan_range-Yields s k)
            (λ (s', stop) next. elim (Bool-cases stop) [
              | inl y ↦ rw (y, Yields) tt
              | inr y ↦
                  let (k', l') = subst (λ b. IsNext s (s', b)) y next in
                  rw y (scan_message-Yields fuel s' k' (omega (arith, l, l')))
            ]))

  scan_ranges-Yields : (msg : Bytes) → Yields IsAny (scan_ranges stores n msg)
  unfolding scan_ranges Bound.from_ts
  scan_ranges-Yields msg = rw (new_fits 0 [] (omega arith)) (
      bind-Yields IsAny IsAny (scan_message stores n (length msg) _) _
        (scan_message-Yields (length msg) _ (omega arith) (omega arith)) (λ _ _. tt))

  -- Over a store that keeps its contract, `reconcile` panics on no message, and its loop ends: as many
  -- rounds as the message has bytes are enough.
  pub reconcile-Yields : (msg : Bytes) → Yields IsAny (reconcile stores n msg)
  unfolding reconcile
  reconcile-Yields [] = tt
  reconcile-Yields (version ∷ rest) =
      Yields-if IsAny (not (leb 96 version && leb version 111)) _ _ (λ _. tt)
        (λ _.
          Yields-if IsAny (version == 97) _ _ (λ _. scan_ranges-Yields rest)
            (λ _. Yields-if IsAny n.is_initiator _ _ (λ _. tt) (λ _. tt)))
