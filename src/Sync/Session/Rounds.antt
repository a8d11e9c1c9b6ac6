-- ===== src/Sync/Session/Rounds.antt =====
-- A round of a session of core/src/sync/session.rs, and what it pushes.
use racnet.Prelude.{
  ◌≡◌, inl, inr, refl, ap, sym, ◌∙◌, subst, Bool, true, false, ℕ, List, [], ◌∷◌, ◌++◌, append-nil,
  Bytes, if◌then◌else◌, bytes_eq, arith, Bool-cases, some, Option-cases, Outcome, Outcome-cases, ok,
  Table, lookup, insert, remove, lookup-insert, lookup-remove, ◌=?◌, ◌&&◌,
}
use racnet.Wire.Entry.{Signing}
use racnet.Wire.Msg.{Message}
use racnet.Wire.Payload.{ReconMsg}
use racnet.Store.{OrderIndex, Journal, EntryStore}
use racnet.Store.Held.{IsSound}
use racnet.Sync.Error.{SyncError}
use racnet.Sync.Session.{
  key_eq, key_beq_iff, insert_new, mem, is_empty, Session, Syncer, SyncOutput, Round, Engine,
  session_key, push_batches, finish_round, handle_recon_msg,
}
use racnet.Sync.Session.Push.{pushed_entries, found, push_batches-entries}
use racnet.Sync.Session.Once.{
  IsDistinct, insert_new_set, insert_new_kept, insert_new-IsDistinct, ids_of, pushed_entries-append,
  found_among, found-IsDistinct,
}

-- The ids of the entries that a call pushes.
abbrev pub pushed_ids : Signing → Outcome SyncError SyncOutput → List Bytes
pushed_ids c (ok output) = ids_of c (pushed_entries output.replies)
pushed_ids c _ = []

and_left : (a b : Bool) → (a && b) ≡ true → a ≡ true
and_left a b h = ground arith

module _ {N : Type 0} where
  -- Every session there is after a call was there before, remembers what it had pushed, and, if it is the
  -- one that the call is about, what the call pushes.
  abbrev pub Keeps :
      Bool × ℕ → Table (Bool × ℕ) (Session N) → List Bytes → Table (Bool × ℕ) (Session N) → Type 0
  Keeps k t out t' =
      (key : Bool × ℕ) (session' : Session N)
      → lookup key t' ≡ some session'
      → (session : Session N) × (lookup key t ≡ some session)
        × ((x : Bytes) → mem x session.pushed ≡ true → mem x session'.pushed ≡ true)
        × ((k =? key) ≡ true → (x : Bytes) → mem x out ≡ true → mem x session'.pushed ≡ true)

  same-Keeps : (k : Bool × ℕ) (t : Table (Bool × ℕ) (Session N)) → Keeps k t [] t
  same-Keeps k t key session' e = (session', e, λ x h. h, λ y x h. absurd cc (h))

  insert-Keeps :
      (k : Bool × ℕ) (t : Table (Bool × ℕ) (Session N)) (out : List Bytes)
      (session next : Session N)
      → lookup k t ≡ some session
      → ((x : Bytes) → mem x session.pushed ≡ true → mem x next.pushed ≡ true)
      → ((x : Bytes) → mem x out ≡ true → mem x next.pushed ≡ true)
      → Keeps k t out (insert k next t)
  insert-Keeps k t out session next found h g key session' e = elim (Bool-cases (k =? key)) [
    | inl y ↦
        let same : next ≡ session' = ground (arith, lookup-insert k key next t, e, y) in
        let here : lookup key t ≡ some session =
          subst (λ j. lookup j t ≡ some session) ((key_beq_iff k key).0 y) found in
        (
          session,
          here,
          λ x m. subst (λ s. mem x s.pushed ≡ true) same (h x m),
          λ _ x m. subst (λ s. mem x s.pushed ≡ true) same (g x m),
        )
    | inr y ↦ (
      session',
      ground (arith, lookup-insert k key next t, e, y),
      λ x m. m,
      λ z x m. absurd cc (y, z),
    )
  ]

  remove-Keeps :
      (k : Bool × ℕ) (t : Table (Bool × ℕ) (Session N)) (out : List Bytes)
      → Keeps k t out (remove k t)
  remove-Keeps k t out key session' e = elim (Bool-cases (k =? key)) [
    | inl y ↦ absurd ground (arith, lookup-remove k key t, e, y)
    | inr y ↦
        (session', ground (arith, lookup-remove k key t, e, y), λ x m. m, λ z x m. absurd cc (y, z))
  ]

module _ {O J N : Type 0} (c : Signing) (index : OrderIndex O) (journals : Journal J)
    (engines : Engine N) where
  -- What a call about a session pushes is without repetition and new to the session, and is remembered.
  pub record IsStep (s : Syncer N) (k : Bool × ℕ) (called : Outcome SyncError SyncOutput × Syncer N)
      : Type 0 where
    pub distinct : IsDistinct (pushed_ids c called.0)
    pub fresh :
        (x : Bytes)
        → mem x (pushed_ids c called.0) ≡ true
        → (session : Session N) × (lookup k s.sessions ≡ some session)
          × (mem x session.pushed ≡ false)
    pub kept : Keeps k s.sessions (pushed_ids c called.0) called.1.sessions

  silent-IsStep :
      (s s' : Syncer N) (k : Bool × ℕ) (r : Outcome SyncError SyncOutput)
      → pushed_ids c r ≡ []
      → Keeps k s.sessions [] s'.sessions
      → IsStep s k (r, s')
  silent-IsStep s s' k r e h = record {
    distinct = subst IsDistinct (sym e) tt;
    fresh = λ x m. absurd cc (m, ap (mem x) e);
    kept = subst (λ out. Keeps k s.sessions out s'.sessions) (sym e) h;
  }

  -- The ids that a round pushes are those that the filter lets through and the store has.
  pushes_ids :
      (store : EntryStore O J) (have : List Bytes) (ttl : ℕ) (quiet : Bool) (last : Message)
      → (quiet ≡ true → is_empty have ≡ true)
      → pushed_entries (last ∷ []) ≡ []
      → pushed_entries
          ((if quiet then [] else push_batches c index journals store have ttl) ++ (last ∷ []))
        ≡ found store have
  pushes_ids store have ttl true last h e = nothing have (h refl)
    where
      nothing :
          (have : List Bytes) → is_empty have ≡ true → pushed_entries (last ∷ []) ≡ found store have
      nothing [] q = e
      nothing (x ∷ xs) q = absurd cc
  pushes_ids store have ttl false last h e =
      pushed_entries-append (push_batches c index journals store have ttl) (last ∷ [])
      ∙ ap (λ r. pushed_entries (push_batches c index journals store have ttl) ++ r) e
      ∙ append-nil (pushed_entries (push_batches c index journals store have ttl))
      ∙ push_batches-entries c index journals store have ttl

  -- The ids pushed are among those that the filter lets through.
  among :
      (store : EntryStore O J) (have : List Bytes) (x : Bytes)
      → IsSound c index journals store
      → mem x (ids_of c (found store have)) ≡ true
      → mem x have ≡ true
  among store have x sound m = elim (Bool-cases (mem x have)) [
    | inl y ↦ y
    | inr y ↦ absurd cc (m, found_among c index journals store sound have x y)
  ]

  pushing-IsStep :
      (store : EntryStore O J) (s s' : Syncer N) (k : Bool × ℕ) (session : Session N)
      (ids : List Bytes) (output : SyncOutput)
      → IsSound c index journals store
      → lookup k s.sessions ≡ some session
      → pushed_entries output.replies ≡ found store (insert_new ids session.pushed).0
      → Keeps k s.sessions (insert_new ids session.pushed).0 s'.sessions
      → IsStep s k (ok output, s')
  pushing-IsStep store s s' k session ids output sound here e h =
      let have = (insert_new ids session.pushed).0 in
      let same : pushed_ids c (ok output) ≡ ids_of c (found store have) = ap (ids_of c) e in
      let old : (x : Bytes) → mem x (pushed_ids c (ok output)) ≡ true → mem x have ≡ true =
        λ x m. among store have x sound (subst (λ out. mem x out ≡ true) same m) in
      record {
        distinct = subst IsDistinct (sym same) (
            found-IsDistinct c index journals store sound have
              (insert_new-IsDistinct ids session.pushed));
        fresh =
            λ x m. (session, here, ground (arith, old x m, insert_new_kept ids session.pushed x));
        kept = λ key session' f.
            let (before, g, remembered, recorded) = h key session' f in
            (before, g, remembered, λ y x m. recorded y x (old x m));
      }

  finish_round-IsStep :
      (store : EntryStore O J) (k : Bool × ℕ) (session : Session N) (engine : N) (round : Round)
      (s : Syncer N)
      → IsSound c index journals store
      → lookup k s.sessions ≡ some session
      → IsStep s k (
        ok
            (finish_round c index journals engines store k
              (record session { engine = engine })
              round
              s).0,
        (finish_round c index journals engines store k
            (record session { engine = engine })
            round
            s).1,
      )
  unfolding finish_round
  finish_round-IsStep store k session engine round s sound here =
      let (have, pushed') = insert_new round.have session.pushed in
      let quiet = is_empty have && is_empty (insert_new round.need []).0 in
      let ttl = s.config.push_ttl in
      let next : Session N = record { engine = engine; pushed = pushed' } in
      elim (Option-cases round.reply) [
        | inl e ↦
            rw (e, finish_round)
              (pushing-IsStep store s _ k session round.have _ sound here
                (pushes_ids store have ttl quiet _ (and_left (is_empty have) _) refl)
                (remove-Keeps k s.sessions have))
        | inr (reply, e) ↦
            rw (e, finish_round)
              (pushing-IsStep store s _ k session round.have _ sound here
                (pushes_ids store have ttl quiet _ (and_left (is_empty have) _) refl)
                (insert-Keeps k s.sessions have session next here
                  (λ x m. ground (arith, m, insert_new_set round.have session.pushed x))
                  (λ x m. ground (
                    arith,
                    m,
                    insert_new_set round.have session.pushed x,
                    insert_new_kept round.have session.pushed x,
                  ))))
      ]

  pub handle_recon_msg-IsStep :
      (store : EntryStore O J) (rm : ReconMsg) (s : Syncer N)
      → IsSound c index journals store
      → IsStep s (session_key s rm.sid) (handle_recon_msg c index journals engines store rm s)
  unfolding handle_recon_msg
  handle_recon_msg-IsStep store rm s sound =
      let k = session_key s rm.sid in
      elim (Option-cases (lookup k s.sessions)) [
        | inl e ↦ rw (e, handle_recon_msg) (silent-IsStep s s k _ refl (same-Keeps k s.sessions))
        | inr (session, e) ↦
            let (r, engine') = engines.reconcile session.engine rm.msg in
            let next = record session { engine = engine' } in
            let failed =
              insert-Keeps k s.sessions [] session next e (λ x m. m) (λ x m. absurd cc (m)) in
            elim (Outcome-cases (engines.reconcile session.engine rm.msg).0) [
              | inl (round, f) ↦
                  rw (e, f, handle_recon_msg)
                    (finish_round-IsStep store k session engine' round s sound e)
              | inr (inl (x, f)) ↦ rw (e, f, handle_recon_msg) (silent-IsStep s _ k _ refl failed)
              | inr (inr f) ↦ rw (e, f, handle_recon_msg) (silent-IsStep s _ k _ refl failed)
            ]
      ]
