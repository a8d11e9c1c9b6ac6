-- ===== src/Sync/Session/Repeats.antt =====
-- What the rounds of a session of core/src/sync/session.rs push, over any messages.
use racnet.Prelude.{
  ◌≡◌, inl, inr, refl, sym, ◌∙◌, subst, Bool, true, false, ℕ, List, [], ◌∷◌, ◌++◌, Bytes,
  if◌then◌else◌, bytes_eq, arith, Bool-cases, some, Outcome, lookup, ◌=?◌,
}
use racnet.Wire.Entry.{Signing}
use racnet.Wire.Payload.{ReconMsg}
use racnet.Store.{OrderIndex, Journal, EntryStore}
use racnet.Store.Held.{IsSound}
use racnet.Sync.Error.{SyncError}
use racnet.Sync.Session.{
  key_eq, key_beq_iff, mem, Session, Syncer, SyncOutput, Engine, session_key, handle_recon_msg,
}
use racnet.Sync.Session.Once.{IsDistinct, mem-append, IsDistinct-append}
use racnet.Sync.Session.Rounds.{pushed_ids, IsStep, handle_recon_msg-IsStep}

module _ {O J N : Type 0} (c : Signing) (index : OrderIndex O) (journals : Journal J)
    (engines : Engine N) where
  -- What reconciliation messages, each with the store that it finds, push in the session with a key.
  abbrev pub session_pushes : Bool × ℕ → List (EntryStore O J × ReconMsg) → Syncer N → List Bytes
  session_pushes key [] s = []
  session_pushes key ((store, rm) ∷ rest) s =
      let (r, s') = handle_recon_msg c index journals engines store rm s in
      let out = if session_key s rm.sid =? key then pushed_ids c r else [] in
      out ++ session_pushes key rest s'

  abbrev pub AllSound : List (EntryStore O J × ReconMsg) → Type 0
  AllSound [] = Unit {0}
  AllSound ((store, rm) ∷ rest) = IsSound c index journals store × AllSound rest

  -- What the session with the key has pushed is in its set.
  abbrev Remembers : Bool × ℕ → List Bytes → Syncer N → Type 0
  Remembers key old s =
      (session : Session N)
      → lookup key s.sessions ≡ some session
      → (x : Bytes) → mem x old ≡ true
      → mem x session.pushed ≡ true

  module _ (s : Syncer N) (k key : Bool × ℕ) (called : Outcome SyncError SyncOutput × Syncer N)
      (step : IsStep c index journals engines s k called) where
    old_stays : (old : List Bytes) → Remembers key old s → Remembers key old called.1
    old_stays old h session' f x m =
        let (session, e, remembered, recorded) = step.kept key session' f in
        remembered x (h session e x m)

    new_kept : (k =? key) ≡ true → Remembers key (pushed_ids c called.0) called.1
    new_kept y session' f x m =
        let (session, e, remembered, recorded) = step.kept key session' f in recorded y x m

    step_new :
        (old : List Bytes) (x : Bytes)
        → (k =? key) ≡ true
        → Remembers key old s
        → mem x old ≡ true
        → mem x (pushed_ids c called.0) ≡ false
    step_new old x y h m = elim (Bool-cases (mem x (pushed_ids c called.0))) [
      | inr z ↦ z
      | inl z ↦
          let (session, e, f) = step.fresh x z in
          let e' : lookup key s.sessions ≡ some session =
            subst (λ j. lookup j s.sessions ≡ some session) ((key_beq_iff k key).0 y) e in
          absurd cc (h session e' x m, f)
    ]

  -- Nothing that is remembered is pushed again.
  pushes_new :
      (key : Bool × ℕ) (calls : List (EntryStore O J × ReconMsg)) (s : Syncer N) (old : List Bytes)
      (x : Bytes)
      → AllSound calls
      → Remembers key old s
      → mem x old ≡ true
      → mem x (session_pushes key calls s) ≡ false
  pushes_new key [] s old x sound h m = refl
  pushes_new key ((store, rm) ∷ rest) s old x (sound, sounds) h m =
      let k = session_key s rm.sid in
      let called = handle_recon_msg c index journals engines store rm s in
      let step = handle_recon_msg-IsStep c index journals engines store rm s sound in
      let later =
        pushes_new key rest called.1 old x sounds (old_stays s k key called step old h) m in
      elim (Bool-cases (k =? key)) [
        | inl y ↦
            subst
              (λ b.
                mem x
                  ((if b then pushed_ids c called.0 else []) ++ session_pushes key rest called.1)
                ≡ false)
              (sym y)
              (mem-append x (pushed_ids c called.0) (session_pushes key rest called.1)
                ∙ ground (arith, step_new s k key called step old x y h m, later))
        | inr y ↦
            subst
              (λ b.
                mem x
                  ((if b then pushed_ids c called.0 else []) ++ session_pushes key rest called.1)
                ≡ false)
              (sym y) later
      ]

  -- Over any reconciliation messages, for this session and for others, each with a sound store, no entry
  -- is pushed twice in a session: the ids of the entries pushed in it are distinct.
  pub session_pushes-IsDistinct :
      (key : Bool × ℕ) (calls : List (EntryStore O J × ReconMsg)) (s : Syncer N)
      → AllSound calls
      → IsDistinct (session_pushes key calls s)
  session_pushes-IsDistinct key [] s sound = tt
  session_pushes-IsDistinct key ((store, rm) ∷ rest) s (sound, sounds) =
      let k = session_key s rm.sid in
      let called = handle_recon_msg c index journals engines store rm s in
      let step = handle_recon_msg-IsStep c index journals engines store rm s sound in
      let later = session_pushes-IsDistinct key rest called.1 sounds in
      elim (Bool-cases (k =? key)) [
        | inl y ↦
            subst
              (λ b.
                IsDistinct
                  ((if b then pushed_ids c called.0 else []) ++ session_pushes key rest called.1))
              (sym y)
              (IsDistinct-append (pushed_ids c called.0) (session_pushes key rest called.1)
                step.distinct later
                (λ x m.
                  pushes_new key rest called.1 (pushed_ids c called.0) x sounds
                    (new_kept s k key called step y) m))
        | inr y ↦
            subst
              (λ b.
                IsDistinct
                  ((if b then pushed_ids c called.0 else []) ++ session_pushes key rest called.1))
              (sym y) later
      ]
