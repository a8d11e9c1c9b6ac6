-- ===== src/Sync/Session.antt =====
-- core/src/sync/session.rs: the manager of the reconciliation sessions of one link. The Negentropy
-- engine of core/src/sync/negentropy/mod.rs is the interface `Engine`, and ordered sets of ids
-- are lists without repetition. The texts of the violations are left out.
pub mod Answered
pub mod Once
pub mod Rounds
pub mod Repeats
pub mod Push
pub mod Sids
mod State
unfoldable pub use State.*
use racnet.Prelude.{
  ℕ, ◌+◌, ◌-◌, ◌%◌, ◌^◌, Bool, true, false, not, ◌&&◌, ◌||◌, Bytes, List, [], ◌∷◌, ◌++◌, Option,
  none, some, length, ltb, leb, ◌==◌, if◌then◌else◌, Outcome, ok, err, panic, expect, ◌>>=◌,
  Hashable, ◌=?◌, bytes_eq, Table, lookup, contains_key, insert, remove, ◌↔◌, ◌≡◌, ==_iff, arith,
  map,
}
use racnet.Sync.Error.{SyncError, violation}
use racnet.Sync.Error
use racnet.Wire.Payload.{Entry, GossipPush, SortKeyWindow, ReconInit, ReconMsg, ReconDone}
use racnet.Wire.Msg.{Message}
use racnet.Wire.Entry
use racnet.Wire.Entry.{Signing}
use racnet.Store
use racnet.Store.{Item, StoreError, OrderIndex, Journal, EntryStore, insert_entry, get, snapshot}

-- The arms of the `match` in `handle_push`.
unfoldable pub push_error : StoreError → SyncError
push_error Store.storage = Error.storage
push_error Store.capacity = Error.resource_limit
push_error Store.bad_signature = violation
push_error Store.sort_key_reserved = violation

module _ {O J : Type 0} (c : Signing) (index : OrderIndex O) (journals : Journal J) where
  -- The loop of `handle_push`: the events come back with the store, also on failure.
  unfoldable pub push_entries :
      List Entry → EntryStore O J → Outcome SyncError (Unit {0}) × EntryStore O J × List SyncEvent
  push_entries [] store = (ok tt, store, [])
  push_entries (entry ∷ entries) store =
      let id = Entry.id c entry in
      let (r, store') = insert_entry c index journals entry store in
      let (result, store'', events) = push_entries entries store' in
      elim r [
        | ok true ↦ (result, store'', stored id ∷ events)
        | ok false ↦ (result, store'', duplicate_ignored id ∷ events)
        | err e ↦ (err (push_error e), store', [])
        | panic ↦ (panic, store', [])
      ]

  abbrev push_message : List Entry → ℕ → Message
  push_message batch ttl = Message.gossip_push (record { entries = batch; ttl = ttl })

  -- The loop of `push_batches`, with the batch that is filled and its size; what is left of the batch
  -- is sent at the end.
  unfoldable pub batches_from : EntryStore O J → ℕ → List Bytes → List Entry → ℕ → List Message
  batches_from store ttl [] [] size = []
  batches_from store ttl [] (e ∷ batch) size = push_message (e ∷ batch) ttl ∷ []
  batches_from store ttl (id ∷ ids) batch size = elim (get store id) [
    | none ↦ batches_from store ttl ids batch size
    | some entry ↦
        let more = length (Entry.to_bytes c entry) in
        let joined = batches_from store ttl ids (batch ++ (entry ∷ [])) (size + more) in
        let fresh = batches_from store ttl ids (entry ∷ []) more in
        if ltb 0 (length batch) && ltb push_batch_budget (size + more)
        then push_message batch ttl ∷ fresh
        else joined
  ]

  unfoldable pub push_batches : EntryStore O J → List Bytes → ℕ → List Message
  push_batches store ids ttl = batches_from store ttl ids [] 0

  module _ {N : Type 0} (engines : Engine N) where
    -- A new engine over a snapshot, with its first message.
    unfoldable pub begin : EntryStore O J → SortKeyWindow → Syncer N → Outcome SyncError (Bytes × N)
    begin store window s = do
      items ← expect (snapshot index store window)
      engine ← engines.new items s.config.frame_limit
      engines.initiate engine

    -- A new engine over a snapshot, and its reply to the first message.
    unfoldable pub answer : EntryStore O J → ReconInit → Syncer N → Outcome SyncError (Bytes × N)
    answer store init s = do
      items ← expect (snapshot index store init.window)
      engine ← engines.new items s.config.frame_limit
      let (r, engine') = engines.reconcile engine init.msg
      round ← r
      reply ← expect round.reply
      ok (reply, engine')

    unfoldable pub open_session :
        EntryStore O J → SortKeyWindow → Syncer N → Outcome SyncError (ℕ × Message) × Syncer N
    open_session store window s =
        if leb s.config.max_sessions (length s.sessions)
        then (err Error.resource_limit, s)
        else elim (begin store window s) [
          | err e ↦ (err e, s)
          | panic ↦ (panic, s)
          | ok (msg, engine) ↦
              let sid = s.next_sid in
              let init : ReconInit = record { sid = sid; window = window; msg = msg } in
              (
                ok (sid, Message.recon_init init),
                record s {
                  next_sid = (sid + 2) % 2 ^ 64;
                  sessions =
                      insert (true, sid) (record { engine = engine; pushed = [] }) s.sessions;
                },
              )
        ]

    unfoldable pub handle_init :
        EntryStore O J → ReconInit → Syncer N → Outcome SyncError SyncOutput × Syncer N
    handle_init store init s =
        if not (init.sid % 2 == peer_parity s)
        then (err violation, s)
        else if contains_key (false, init.sid) s.sessions
        then (err violation, s)
        else if leb s.config.max_sessions (length s.sessions)
        then (err Error.resource_limit, s)
        else elim (answer store init s) [
          | err e ↦ (err e, s)
          | panic ↦ (panic, s)
          | ok (reply, engine) ↦ (
            ok (record {
              replies = Message.recon_msg (record { sid = init.sid; msg = reply }) ∷ [];
              events = [];
            }),
            record s {
              sessions =
                  insert (false, init.sid) (record { engine = engine; pushed = [] }) s.sessions;
            },
          )
        ]

    -- What `handle_recon_msg` does with a round: the ids that are new to the session are pushed, and
    -- the session goes on with the reply or is closed.
    unfoldable pub finish_round :
        EntryStore O J → Bool × ℕ → Session N → Round → Syncer N → SyncOutput × Syncer N
    finish_round store key session round s =
        let (have, pushed') = insert_new round.have session.pushed in
        let (need, seen) = insert_new round.need [] in
        let sid = key.1 in
        let quiet = is_empty have && is_empty need in
        let events = if quiet then [] else reconciled sid have need ∷ [] in
        let pushes = if quiet then [] else push_batches store have s.config.push_ttl in
        elim round.reply [
          | some reply ↦ (
            record {
              replies = pushes ++ (Message.recon_msg (record { sid = sid; msg = reply }) ∷ []);
              events = events;
            },
            record s { sessions = insert key (record session { pushed = pushed' }) s.sessions },
          )
          | none ↦ (
            record {
              replies = pushes ++ (Message.recon_done (record { sid = sid }) ∷ []);
              events = events ++ (session_closed sid key.0 ∷ []);
            },
            record s { sessions = remove key s.sessions },
          )
        ]

    unfoldable pub handle_recon_msg :
        EntryStore O J → ReconMsg → Syncer N → Outcome SyncError SyncOutput × Syncer N
    handle_recon_msg store rm s =
        let key = session_key s rm.sid in
        elim (lookup key s.sessions) [
          | none ↦ (err violation, s)
          | some session ↦
              let (r, engine') = engines.reconcile session.engine rm.msg in
              let session' = record session { engine = engine' } in
              let failed = record s { sessions = insert key session' s.sessions } in
              elim r [
                | err e ↦ (err e, failed)
                | panic ↦ (panic, failed)
                | ok round ↦
                    let (output, s') = finish_round store key session' round s in (ok output, s')
              ]
        ]

    -- `output.replies.extend(next.replies)` and the same of the events, where a handler succeeds.
    abbrev extend :
        SyncOutput
        → Outcome SyncError SyncOutput × Syncer N
        → Outcome SyncError (Unit {0}) × Syncer N × SyncOutput
    extend output (ok next, s) = (
      ok tt,
      s,
      record { replies = output.replies ++ next.replies; events = output.events ++ next.events },
    )
    extend output (err e, s) = (err e, s, output)
    extend output (panic, s) = (panic, s, output)

    abbrev with_store :
        EntryStore O J
        → Outcome SyncError (Unit {0}) × Syncer N × SyncOutput
        → Outcome SyncError (Unit {0}) × Syncer N × EntryStore O J × SyncOutput
    with_store store (r, s, output) = (r, s, store, output)

    unfoldable pub handle_message_into :
        Message
        → Syncer N
        → EntryStore O J
        → SyncOutput
        → Outcome SyncError (Unit {0}) × Syncer N × EntryStore O J × SyncOutput
    handle_message_into (Message.gossip_push push) s store output =
        let (r, store', events) = push_entries push.entries store in
        (r, s, store', record output { events = output.events ++ events })
    handle_message_into (Message.recon_init init) s store output =
        with_store store (extend output (handle_init store init s))
    handle_message_into (Message.recon_msg rm) s store output =
        with_store store (extend output (handle_recon_msg store rm s))
    handle_message_into (Message.recon_done done) s store output =
        with_store store (extend output (handle_done done s))
    handle_message_into (Message.hello h) s store output = (err violation, s, store, output)
    handle_message_into (Message.handshake h) s store output = (err violation, s, store, output)
    handle_message_into (Message.error e) s store output = (err violation, s, store, output)
