-- ===== src/Sync/Session/Sids.antt =====
-- The session table of core/src/sync/session.rs: its size and the parity of session ids.
use racnet.Prelude.{
  ℕ, ◌+◌, ◌-◌, ◌%◌, ◌^◌, ◌≤◌, ◌<◌, ◌≡◌, inl, inr, refl, Bool, true, false, not, some, length, leb,
  ◌==◌, arith, ==_iff, Table, lookup, insert, remove, contains_key, HasDistinctKeys,
  HasDistinctKeys-insert, HasDistinctKeys-remove, AllKeys, AllKeys-insert, AllKeys-remove,
  length-insert_new, length-insert_found, length-remove, Bool-cases, Option-cases, Outcome-cases,
  leb→gt,
}
use racnet.Wire.Payload.{SortKeyWindow, ReconInit, ReconMsg, ReconDone}
use racnet.Wire.Entry.{Signing}
use racnet.Store.{OrderIndex, Journal, EntryStore}
use racnet.Sync.Session.{
  key_eq, LinkRole, initiator, responder, SyncConfig, Session, Syncer, Round, Engine, parity,
  our_parity, peer_parity, session_key, new, begin, answer, open_session, abort_session,
  handle_init, handle_recon_msg, handle_done, finish_round,
}

-- There are not more sessions than the cap, each key stands once, a session is marked as ours exactly when
-- its id has our parity, and so has the next id that we give.
pub record IsValid {N : Type 0} (s : Syncer N) : Type 0 where
  pub distinct : HasDistinctKeys s.sessions
  pub capped : length s.sessions ≤ s.config.max_sessions
  pub directed : AllKeys (λ key. key ≡ session_key s key.1) s.sessions
  pub next_ours : s.next_sid % 2 ≡ our_parity s

new-IsValid :
    {N : Type 0} (role : LinkRole) (config : SyncConfig) → IsValid (new {N = N} role config)
unfolding new our_parity parity
new-IsValid initiator config = record {
  distinct = tt;
  capped = omega arith;
  directed = tt;
  next_ours = refl;
}
new-IsValid responder config = record {
  distinct = tt;
  capped = omega arith;
  directed = tt;
  next_ours = refl;
}

other_parity :
    (role : LinkRole) (n : ℕ) → not (n == 1 - parity role) ≡ false → (n == parity role) ≡ false
unfolding parity
other_parity initiator n h = ground arith
other_parity responder n h = ground arith

module _ {N : Type 0} where
  closed-IsValid :
      (key : Bool × ℕ) (s : Syncer N)
      → IsValid s
      → IsValid (record s { sessions = remove key s.sessions })
  unfolding session_key our_parity
  closed-IsValid key s v = record {
    distinct = HasDistinctKeys-remove key s.sessions v.distinct;
    capped = omega (arith, length-remove key s.sessions, v.capped);
    directed = AllKeys-remove _ key s.sessions v.directed;
    next_ours = v.next_ours;
  }

  opened-IsValid :
      (key : Bool × ℕ) (session : Session N) (s : Syncer N)
      → IsValid s
      → length s.sessions < s.config.max_sessions
      → key ≡ session_key s key.1
      → IsValid (record s { sessions = insert key session s.sessions })
  unfolding session_key our_parity
  opened-IsValid key session s v room d = record {
    distinct = HasDistinctKeys-insert key session s.sessions v.distinct;
    capped = elim (Option-cases (lookup key s.sessions)) [
      | inl e ↦ omega (arith, length-insert_new key session s.sessions e)
      | inr (old, e) ↦ omega (arith, length-insert_found key session old s.sessions e)
    ];
    directed = AllKeys-insert _ key session s.sessions d v.directed;
    next_ours = v.next_ours;
  }

  peer_directed :
      (s : Syncer N) (sid : ℕ)
      → not (sid % 2 == peer_parity s) ≡ false
      → (false, sid) ≡ session_key s sid
  unfolding session_key our_parity peer_parity
  peer_directed s sid h = rw (other_parity s.role (sid % 2) h) refl

  our_directed : (s : Syncer N) (sid : ℕ) → sid % 2 ≡ our_parity s → (true, sid) ≡ session_key s sid
  unfolding session_key
  our_directed s sid h = rw ((==_iff (sid % 2) (our_parity s)).1 h) refl

  next-IsValid :
      (s : Syncer N) (sessions : Table (Bool × ℕ) (Session N))
      → IsValid s
      → IsValid (record s { sessions = sessions })
      → IsValid (record s { next_sid = (s.next_sid + 2) % 2 ^ 64; sessions = sessions })
  unfolding session_key our_parity
  next-IsValid s sessions v v' = record {
    distinct = v'.distinct;
    capped = v'.capped;
    directed = v'.directed;
    next_ours = omega (arith, v.next_ours);
  }

  changed-IsValid :
      (key : Bool × ℕ) (session old : Session N) (s : Syncer N)
      → IsValid s
      → lookup key s.sessions ≡ some old
      → key ≡ session_key s key.1
      → IsValid (record s { sessions = insert key session s.sessions })
  unfolding session_key our_parity
  changed-IsValid key session old s v found d = record {
    distinct = HasDistinctKeys-insert key session s.sessions v.distinct;
    capped = omega (arith, length-insert_found key session old s.sessions found, v.capped);
    directed = AllKeys-insert _ key session s.sessions d v.directed;
    next_ours = v.next_ours;
  }

module _ {O J N : Type 0} (c : Signing) (index : OrderIndex O) (journals : Journal J)
    (engines : Engine N) where
  -- A call on a syncer, whatever it answers.
  pub data Step (store : EntryStore O J) : Syncer N → Syncer N → Type 0 where
    opens :
        (s : Syncer N) (window : SortKeyWindow)
        → Step store s (open_session c index journals engines store window s).1
    aborts : (s : Syncer N) (sid : ℕ) → Step store s (abort_session sid s).1
    handles_init :
        (s : Syncer N) (init : ReconInit)
        → Step store s (handle_init c index journals engines store init s).1
    handles_msg :
        (s : Syncer N) (rm : ReconMsg)
        → Step store s (handle_recon_msg c index journals engines store rm s).1
    handles_done : (s : Syncer N) (done : ReconDone) → Step store s (handle_done done s).1

  open_session-IsValid :
      (store : EntryStore O J) (window : SortKeyWindow) (s : Syncer N)
      → IsValid s
      → IsValid (open_session c index journals engines store window s).1
  unfolding open_session
  open_session-IsValid store window s v =
      elim (Bool-cases (leb s.config.max_sessions (length s.sessions))) [
        | inl full ↦ rw full v
        | inr room ↦ elim (Outcome-cases (begin c index journals engines store window s)) [
          | inl (r, e) ↦
              rw (room, e)
                (next-IsValid s _ v (
                  opened-IsValid (true, s.next_sid) _ s v (leb→gt _ _ room)
                    (our_directed s s.next_sid v.next_ours)))
          | inr (inl (x, e)) ↦ rw (room, e) v
          | inr (inr e) ↦ rw (room, e) v
        ]
      ]

  abort_session-IsValid : (sid : ℕ) (s : Syncer N) → IsValid s → IsValid (abort_session sid s).1
  unfolding abort_session
  abort_session-IsValid sid s v = elim (Bool-cases (contains_key (true, sid) s.sessions)) [
    | inl e ↦ rw e (closed-IsValid (true, sid) s v)
    | inr e ↦ rw e v
  ]

  handle_done-IsValid :
      (done : ReconDone) (s : Syncer N) → IsValid s → IsValid (handle_done done s).1
  unfolding handle_done
  handle_done-IsValid done s v =
      elim (Bool-cases (contains_key (session_key s done.sid) s.sessions)) [
        | inl e ↦ rw e (closed-IsValid (session_key s done.sid) s v)
        | inr e ↦ rw e v
      ]

  handle_init-IsValid :
      (store : EntryStore O J) (init : ReconInit) (s : Syncer N)
      → IsValid s
      → IsValid (handle_init c index journals engines store init s).1
  unfolding handle_init
  handle_init-IsValid store init s v = elim (Bool-cases (not (init.sid % 2 == peer_parity s))) [
    | inl ours ↦ rw ours v
    | inr theirs ↦ elim (Bool-cases (contains_key (false, init.sid) s.sessions)) [
      | inl old ↦ rw (theirs, old) v
      | inr fresh ↦ elim (Bool-cases (leb s.config.max_sessions (length s.sessions))) [
        | inl full ↦ rw (theirs, fresh, full) v
        | inr room ↦ elim (Outcome-cases (answer c index journals engines store init s)) [
          | inl (r, e) ↦
              rw (theirs, fresh, room, e)
                (opened-IsValid (false, init.sid) _ s v (leb→gt _ _ room)
                  (peer_directed s init.sid theirs))
          | inr (inl (x, e)) ↦ rw (theirs, fresh, room, e) v
          | inr (inr e) ↦ rw (theirs, fresh, room, e) v
        ]
      ]
    ]
  ]

  finish_round-IsValid :
      (store : EntryStore O J) (key : Bool × ℕ) (session old : Session N) (round : Round)
      (s : Syncer N)
      → IsValid s
      → lookup key s.sessions ≡ some old
      → key ≡ session_key s key.1
      → IsValid (finish_round c index journals engines store key session round s).1
  unfolding finish_round
  finish_round-IsValid store key session old round s v found d = elim (Option-cases round.reply) [
    | inl e ↦ rw e (closed-IsValid key s v)
    | inr (reply, e) ↦ rw e (changed-IsValid key _ old s v found d)
  ]

  handle_recon_msg-IsValid :
      (store : EntryStore O J) (rm : ReconMsg) (s : Syncer N)
      → IsValid s
      → IsValid (handle_recon_msg c index journals engines store rm s).1
  unfolding handle_recon_msg session_key
  handle_recon_msg-IsValid store rm s v =
      let key = session_key s rm.sid in
      elim (Option-cases (lookup key s.sessions)) [
        | inl e ↦ rw (e, handle_recon_msg) v
        | inr (old, e) ↦ elim (Outcome-cases (engines.reconcile old.engine rm.msg).0) [
          | inl (round, f) ↦
              rw (e, f, handle_recon_msg) (finish_round-IsValid store key _ old round s v e refl)
          | inr (inl (x, f)) ↦ rw (e, f, handle_recon_msg) (changed-IsValid key _ old s v e refl)
          | inr (inr f) ↦ rw (e, f, handle_recon_msg) (changed-IsValid key _ old s v e refl)
        ]
      ]

  Step-IsValid :
      (store : EntryStore O J) {s s' : Syncer N} → Step store s s' → IsValid s → IsValid s'
  Step-IsValid store (opens s window) v = open_session-IsValid store window s v
  Step-IsValid store (aborts s sid) v = abort_session-IsValid sid s v
  Step-IsValid store (handles_init s init) v = handle_init-IsValid store init s v
  Step-IsValid store (handles_msg s rm) v = handle_recon_msg-IsValid store rm s v
  Step-IsValid store (handles_done s done) v = handle_done-IsValid done s v

  -- Any calls on a new syncer, each with the store as it is then.
  pub data Opened (role : LinkRole) (config : SyncConfig) : Syncer N → Type 0 where
    starts : Opened role config (new role config)
    goes_on :
        (store : EntryStore O J) (s s' : Syncer N)
        → Opened role config s
        → Step store s s'
        → Opened role config s'

  -- After any calls on a new syncer there are not more open sessions than the cap, no two with one key,
  -- and a session is held as opened by us exactly when its id has the parity of our role.
  pub Opened-IsValid :
      (role : LinkRole) (config : SyncConfig) (s : Syncer N) → Opened role config s → IsValid s
  Opened-IsValid role config s starts = new-IsValid role config
  Opened-IsValid role config _ (goes_on store s s' r step) =
      Step-IsValid store step (Opened-IsValid role config s r)
