-- ===== src/Sync/Session/State.antt =====
-- The types of core/src/sync/session.rs and its methods that need no store.
use racnet.Prelude.{
  ℕ, ◌-◌, ◌%◌, Bool, true, false, not, ◌&&◌, Bytes, List, [], ◌∷◌, Option, none, some, length, ◌==◌,
  if◌then◌else◌, Outcome, ok, err, Hashable, ◌=?◌, bytes_eq, Table, contains_key, remove, ◌↔◌, ◌≡◌,
  arith,
}
use racnet.Sync.Error.{SyncError, violation}
use racnet.Wire.Payload.{ReconDone}
use racnet.Wire.Msg.{Message}
use racnet.Store.{Item}

abbrev pub push_batch_budget : ℕ
push_batch_budget = 32768

pub data LinkRole : Type 0 where
  initiator responder : LinkRole

pub record SyncConfig : Type 0 where
  pub frame_limit : Option ℕ
  pub push_ttl : ℕ
  pub max_sessions : ℕ

pub data SyncEvent : Type 0 where
  stored : Bytes → SyncEvent
  duplicate_ignored : Bytes → SyncEvent
  reconciled : (sid : ℕ) (have need : List Bytes) → SyncEvent
  session_closed : (sid : ℕ) (opened_by_us : Bool) → SyncEvent

pub record SyncOutput : Type 0 where
  pub replies : List Message
  pub events : List SyncEvent

pub record Round : Type 0 where
  pub reply : Option Bytes
  pub have : List Bytes
  pub need : List Bytes

-- `Negentropy::new` over `SealedVec::new` of a snapshot, `initiate` and `reconcile`; an engine that
-- a call changed comes back beside the result.
pub record Engine (N : Type 0) : Type 0 where
  pub new : List Item → Option ℕ → Outcome SyncError N
  pub initiate : N → Outcome SyncError (Bytes × N)
  pub reconcile : N → Bytes → Outcome SyncError Round × N

pub record Session (N : Type 0) : Type 0 where
  pub engine : N
  pub pushed : List Bytes

abbrev bool_beq : Bool → Bool → Bool
bool_beq true b = b
bool_beq false b = not b

abbrev key_beq : Bool × ℕ → Bool × ℕ → Bool
key_beq (a, m) (b, n) = bool_beq a b && (m == n)

pub key_beq_iff : (k j : Bool × ℕ) → (key_beq k j ≡ true) ↔ (k ≡ j)
key_beq_iff (true, m) (true, n) = ground arith
key_beq_iff (true, m) (false, n) = (λ e. cc, λ e. cc)
key_beq_iff (false, m) (true, n) = (λ e. cc, λ e. cc)
key_beq_iff (false, m) (false, n) = ground arith

instance abbrev pub key_eq : Hashable (Bool × ℕ)
key_eq = record { same = key_beq; same_iff = key_beq_iff }

pub record Syncer (N : Type 0) : Type 0 where
  pub role : LinkRole
  pub config : SyncConfig
  pub sessions : Table (Bool × ℕ) (Session N)
  pub next_sid : ℕ

unfoldable pub parity : LinkRole → ℕ
parity initiator = 0
parity responder = 1

unfoldable pub new : {N : Type 0} → LinkRole → SyncConfig → Syncer N
new role config = record { role = role; config = config; sessions = []; next_sid = parity role }

unfoldable pub open_sessions : {N : Type 0} → Syncer N → ℕ
open_sessions s = length s.sessions

unfoldable pub our_parity : {N : Type 0} → Syncer N → ℕ
our_parity s = parity s.role

unfoldable pub peer_parity : {N : Type 0} → Syncer N → ℕ
peer_parity s = 1 - our_parity s

unfoldable pub session_key : {N : Type 0} → Syncer N → ℕ → Bool × ℕ
session_key s sid = (sid % 2 == our_parity s, sid)

-- `contains` of a set, and the elements that `filter(|id| set.insert(*id))` lets through with the set
-- after them.
abbrev pub is_empty : List Bytes → Bool
is_empty [] = true
is_empty (x ∷ xs) = false

abbrev pub mem : Bytes → List Bytes → Bool
mem x [] = false
mem x (y ∷ ys) = if y =? x then true else mem x ys

unfoldable pub insert_new : List Bytes → List Bytes → List Bytes × List Bytes
insert_new [] set = ([], set)
insert_new (x ∷ xs) set =
    let (kept, set') = insert_new xs (if mem x set then set else x ∷ set) in
    (if mem x set then kept else x ∷ kept, set')

-- `abort_session`
unfoldable pub abort_session : {N : Type 0} → ℕ → Syncer N → Option Message × Syncer N
abort_session sid s =
    if contains_key (true, sid) s.sessions
    then (
      some (Message.recon_done (record { sid = sid })),
      record s { sessions = remove (true, sid) s.sessions },
    )
    else (none, s)

unfoldable pub handle_done :
    {N : Type 0} → ReconDone → Syncer N → Outcome SyncError SyncOutput × Syncer N
handle_done done s =
    let key = session_key s done.sid in
    if contains_key key s.sessions
    then (
      ok (record { replies = []; events = session_closed done.sid key.0 ∷ [] }),
      record s { sessions = remove key s.sessions },
    )
    else (err violation, s)
