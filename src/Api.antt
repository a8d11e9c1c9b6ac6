-- ===== src/Api.antt =====
-- core/src/api/mod.rs: what a node hands to its caller. The texts of the reasons in `ApiError` are left
-- out, and what is not checked there is the entropy behind an identity.
pub mod Node
pub mod Calls
pub mod Links
pub mod Finality
pub mod Told
pub mod Steps
pub mod Lifetimes
pub mod Held
pub mod Runs
use racnet.Prelude.{
  ℕ, Bool, true, false, Bytes, List, [], ◌∷◌, Option, none, some, Outcome, ok, panic, expect, ◌>>=◌,
  lookup, bytes_eq,
}
use racnet.Wire.Payload.{Entry, SortKeyWindow}
use racnet.Wire.Entry
use racnet.Wire.Entry.{Signing}
use racnet.Store.{Item, OrderIndex, EntryStore, get, snapshot}
use racnet.Sync.Session.{SyncEvent}
use racnet.Link.Driver.{CloseReason, LinkEvent}
use racnet.Link.Driver

pub record Identity : Type 0 where
  pub noise_seed : Bytes
  pub signing_seed : Bytes

pub record SyncWindow : Type 0 where
  pub since_ms : ℕ
  pub until_ms : ℕ

-- `From<SyncWindow> for SortKeyWindow`
abbrev pub to_window : SyncWindow → SortKeyWindow
to_window window = record { since = window.since_ms; until = window.until_ms }

pub data CloseCause : Type 0 where
  version_incompatible handshake_failed bad_ciphertext_length decrypt_failed : CloseCause
  protocol_violation peer_error : (code : ℕ) → CloseCause
  lifetime_expired nonce_exhausted transport_closed handshake_timeout : CloseCause

pub data Event : Type 0 where
  established : (link_id : ℕ) (remote_fingerprint : Bytes) → Event
  entry_stored : (link_id : ℕ) (entry_id : Bytes) → Event
  duplicate_ignored : (link_id : ℕ) (entry_id : Bytes) → Event
  reconciled : (link_id session_id : ℕ) (have need : List Bytes) → Event
  sync_session_closed : (link_id session_id : ℕ) (opened_by_us : Bool) → Event
  closed : (link_id : ℕ) (cause : CloseCause) → Event

pub data ApiError : Type 0 where
  storage invalid_identity unknown_link not_established sync_refused invalid_argument entropy :
      ApiError

pub record LinkOpen : Type 0 where
  pub link_id : ℕ
  pub initial_frames : List Bytes

pub record LinkIo : Type 0 where
  pub frames : List Bytes
  pub events : List Event

pub record SyncStart : Type 0 where
  pub session_id : ℕ
  pub io : LinkIo

pub record EntryView : Type 0 where
  pub id : Bytes
  pub author : Bytes
  pub sort_key_ms : ℕ
  pub kind : ℕ
  pub payload : Bytes

pub record LinkStatus : Type 0 where
  pub is_established : Bool
  pub remote_fingerprint : Option Bytes

unfoldable pub close_cause : CloseReason → CloseCause
close_cause Driver.version_incompatible = version_incompatible
close_cause Driver.handshake_failed = handshake_failed
close_cause Driver.handshake_timeout = handshake_timeout
close_cause Driver.bad_ciphertext_length = bad_ciphertext_length
close_cause Driver.decrypt_failed = decrypt_failed
close_cause (Driver.protocol_violation code) = protocol_violation code
close_cause (Driver.peer_error code) = peer_error code
close_cause Driver.lifetime_expired = lifetime_expired
close_cause Driver.nonce_exhausted = nonce_exhausted

unfoldable pub map_event : ℕ → LinkEvent → Event
map_event link_id (LinkEvent.established remote) = Event.established link_id remote
map_event link_id (LinkEvent.sync (SyncEvent.stored id)) = Event.entry_stored link_id id
map_event link_id (LinkEvent.sync (SyncEvent.duplicate_ignored id)) =
    Event.duplicate_ignored link_id id
map_event link_id (LinkEvent.sync (SyncEvent.reconciled sid have need)) =
    Event.reconciled link_id sid have need
map_event link_id (LinkEvent.sync (SyncEvent.session_closed sid opened_by_us)) =
    Event.sync_session_closed link_id sid opened_by_us
map_event link_id (LinkEvent.closed reason) = Event.closed link_id (close_cause reason)

unfoldable pub entry_view : Signing → Entry → EntryView
entry_view c entry = record {
  id = Entry.id c entry;
  author = entry.author;
  sort_key_ms = entry.sort_key;
  kind = entry.kind;
  payload = entry.payload;
}

module _ {O J : Type 0} (c : Signing) (index : OrderIndex O) where
  -- `filter_map` with `get`, and the views.
  unfoldable pub views : EntryStore O J → List Item → List EntryView
  views store [] = []
  views store (item ∷ items) = elim (get store item.id) [
    | none ↦ views store items
    | some entry ↦ entry_view c entry ∷ views store items
  ]

  -- `none` is a panic of the snapshot.
  unfoldable pub entries_in_window : EntryStore O J → SyncWindow → Option (List EntryView)
  entries_in_window store window = elim (snapshot index store (to_window window)) [
    | none ↦ none
    | some items ↦ some (views store items)
  ]
