-- ===== src/Api/Node.antt =====
-- core/src/api/node.rs: a node, everything that a device shares across its links, and the calls that
-- keep its books. A call under the lock takes and returns the state `NodeInner`.
use racnet.Prelude.{
  ℕ, ◌+◌, ◌==◌, Bool, false, not, Bytes, List, [], ◌∷◌, ◌++◌, map, Option, none, some, length, max,
  if◌then◌else◌, Table, lookup, contains_key, insert, remove, nat_eq, bytes_eq,
}
use racnet.Noise.Primitives.{Primitives}
use racnet.Noise.Handshake.{Keypair, from_secret_bytes}
use racnet.Store.{EntryStore}
use racnet.Sync.Session.{LinkRole}
use racnet.Link.Limiter
use racnet.Link.Limiter.{HandshakeLimiter, admit, expire, default_config}
use racnet.Link.Driver
use racnet.Link.Driver.{
  LinkDriver, LinkDriverConfig, LinkEvent, LinkError, LinkOutput, Call, is_established,
}
use racnet.Link.Driver.Calls.{on_tick}
use racnet.Api.{Event, handshake_timeout, transport_closed, LinkStatus, map_event}

-- `LinkDriverConfig::default`, with `SyncConfig::default` in it.
abbrev pub driver_config : LinkDriverConfig
driver_config = record {
  versions = 1 ∷ [];
  features = 0;
  transports = 1 ∷ [];
  max_lifetime_us = 86400000000;
  handshake_timeout_us = 30000000;
  sync = record { frame_limit = some 4096; push_ttl = 0; max_sessions = 8 };
}

pub record Link (N : Type 0) : Type 0 where
  pub driver : LinkDriver N
  pub ticket : Option ℕ

pub record NodeInner (O J N : Type 0) : Type 0 where
  pub noise_seed : Bytes
  pub signing_key : Bytes
  pub store : EntryStore O J
  pub limiter : HandshakeLimiter
  pub links : Table ℕ (Link N)
  pub next_link_id : ℕ
  pub last_now_us : ℕ

abbrev pub release : Option ℕ → HandshakeLimiter → HandshakeLimiter
release none limiter = limiter
release (some ticket) limiter = Limiter.closed limiter ticket

abbrev pub spend : Option ℕ → HandshakeLimiter → HandshakeLimiter
spend none limiter = limiter
spend (some ticket) limiter = Limiter.established limiter ticket

abbrev pub has_ticket : {N : Type 0} → ℕ → Link N → Bool
has_ticket ticket link = elim link.ticket [ none ↦ false | some t ↦ t == ticket ]

-- `iter` and `find`.
unfoldable pub find_ticket : {N : Type 0} → ℕ → Table ℕ (Link N) → Option ℕ
find_ticket ticket [] = none
find_ticket ticket ((link_id, link) ∷ links) =
    if has_ticket ticket link then some link_id else find_ticket ticket links

abbrev pub keys : {N : Type 0} → Table ℕ (Link N) → List ℕ
keys [] = []
keys ((link_id, link) ∷ links) = link_id ∷ keys links

module _ {O J N : Type 0} where
  -- The state, whose `last_now_us` is the result.
  unfoldable pub clamp_now : ℕ → NodeInner O J N → NodeInner O J N
  clamp_now now_us inner = record inner { last_now_us = max inner.last_now_us now_us }

  unfoldable pub retire : ℕ → NodeInner O J N → NodeInner O J N
  retire link_id inner = elim (lookup link_id inner.links) [
    | none ↦ inner
    | some link ↦ record inner {
      links = remove link_id inner.links;
      limiter = release link.ticket inner.limiter;
    }
  ]

  -- The arm of `Event::Established` in `settle`.
  unfoldable pub settle_established : ℕ → NodeInner O J N → NodeInner O J N
  settle_established link_id inner = elim (lookup link_id inner.links) [
    | none ↦ inner
    | some link ↦ record inner {
      links = insert link_id (record link { ticket = none }) inner.links;
      limiter = spend link.ticket inner.limiter;
    }
  ]

  unfoldable pub settle : ℕ → List Event → NodeInner O J N → NodeInner O J N
  settle link_id [] inner = inner
  settle link_id (Event.established _ _ ∷ events) inner =
      settle link_id events (settle_established link_id inner)
  settle link_id (Event.closed _ _ ∷ events) inner = settle link_id events (retire link_id inner)
  settle link_id (_ ∷ events) inner = settle link_id events inner

  -- `get_mut` and an assignment to the driver.
  abbrev pub with_driver : ℕ → Link N → LinkDriver N → NodeInner O J N → NodeInner O J N
  with_driver link_id link driver inner = record inner {
    links = insert link_id (record link { driver = driver }) inner.links;
  }

  abbrev pub add_link : LinkDriver N → Option ℕ → NodeInner O J N → NodeInner O J N
  add_link driver ticket inner = record inner {
    next_link_id = inner.next_link_id + 1;
    links = insert inner.next_link_id (record { driver = driver; ticket = ticket }) inner.links;
  }

  unfoldable pub on_transport_closed : ℕ → ℕ → NodeInner O J N → List Event × NodeInner O J N
  on_transport_closed link_id now_us inner =
      let clamped = clamp_now now_us inner in
      if not (contains_key link_id inner.links)
      then ([], clamped)
      else (Event.closed link_id transport_closed ∷ [], retire link_id clamped)

  -- A round of the first loop of `tick`.
  unfoldable pub tick_link : ℕ → NodeInner O J N → List Event × NodeInner O J N
  tick_link link_id inner = elim (lookup link_id inner.links) [
    | none ↦ ([], inner)
    | some link ↦
        let call = on_tick inner.last_now_us link.driver in
        let events = map (map_event link_id) call.out.events in
        (events, settle link_id events (with_driver link_id link call.link inner))
  ]

  unfoldable pub tick_links : List ℕ → NodeInner O J N → List Event × NodeInner O J N
  tick_links [] inner = ([], inner)
  tick_links (link_id ∷ link_ids) inner =
      let (events, inner') = tick_link link_id inner in
      let (rest, inner'') = tick_links link_ids inner' in (events ++ rest, inner'')

  -- The second loop of `tick`, over the tickets that expired.
  unfoldable pub drop_expired : List ℕ → NodeInner O J N → List Event × NodeInner O J N
  drop_expired [] inner = ([], inner)
  drop_expired (ticket ∷ tickets) inner = elim (find_ticket ticket inner.links) [
    | none ↦ drop_expired tickets inner
    | some link_id ↦
        let (rest, inner') =
          drop_expired tickets (record inner { links = remove link_id inner.links }) in
        (Event.closed link_id handshake_timeout ∷ rest, inner')
  ]

  unfoldable pub tick : ℕ → NodeInner O J N → List Event × NodeInner O J N
  tick now_us inner =
      let clamped = clamp_now now_us inner in
      let (events, ticked) = tick_links (keys clamped.links) clamped in
      let (tickets, limiter) = expire ticked.limiter ticked.last_now_us in
      let (rest, dropped) = drop_expired tickets (record ticked { limiter = limiter }) in
      (events ++ rest, dropped)

  unfoldable pub link_status : ℕ → NodeInner O J N → Option LinkStatus
  link_status link_id inner = elim (lookup link_id inner.links) [
    | none ↦ none
    | some link ↦ some (record {
      is_established = is_established link.driver;
      remote_fingerprint = link.driver.remote_fingerprint;
    })
  ]

  unfoldable pub entry_count : NodeInner O J N → ℕ
  entry_count inner = length inner.store.entries

  abbrev pub driver_of : Primitives → LinkRole → Keypair → NodeInner O J N → LinkDriver N
  driver_of p role ephemeral inner =
      Driver.new role (from_secret_bytes p inner.noise_seed) ephemeral driver_config
        inner.last_now_us
