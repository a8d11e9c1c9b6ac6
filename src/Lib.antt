-- ===== src/Lib.antt =====
-- A model of the core of racnet, the Rust crate under core/: what one node of a delay-tolerant mesh
-- does with the bytes of its links and the entries that it syncs over them.
--
-- The parts, from the wire up:
--
-- * Wire (core/src/wire/): `Pad` is pad.rs, the permitted lengths; `Msg` is msg.rs, the codec of inner
--   messages with header, payload and zero padding; `Frame` is frame.rs, the two-byte length and
--   the reassembly; `Payload` has the structs of payload.rs and entry.rs; `Entry` is the identity,
--   signing and verification of entry.rs; `Error` is error.rs. The codecs that minicbor derives are the
--   parameter `Cbor`, signatures and encoding of entries the parameters `Signing` and `Signer`.
-- * Noise (core/src/noise/): `Cipher`, `Symmetric`, `Handshake` and `Transport` are cipher.rs,
--   symmetric.rs, handshake.rs (with the key pairs of dh.rs) and transport.rs. The primitives are the
--   parameter `Primitives`, with their documented laws in `Lawful`.
-- * Link (core/src/link/): `Limiter` is limiter.rs, the token buckets and the half-open handshakes;
--   `Driver` is driver.rs, the state machine of one link: types and closing in `Driver` itself, the
--   handlers before establishment in `Driver/Cleartext`, those after it and the calls of the user
--   in `Driver/Calls`.
-- * Store (core/src/store/): the entries by id, mod.rs, over the interfaces `OrderIndex` and `Journal`.
--   `ItemOrder` is the order of items, item.rs. `Order` is order.rs: the tree and its queries in
--   `Order` itself, insertion with its rebalancing in `Order/Insertion`, the iterator in `Order/Range`;
--   `Indexed` fills `OrderIndex` with it. The arena of nodes is a tree: an index stands for the
--   subtree that it leads to. The journal (journal.rs) stays an interface.
-- * Sync (core/src/sync/): `Session` is session.rs, the sessions of one link (types and the methods that
--   need no store in `Session/State`), over the interface `Engine`. `Negentropy` is
--   negentropy/mod.rs, the engine, with `reconcile` in `Negentropy/Reconcile`, and
--   negentropy/store.rs, its two stores, in `Negentropy/Sealed`; `Session/Answered` fills `Engine` with
--   it. `Bound` is negentropy/bound.rs, `Varint` negentropy/varint.rs, `IdSum`
--   negentropy/fingerprint.rs; `Error` is error.rs. SHA-256 is a parameter.
-- * Api (core/src/api/): what a node hands out, mod.rs, in `Api` itself; node.rs, a node with its links, in
--   `Api/Node` (the books of the links) and `Api/Calls` (the calls that use the drivers and the store;
--   `bytes_in` is `Node::on_bytes`). `Api/Steps` has the calls as steps.
--
-- The node gives each link a driver and, for a link that it accepts, a ticket of the limiter; it turns
-- the events of the driver into its own and retires the links that close.
-- The driver takes bytes, reassembles frames, runs the handshake and then decrypts, decodes and hands
-- messages to the syncer, whose replies it encrypts. The syncer reads and fills the store.
--
-- Conventions. A method that changes `self` takes and returns the state; `Outcome` is Rust's `Result`
-- with a third case for a panic, and `Method` chains methods that fail; in the driver, which has no
-- result to give, `none` is a panic. Integers are natural numbers: where the code wraps or
-- saturates the model writes it out, and where it cannot overflow the bound is a hypothesis of the
-- theorem that needs it. Hash maps are association lists, ordered sets are lists; the
-- links of a node are visited in the order of their list. Link ids and the tickets of the limiter are
-- counters without a bound, where the code's have 64 bits. Fresh key pairs are arguments of the calls
-- of a node.
--
-- Fuel. The loop of `on_bytes` runs on fuel, one more than the bytes buffered: each body takes its two
-- bytes of length at least. The loop of `reconcile` runs on as many rounds as the message has bytes, of
-- which each range takes two at least; to run out would be a panic. A loop over the iterator of the order
-- index runs on the number of items in the range. All other loops are by recursion on lists, on trees
-- or on a number of digits.
--
-- Not modelled: the journal, taken as an interface here, and with it `Node::open`; the lock of a node,
-- each of whose calls is one step; `author_key` and `fingerprint`, which hand out keys; entropy,
-- zeroising, texts of errors; the simulator, tests, fuzz targets, bindings and the mobile apps.
pub mod Prelude
pub mod Wire
pub mod Link
pub mod Noise
pub mod Store
pub mod Sync
pub mod Api
