-- ===== src/Wire/Payload.antt =====
-- core/src/wire/payload.rs and the struct of core/src/wire/entry.rs: the payloads of the message
-- types. Their CBOR encoders and decoders are derived by the `minicbor` crate, so they are the
-- parameter `Cbor`: `encode` is what `minicbor::encode` writes, and `decode` gives the value and
-- the decoder's position behind it, or `none` for a decode error.
use racnet.Prelude.{ℕ, Bytes, Option, List}

pub record Entry : Type 0 where
  pub author : Bytes
  pub sort_key : ℕ
  pub kind : ℕ
  pub payload : Bytes
  pub sig : Bytes

pub record Hello : Type 0 where
  pub versions : List ℕ
  pub features : ℕ
  pub transports : List ℕ

pub record Handshake : Type 0 where
  pub msg : Bytes

pub record GossipPush : Type 0 where
  pub entries : List Entry
  pub ttl : ℕ

pub record SortKeyWindow : Type 0 where
  pub since : ℕ
  pub until : ℕ

pub record ReconInit : Type 0 where
  pub sid : ℕ
  pub window : SortKeyWindow
  pub msg : Bytes

pub record ReconMsg : Type 0 where
  pub sid : ℕ
  pub msg : Bytes

pub record ReconDone : Type 0 where
  pub sid : ℕ

pub record ErrorMsg : Type 0 where
  pub code : ℕ

pub record Codec (A : Type 0) : Type 0 where
  pub encode : A → Bytes
  pub decode : Bytes → Option (A × ℕ)

pub record Cbor : Type 0 where
  pub hello_codec : Codec Hello
  pub handshake_codec : Codec Handshake
  pub gossip_push_codec : Codec GossipPush
  pub recon_init_codec : Codec ReconInit
  pub recon_msg_codec : Codec ReconMsg
  pub recon_done_codec : Codec ReconDone
  pub error_codec : Codec ErrorMsg
