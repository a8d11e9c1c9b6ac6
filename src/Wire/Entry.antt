-- ===== src/Wire/Entry.antt =====
-- core/src/wire/entry.rs: identity and signature of entries. The canonical encoding (`minicbor`),
-- SHA-256 (`sha2`) and Ed25519 (`ed25519-dalek`) are the parameter `Signing`; the struct `Entry` is
-- in Wire/Payload.
use racnet.Prelude.{ℕ, Bool, Bytes, Outcome, ok, err, if◌then◌else◌}
use racnet.Wire.Error.{WireError, bad_signature}
use racnet.Wire.Payload.{Entry}

pub record Signing : Type 0 where
  -- `Sha256::digest`
  pub sha256 : Bytes → Bytes
  -- What `minicbor::to_vec` writes for an entry.
  pub entry_to_vec : Entry → Bytes
  -- The array of four that an `Encoder` writes: author, sort key, kind and payload.
  pub encode_tbs : Bytes → ℕ → ℕ → Bytes → Bytes
  -- Whether the key is a point and `verify_strict` accepts: key, message, signature.
  pub verify_strict : Bytes → Bytes → Bytes → Bool

-- `SigningKey` of `ed25519-dalek`, given by its bytes.
pub record Signer : Type 0 where
  pub verifying_key : Bytes → Bytes
  -- Key, message.
  pub sign : Bytes → Bytes → Bytes

module _ (c : Signing) where
  unfoldable pub to_bytes : Entry → Bytes
  to_bytes e = c.entry_to_vec e

  unfoldable pub id : Entry → Bytes
  id e = c.sha256 (to_bytes e)

  unfoldable pub tbs_bytes : Entry → Bytes
  tbs_bytes e = c.encode_tbs e.author e.sort_key e.kind e.payload

  unfoldable pub verify : Entry → Outcome WireError (Unit {0})
  verify e = if c.verify_strict e.author (tbs_bytes e) e.sig then ok tt else err bad_signature

  -- `Entry::sign`
  unfoldable pub signed : Signer → Bytes → ℕ → ℕ → Bytes → Entry
  signed signer key sort_key kind payload =
      let author = signer.verifying_key key in
      record {
        author = author;
        sort_key = sort_key;
        kind = kind;
        payload = payload;
        sig = signer.sign key (c.encode_tbs author sort_key kind payload);
      }
