-- ===== src/Wire/Error.antt =====
-- core/src/wire/error.rs: codec errors and the registry of wire error codes. The texts that the
-- variants `Schema` and `Cbor` carry are left out.
use racnet.Prelude.{ℕ}

pub data WireError : Type 0 where
  too_large : WireError
  bad_frame_length : ℕ → WireError
  bad_payload_length : ℕ → WireError
  schema : WireError
  unknown_msg_type : ℕ → WireError
  cbor : WireError
  trailing_bytes : WireError
  bad_signature : WireError

pub data ErrorCode : Type 0 where
  protocol_violation version_incompatible bad_state resource_limit internal : ErrorCode

-- `u64::from`
unfoldable pub code_number : ErrorCode → ℕ
code_number protocol_violation = 1
code_number version_incompatible = 2
code_number bad_state = 3
code_number resource_limit = 4
code_number internal = 5
