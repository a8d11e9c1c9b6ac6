-- ===== src/Sync/Error.antt =====
-- core/src/sync/error.rs: errors of reconciliation. The texts of `Violation` and `Malformed` are left
-- out.
use racnet.Prelude.{ℕ}
use racnet.Wire.Error.{ErrorCode, protocol_violation, internal}

pub data SyncError : Type 0 where
  storage : SyncError
  violation : SyncError
  resource_limit : SyncError
  malformed : SyncError
  unsupported_version : ℕ → SyncError
  frame_limit_too_small : ℕ → SyncError
  already_initiated : SyncError

unfoldable pub error_code : SyncError → ErrorCode
error_code storage = internal
error_code violation = protocol_violation
error_code resource_limit = ErrorCode.resource_limit
error_code malformed = protocol_violation
error_code (unsupported_version _) = internal
error_code (frame_limit_too_small _) = internal
error_code already_initiated = internal
