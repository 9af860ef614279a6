-- ===== src/Errors.antt =====
-- The errors that the library's functions return (src/error.rs). An error of SQLite, of the file
-- system or of a parser is its text, and an `i64` its 64-bit pattern.
use workspace_atlas.Common.{ℕ, Text}

pub data AtlasError : Type 0 where
  sqlite : Text → AtlasError
  migration : Text → AtlasError
  workspace_already_registered : (workspace_id : Text) → AtlasError
  workspace_not_found : (workspace_id : Text) → AtlasError
  path_escape : (path : Text) → AtlasError
  writer_lease_held : (holder : Text) → AtlasError
  writer_lease_expired : (stale_secs : ℕ) → AtlasError
  generation_state_invalid : (found required : Text) → AtlasError
  active_generation_mismatch : (catalog request : Text) → AtlasError
  invalid_config : Text → AtlasError
  io : Text → AtlasError
  serde : Text → AtlasError
  toml : Text → AtlasError
  other : Text → AtlasError
