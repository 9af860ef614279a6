-- ===== src/Lease/Rows.antt =====
-- The table of writer leases, and what the operations on it take from elsewhere (src/catalogue.rs, with
-- the constraints of src/migrations/0001_foundation.sql).
use workspace_atlas.Common.{
  ℕ, suc, Bool, ◌&&◌, List, [], ◌∷◌, Option, none, some, Text, text_eq, if◌then◌else◌, Result,
}

-- A row of `writer_lease`, whose key is the workspace.
pub record Lease : Type 0 where
  pub workspace_id : Text
  pub holder_id : Text
  pub acquired_at : Text
  pub expires_at : Text
  pub heartbeat_at : Text
  pub schema_writer_version : ℕ

-- The leases, and the keys of the registered workspaces.
pub record LeaseTable : Type 0 where
  pub leases : List Lease
  pub workspaces : List Text

pub record WriterLeaseGuard : Type 0 where
  pub holder_id : Text
  pub workspace_id : Text
  pub acquired_at : Text
  pub expires_at : Text

-- What the crate chrono does: the instant of a text, or its complaint, and its own span of a duration,
-- if there is one.
pub record Chrono : Type 0 where
  pub parse_from_rfc3339 : Text → Result Text ℕ
  pub from_std : ℕ → Option ℕ

-- The readings of the clock in one call, in their order: `now`, those for the expiry, and that for the
-- age of the heartbeat.
pub record Readings : Type 0 where
  pub now : ℕ
  pub expiring : ℕ
  pub expiring_again : ℕ
  pub checked : ℕ

abbrev pub of_workspace : Text → Lease → Bool
of_workspace workspace row = text_eq row.workspace_id workspace

abbrev pub held_by : (workspace holder : Text) → Lease → Bool
held_by workspace holder row = text_eq row.workspace_id workspace && text_eq row.holder_id holder

-- `SELECT`, by the key.
unfoldable pub lease_of : Text → List Lease → Option Lease
lease_of workspace [] = none
lease_of workspace (row ∷ rows) =
    if of_workspace workspace row then some row else lease_of workspace rows

-- `INSERT … ON CONFLICT(workspace_id) DO UPDATE`: a row that is there keeps its holder.
unfoldable pub upsert : Lease → List Lease → List Lease
upsert new [] = new ∷ []
upsert new (row ∷ rows) =
    if of_workspace new.workspace_id row
    then record row {
      acquired_at = new.acquired_at;
      expires_at = new.expires_at;
      heartbeat_at = new.heartbeat_at;
      schema_writer_version = new.schema_writer_version;
    }
      ∷ rows
    else row ∷ upsert new rows

-- `UPDATE … WHERE`, `DELETE … WHERE`, and the number of rows.
unfoldable pub update_held : (workspace holder : Text) → (Lease → Lease) → List Lease → List Lease
update_held workspace holder change [] = []
update_held workspace holder change (row ∷ rows) =
    (if held_by workspace holder row then change row else row)
    ∷ update_held workspace holder change rows

unfoldable pub count_held : (workspace holder : Text) → List Lease → ℕ
count_held workspace holder [] = 0
count_held workspace holder (row ∷ rows) =
    let rest = count_held workspace holder rows in
    if held_by workspace holder row then suc rest else rest

unfoldable pub delete_held : (workspace holder : Text) → List Lease → List Lease
delete_held workspace holder [] = []
delete_held workspace holder (row ∷ rows) =
    let rest = delete_held workspace holder rows in
    if held_by workspace holder row then rest else row ∷ rest
