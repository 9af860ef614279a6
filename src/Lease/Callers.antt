-- ===== src/Lease/Callers.antt =====
-- The leases of src/catalogue.rs as a system of callers, each of which holds what it has acquired until it
-- releases it.
use workspace_atlas.Common.{
  ℕ, Bool, true, false, ◌&&◌, ◌||◌, List, [], ◌∷◌, Option, none, some, Text, text_eq, if◌then◌else◌,
  ◌⊎◌, ◌≡◌, ◌≢◌, ok,
}
use workspace_atlas.Lease.Rows.{Lease, LeaseTable, WriterLeaseGuard, Chrono, Readings, lease_of}
use workspace_atlas.Lease.Operations.{
  iso8601_age_seconds, acquire_writer_lease, heartbeat_writer_lease, release_writer_lease,
}

-- The callers that hold a lease: a workspace and a name each.
abbrev pub Holding : Type 0
Holding = List (Text × Text)

abbrev pub holds : Text → Text → Holding → Bool
holds workspace holder [] = false
holds workspace holder (one ∷ others) =
    (text_eq one.0 workspace && text_eq one.1 holder) || holds workspace holder others

abbrev pub without : Text → Text → Holding → Holding
without workspace holder [] = []
without workspace holder (one ∷ others) =
    let rest = without workspace holder others in
    if text_eq one.0 workspace && text_eq one.1 holder then rest else one ∷ rest

-- The caller does not take over the lease of another whose heartbeat is too old.
abbrev pub Timely : Chrono → (checked : ℕ) → (holder : Text) → (stale : ℕ) → Option Lease → Type 0
Timely chrono checked holder stale none = Unit
Timely chrono checked holder stale (some row) =
    (text_eq row.holder_id holder ≡ true)
    ⊎ (iso8601_age_seconds chrono checked row.heartbeat_at stale ≢ ok true)

pub data Step (chrono : Chrono) : LeaseTable → Holding → LeaseTable → Holding → Type 0 where
  acquire :
      (clock : Readings) (table : LeaseTable) (holding : Holding) (workspace holder : Text)
      (duration stale : ℕ) (guard : WriterLeaseGuard) (table' : LeaseTable)
      → Timely chrono clock.checked holder stale (lease_of workspace table.leases)
      → acquire_writer_lease chrono clock table workspace holder duration stale ≡ ok (guard, table')
      → Step chrono table holding table' ((guard.workspace_id, guard.holder_id) ∷ holding)
  heartbeat :
      (clock : Readings) (table : LeaseTable) (holding : Holding) (workspace holder : Text)
      (table' : LeaseTable)
      → heartbeat_writer_lease clock table workspace holder ≡ ok table'
      → Step chrono table holding table' holding
  release :
      (table : LeaseTable) (holding : Holding) (workspace holder : Text)
      → Step chrono table holding
          (release_writer_lease table workspace holder)
          (without workspace holder holding)

pub data Reach (chrono : Chrono) (workspaces : List Text) : LeaseTable → Holding → Type 0 where
  start : Reach chrono workspaces (record { leases = []; workspaces = workspaces }) []
  next :
      {table table' : LeaseTable} {holding holding' : Holding}
      → Reach chrono workspaces table holding
      → Step chrono table holding table' holding'
      → Reach chrono workspaces table' holding'
