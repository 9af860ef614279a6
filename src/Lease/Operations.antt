-- ===== src/Lease/Operations.antt =====
-- `acquire_writer_lease`, `heartbeat_writer_lease` and `release_writer_lease` of src/catalogue.rs.
use workspace_atlas.Errors.{AtlasError}
use workspace_atlas.Common.{
  ℕ, ◌+◌, ◌*◌, Bool, true, not, [], ◌++◌, Option, none, some, Text, codes, text_eq, any,
  if◌then◌else◌, ltb, ◌==◌, Result, ok, map_err, ◌>>=◌, ◌>>◌, refuse_if,
}
use workspace_atlas.Lease.Stamps.{iso8601_now, now_plus_iso8601}
use workspace_atlas.Lease.Rows.{
  Lease, LeaseTable, WriterLeaseGuard, Chrono, Readings, lease_of, upsert, update_held, count_held,
  delete_held,
}

abbrev pub seconds : ℕ → ℕ
seconds n = n * 1000000000

abbrev pub default_lease_duration : ℕ
default_lease_duration = seconds 300

-- `unwrap_or`.
abbrev pub span_or : Option ℕ → ℕ → ℕ
span_or none other = other
span_or (some span) other = span

-- Is the heartbeat older than the limit? An age can be negative.
unfoldable pub iso8601_age_seconds :
    Chrono → (checked : ℕ) → (iso : Text) → (stale_after : ℕ) → Result AtlasError Bool
iso8601_age_seconds chrono checked iso stale_after =
    map_err (λ e. AtlasError.other (codes "invalid timestamp " ++ (iso ++ (codes ": " ++ e))))
      (chrono.parse_from_rfc3339 iso)
    >>= λ parsed. ok (ltb (parsed + span_or (chrono.from_std stale_after) (seconds 60)) checked)

-- May the caller have the lease?
abbrev pub may_acquire :
    Chrono → (checked : ℕ) → (holder : Text) → (stale : ℕ) → Option Lease → Result AtlasError Bool
may_acquire chrono checked holder stale none = ok true
may_acquire chrono checked holder stale (some row) =
    if text_eq row.holder_id holder
    then ok true
    else iso8601_age_seconds chrono checked row.heartbeat_at stale

abbrev pub holder_of : Option Lease → Text
holder_of none = []
holder_of (some row) = row.holder_id

-- A new row must name a registered workspace.
abbrev pub insert_lease : Lease → LeaseTable → Option Lease → Result AtlasError LeaseTable
insert_lease new table none =
    refuse_if (not (any (λ (key : Text). text_eq key new.workspace_id) table.workspaces))
      (AtlasError.sqlite (codes "workspace_id"))
    >> ok (record table { leases = upsert new table.leases })
insert_lease new table (some row) = ok (record table { leases = upsert new table.leases })

-- The row that is written.
abbrev pub new_lease : Readings → (workspace_id holder_id : Text) → (duration : ℕ) → Lease
new_lease clock workspace_id holder_id duration =
    let now = iso8601_now clock.now in
    record {
      workspace_id = workspace_id;
      holder_id = holder_id;
      acquired_at = now;
      expires_at = now_plus_iso8601 clock.expiring clock.expiring_again duration;
      heartbeat_at = now;
      schema_writer_version = 4;
    }

abbrev pub guard_of : Lease → WriterLeaseGuard
guard_of row = record {
  holder_id = row.holder_id;
  workspace_id = row.workspace_id;
  acquired_at = row.acquired_at;
  expires_at = row.expires_at;
}

unfoldable pub acquire_writer_lease :
    Chrono
    → Readings
    → LeaseTable
    → (workspace_id holder_id : Text) → (duration heartbeat_stale : ℕ)
    → Result AtlasError (WriterLeaseGuard × LeaseTable)
acquire_writer_lease chrono clock table workspace_id holder_id duration heartbeat_stale =
    let new = new_lease clock workspace_id holder_id duration in
    let existing = lease_of workspace_id table.leases in
    may_acquire chrono clock.checked holder_id heartbeat_stale existing >>= λ acquire.
    refuse_if (not acquire) (AtlasError.writer_lease_held (holder_of existing))
    >> (insert_lease new table existing >>= λ table'. ok (guard_of new, table'))

abbrev pub beat : Readings → Lease → Lease
beat clock row = record row {
  heartbeat_at = iso8601_now clock.now;
  expires_at = now_plus_iso8601 clock.expiring clock.expiring_again default_lease_duration;
}

unfoldable pub heartbeat_writer_lease :
    Readings → LeaseTable → (workspace_id holder_id : Text) → Result AtlasError LeaseTable
heartbeat_writer_lease clock table workspace_id holder_id =
    refuse_if (count_held workspace_id holder_id table.leases == 0)
      (AtlasError.writer_lease_expired 0)
    >> ok (record table { leases = update_held workspace_id holder_id (beat clock) table.leases })

unfoldable pub release_writer_lease : LeaseTable → (workspace_id holder_id : Text) → LeaseTable
release_writer_lease table workspace_id holder_id = record table {
  leases = delete_held workspace_id holder_id table.leases;
}
