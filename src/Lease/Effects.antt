-- ===== src/Lease/Effects.antt =====
-- What the operations of src/catalogue.rs on leases have done when they succeed.
use workspace_atlas.Errors.{AtlasError}
use workspace_atlas.Common.{
  ℕ, true, not, Option, none, some, Text, ◌≡◌, ap, ◌∙◌, arith, ok, >>=-eq-ok, refuse_if,
}
use workspace_atlas.Lease.Rows.{
  Lease, LeaseTable, WriterLeaseGuard, Chrono, Readings, lease_of, upsert, update_held,
}
use workspace_atlas.Lease.Operations.{
  may_acquire, holder_of, insert_lease, new_lease, guard_of, beat, acquire_writer_lease,
  heartbeat_writer_lease,
}

insert_lease-eq-ok :
    (new : Lease) (table : LeaseTable) (existing : Option Lease) (table' : LeaseTable)
    → insert_lease new table existing ≡ ok table'
    → table' ≡ record table { leases = upsert new table.leases }
insert_lease-eq-ok new table none table' e = ground arith
insert_lease-eq-ok new table (some row) table' e = ground arith

-- An acquisition that succeeds writes its row.
pub acquire-eq-ok :
    (chrono : Chrono) (clock : Readings) (table : LeaseTable) (workspace holder : Text)
    (duration stale : ℕ) (guard : WriterLeaseGuard) (table' : LeaseTable)
    → acquire_writer_lease chrono clock table workspace holder duration stale ≡ ok (guard, table')
    → (guard ≡ guard_of (new_lease clock workspace holder duration))
      × (table' ≡ record table {
        leases = upsert (new_lease clock workspace holder duration) table.leases;
      })
      × (may_acquire chrono clock.checked holder stale (lease_of workspace table.leases) ≡ ok true)
unfolding acquire_writer_lease
acquire-eq-ok chrono clock table w h duration stale guard table' e =
    let new = new_lease clock w h duration in
    let existing = lease_of w table.leases in
    let (acquired, allowed, e1) =
      >>=-eq-ok (may_acquire chrono clock.checked h stale existing) _ e in
    let (done, let_in, e2) =
      >>=-eq-ok (refuse_if (not acquired) (AtlasError.writer_lease_held (holder_of existing))) _
        e1 in
    let (after, inserted, e3) = >>=-eq-ok (insert_lease new table existing) _ e2 in
    let really : acquired ≡ true = ground arith in
    let same = insert_lease-eq-ok new table existing after inserted in
    (ground arith, ground arith, allowed ∙ ap ok really)

pub heartbeat-eq-ok :
    (clock : Readings) (table : LeaseTable) (workspace holder : Text) (table' : LeaseTable)
    → heartbeat_writer_lease clock table workspace holder ≡ ok table'
    → table' ≡ record table { leases = update_held workspace holder (beat clock) table.leases }
unfolding heartbeat_writer_lease
heartbeat-eq-ok clock table w h table' e = ground arith
