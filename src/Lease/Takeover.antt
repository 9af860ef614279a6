-- ===== src/Lease/Takeover.antt =====
-- What becomes of a lease that is taken over, and of one that a command of src/cli.rs has taken and released.
use mathlib.Core.Path.{subst}
use workspace_atlas.Errors.{AtlasError}
use workspace_atlas.Common.{
  ℕ, true, false, List, [], ◌∷◌, Option, none, some, Text, text_eq, text_eq_sound, text_eq_refl,
  Bool-cases, inl, inr, ◌≡◌, refl, sym, ap, ◌∙◌, arith, Result, ok, err, any,
}
use workspace_atlas.Lease.Rows.{
  Lease, LeaseTable, WriterLeaseGuard, Chrono, Readings, lease_of, upsert, count_held, delete_held,
}
use workspace_atlas.Lease.Operations.{
  seconds, new_lease, guard_of, acquire_writer_lease, heartbeat_writer_lease, release_writer_lease,
}
use workspace_atlas.Lease.Command.{acquire_lease_for_cli, with_cli_writer_lease}
use workspace_atlas.Lease.Holders.{holder_in, holder?, Single, names, holder?-upsert, Single-upsert}
use workspace_atlas.Lease.Effects.{acquire-eq-ok}

-- Who is not named has no row.
count_held-zero :
    (workspace holder : Text) (rows : List Lease)
    → Single rows
    → names (holder? workspace rows) holder ≡ false
    → count_held workspace holder rows ≡ 0
unfolding count_held lease_of
count_held-zero w h [] s n = refl
count_held-zero w h (row ∷ rows) s n = elim (Bool-cases (text_eq row.workspace_id w)) [
  | inl e ↦
      let none' = subst (λ k. holder? k rows ≡ none) (text_eq_sound row.workspace_id w e) s.0 in
      ground (arith, count_held-zero w h rows s.1)
  | inr e ↦ ground (arith, count_held-zero w h rows s.1)
]

delete_held-same :
    (workspace holder : Text) (rows : List Lease)
    → count_held workspace holder rows ≡ 0
    → delete_held workspace holder rows ≡ rows
unfolding count_held delete_held
delete_held-same w h [] n = refl
delete_held-same w h (row ∷ rows) n = ground (arith, delete_held-same w h rows)

holder-row :
    (h : Text) (existing : Option Lease)
    → holder_in existing ≡ some h
    → (row : Lease) × (existing ≡ some row) × (row.holder_id ≡ h)
holder-row h none e = cc
holder-row h (some row) e = (row, refl, cc)

-- Whom the table names acquires the lease, whatever the clock says.
named-acquires :
    (chrono : Chrono) (clock : Readings) (table : LeaseTable) (w h : Text) (duration stale : ℕ)
    → holder? w table.leases ≡ some h
    → acquire_writer_lease chrono clock table w h duration stale
      ≡ ok (
        guard_of (new_lease clock w h duration),
        record table { leases = upsert (new_lease clock w h duration) table.leases },
      )
unfolding acquire_writer_lease
named-acquires chrono clock table w h duration stale e =
    let (row, there, same) = holder-row h (lease_of w table.leases) e in
    let mine : text_eq row.holder_id h ≡ true = rw same (text_eq_refl h) in rw (there, mine) refl

-- If a caller acquires a lease whose row names another caller, it gets a guard of its own, but the row goes
-- on naming the other: then each heartbeat of the new holder is refused as expired, its release
-- changes nothing, and the other acquires the lease as well, at any time, while the new holder has it.
pub acquire-takeover :
    (chrono : Chrono) (clock : Readings) (table : LeaseTable) (workspace holder : Text)
    (duration stale : ℕ) (old : Text) (guard : WriterLeaseGuard) (table' : LeaseTable)
    → Single table.leases
    → holder? workspace table.leases ≡ some old
    → text_eq old holder ≡ false
    → acquire_writer_lease chrono clock table workspace holder duration stale ≡ ok (guard, table')
    → (guard.holder_id ≡ holder)
      × (holder? workspace table'.leases ≡ some old)
      × ((later : Readings)
          → heartbeat_writer_lease later table' workspace holder
            ≡ err (AtlasError.writer_lease_expired 0))
      × (release_writer_lease table' workspace holder ≡ table')
      × ((later : Readings) (duration' stale' : ℕ)
          → (again : WriterLeaseGuard) × (table'' : LeaseTable) × (acquire_writer_lease chrono later
                table' workspace old duration' stale'
              ≡ ok (again, table'')))
unfolding heartbeat_writer_lease release_writer_lease
acquire-takeover chrono clock table w h duration stale old guard table' single named other e =
    let (given, same, allowed) =
      acquire-eq-ok chrono clock table w h duration stale guard table' e in
    let new = new_lease clock w h duration in
    let still : holder? w table'.leases ≡ some old =
      ap (λ t. holder? w t.leases) same
      ∙ holder?-upsert w new table.leases
      ∙ rw (text_eq_refl w, named) refl in
    let single' = subst (λ t. Single t.leases) (sym same) (Single-upsert new table.leases single) in
    let absent = count_held-zero w h table'.leases single' (rw still other) in
    (
      ap (λ g. g.holder_id) given,
      still,
      λ later. rw absent refl,
      ap (λ rows. record table' { leases = rows }) (delete_held-same w h table'.leases absent),
      λ later duration' stale'.
          (_, _, named-acquires chrono later table' w old duration' stale' still),
    )

delete_held-upsert :
    (new : Lease) (rows : List Lease)
    → lease_of new.workspace_id rows ≡ none
    → delete_held new.workspace_id new.holder_id (upsert new rows) ≡ rows
unfolding lease_of upsert delete_held
delete_held-upsert new [] e = rw (text_eq_refl new.workspace_id, text_eq_refl new.holder_id) refl
delete_held-upsert new (row ∷ rows) e = ground (arith, delete_held-upsert new rows)

pub free-acquires :
    (chrono : Chrono) (clock : Readings) (table : LeaseTable) (w h : Text) (duration stale : ℕ)
    → lease_of w table.leases ≡ none
    → any (λ (key : Text). text_eq key w) table.workspaces ≡ true
    → acquire_writer_lease chrono clock table w h duration stale
      ≡ ok (
        guard_of (new_lease clock w h duration),
        record table { leases = upsert (new_lease clock w h duration) table.leases },
      )
unfolding acquire_writer_lease
free-acquires chrono clock table w h duration stale free registered = rw (free, registered) refl

-- A command on a registered workspace whose lease is free runs with a lease in its own name, gives what
-- its operation gives, be it an error, and leaves the leases as they were, if the operation does.
pub with_cli_writer_lease-restores :
    {T : Type 0} (chrono : Chrono) (clock : Readings) (table : LeaseTable) (workspace holder : Text)
    (operation : LeaseTable → Result AtlasError T × LeaseTable)
    → lease_of workspace table.leases ≡ none
    → any (λ (key : Text). text_eq key workspace) table.workspaces ≡ true
    → ((held : LeaseTable) → (operation held).1 ≡ held)
    → (held : LeaseTable) × (holder? workspace held.leases ≡ some holder)
      × (with_cli_writer_lease chrono clock table workspace holder operation
          ≡ ((operation held).0, table))
unfolding with_cli_writer_lease acquire_lease_for_cli release_writer_lease
with_cli_writer_lease-restores chrono clock table w h operation free registered alone =
    let new = new_lease clock w h (seconds 60) in
    let held = record table { leases = upsert new table.leases } in
    let mine : holder? w held.leases ≡ some h =
      holder?-upsert w new table.leases ∙ rw (text_eq_refl w, free) refl in
    let back = delete_held-upsert new table.leases free in
    let released =
      ap (λ t. ((operation held).0, record t { leases = delete_held w h t.leases })) (alone held)
      ∙ ap (λ rows. ((operation held).0, record table { leases = rows })) back in
    (
      held,
      mine,
      rw (free-acquires chrono clock table w h (seconds 60) (seconds 30) free registered) released,
    )
