-- ===== src/Lease/Examples.antt =====
-- Two holders of one lease, timestamps, and a command under a lease (src/catalogue.rs, src/cli.rs).
use workspace_atlas.Errors.{AtlasError}
use workspace_atlas.Common.{ℕ, [], ◌∷◌, some, Text, codes, text_eq, ◌≡◌, refl, Result, ok, err}
use workspace_atlas.Lease.Stamps.{civil_date, padded, iso8601}
use workspace_atlas.Lease.Calendar.{calendar}
use workspace_atlas.Lease.Calendar.Civil.{civil_date-calendar}
use workspace_atlas.Lease.Rows.{LeaseTable, WriterLeaseGuard, Chrono, Readings, lease_of, upsert}
use workspace_atlas.Lease.Operations.{
  seconds, iso8601_age_seconds, new_lease, guard_of, acquire_writer_lease, heartbeat_writer_lease,
  release_writer_lease,
}
use workspace_atlas.Lease.Command.{with_cli_writer_lease}
use workspace_atlas.Lease.Holders.{holder?, Single}
use workspace_atlas.Lease.Callers.{Step, Reach}
use workspace_atlas.Lease.Exclusive.{Reach-exclusive}
use workspace_atlas.Lease.Takeover.{acquire-takeover, with_cli_writer_lease-restores, free-acquires}

leap_day : iso8601 951782400123 ≡ codes "2000-02-29T00:00:00.123Z"
unfolding iso8601 civil_date padded codes
leap_day = refl

civil_date-calendar_example : civil_date 59 ≡ calendar 59
civil_date-calendar_example = civil_date-calendar 59

-- Every text is the start of 1970.
abbrev chrono : Chrono
chrono = record { parse_from_rfc3339 = λ text. ok 0; from_std = λ span. some span }

abbrev at : ℕ → Readings
at n = record { now = n; expiring = n; expiring_again = n; checked = n }

abbrev project : Text
project = codes "p"

abbrev crashed : Text
crashed = codes "a"

abbrev next_writer : Text
next_writer = codes "b"

abbrev no_lease : LeaseTable
no_lease = record { leases = []; workspaces = project ∷ [] }

abbrev first_lease : LeaseTable
first_lease = record no_lease { leases = upsert (new_lease (at 0) project crashed (seconds 60)) [] }

first_acquired :
    acquire_writer_lease chrono (at 0) no_lease project crashed (seconds 60) (seconds 30)
    ≡ ok (guard_of (new_lease (at 0) project crashed (seconds 60)), first_lease)
unfolding lease_of text_eq codes
first_acquired =
    free-acquires chrono (at 0) no_lease project crashed (seconds 60) (seconds 30) refl refl

first_reach : Reach chrono (project ∷ []) first_lease ((project, crashed) ∷ [])
unfolding lease_of
first_reach = Reach.next Reach.start (
    Step.acquire (at 0) no_lease [] project crashed (seconds 60) (seconds 30) _ first_lease tt
      first_acquired)

Reach-exclusive_example : crashed ≡ crashed
unfolding text_eq codes
Reach-exclusive_example = Reach-exclusive first_reach project crashed crashed refl refl

abbrev second_lease : LeaseTable
second_lease = record first_lease {
  leases = upsert (new_lease (at (seconds 90)) project next_writer (seconds 60)) first_lease.leases;
}

second_acquired :
    acquire_writer_lease chrono
      (at (seconds 90))
      first_lease
      project
      next_writer
      (seconds 60)
      (seconds 30)
    ≡ ok (guard_of (new_lease (at (seconds 90)) project next_writer (seconds 60)), second_lease)
unfolding acquire_writer_lease iso8601_age_seconds lease_of upsert text_eq codes
second_acquired = refl

first_Single : Single first_lease.leases
unfolding lease_of upsert
first_Single = (refl, tt)

first_holder : holder? project first_lease.leases ≡ some crashed
unfolding lease_of upsert text_eq codes
first_holder = refl

acquire-takeover_example :
    (next_writer ≡ next_writer)
    × (holder? project second_lease.leases ≡ some crashed)
    × ((later : Readings)
        → heartbeat_writer_lease later second_lease project next_writer
          ≡ err (AtlasError.writer_lease_expired 0))
    × (release_writer_lease second_lease project next_writer ≡ second_lease)
    × ((later : Readings) (duration' stale' : ℕ)
        → (again : WriterLeaseGuard) × (table'' : LeaseTable) × (acquire_writer_lease chrono later
              second_lease project crashed duration' stale'
            ≡ ok (again, table'')))
unfolding text_eq codes
acquire-takeover_example =
    acquire-takeover chrono (at (seconds 90)) first_lease project next_writer (seconds 60)
      (seconds 30) crashed (guard_of (new_lease (at (seconds 90)) project next_writer (seconds 60)))
      second_lease first_Single first_holder refl second_acquired

abbrev refused : LeaseTable → Result AtlasError ℕ × LeaseTable
refused held = (err (AtlasError.other []), held)

with_cli_writer_lease-restores_example :
    (held : LeaseTable) × (holder? project held.leases ≡ some crashed)
    × (with_cli_writer_lease chrono (at 0) no_lease project crashed refused
        ≡ ((refused held).0, no_lease))
unfolding lease_of text_eq codes
with_cli_writer_lease-restores_example =
    with_cli_writer_lease-restores chrono (at 0) no_lease project crashed refused refl refl
      (λ held. refl)
