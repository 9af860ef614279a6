-- ===== src/Lease/Command.antt =====
-- A command under the writer lease (`with_cli_writer_lease` and its like of src/cli.rs). The holder's name is
-- an argument: the host, the process and the time make it.
use workspace_atlas.Errors.{AtlasError}
use workspace_atlas.Common.{Bool, true, false, Text, Result, ok, err, ◌>>=◌}
use workspace_atlas.Lease.Rows.{LeaseTable, Chrono, Readings}
use workspace_atlas.Lease.Operations.{seconds, acquire_writer_lease, release_writer_lease}

unfoldable pub acquire_lease_for_cli :
    Chrono → Readings → LeaseTable → (workspace_id holder : Text) → Result AtlasError LeaseTable
acquire_lease_for_cli chrono clock table workspace_id holder =
    acquire_writer_lease chrono clock table workspace_id holder (seconds 60) (seconds 30) >>= λ out.
    ok out.1

-- The lease is released whatever the operation returns; releasing cannot fail here.
abbrev pub under_lease :
    {T : Type 0}
    → LeaseTable
    → (workspace_id holder : Text) → (LeaseTable → Result AtlasError T × LeaseTable)
    → Result AtlasError LeaseTable
    → Result AtlasError T × LeaseTable
under_lease table workspace_id holder operation (err failure) = (err failure, table)
under_lease table workspace_id holder operation (ok held) =
    let (result, after) = operation held in (result, release_writer_lease after workspace_id holder)

unfoldable pub with_cli_writer_lease :
    {T : Type 0}
    → Chrono
    → Readings
    → LeaseTable
    → (workspace_id holder : Text) → (LeaseTable → Result AtlasError T × LeaseTable)
    → Result AtlasError T × LeaseTable
with_cli_writer_lease chrono clock table workspace_id holder operation =
    under_lease table workspace_id holder operation
      (acquire_lease_for_cli chrono clock table workspace_id holder)

unfoldable pub with_optional_cli_writer_lease :
    {T : Type 0}
    → Chrono
    → Readings
    → LeaseTable
    → (workspace_id holder : Text) → Bool
    → (LeaseTable → Result AtlasError T × LeaseTable)
    → Result AtlasError T × LeaseTable
with_optional_cli_writer_lease chrono clock table workspace_id holder true operation =
    with_cli_writer_lease chrono clock table workspace_id holder operation
with_optional_cli_writer_lease chrono clock table workspace_id holder false operation =
    operation table
