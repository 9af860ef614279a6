-- ===== src/Scip/Loop.antt =====
-- The message decoders of src/scip_decoder.rs come to an end: the turns that the loop is given are
-- enough on every input.
use workspace_atlas.Common.{ℕ, List}
use workspace_atlas.Scip.Types.Default
use workspace_atlas.Scip.Reader.{Reader, new}
use workspace_atlas.Scip.Fields.{Step, Runs, decode_message}

-- The decoder of a message, started on `s`, makes a run of the loop on every input.
abbrev pub Finishes : {S : Type 0} → Step S → S → Type 0
Finishes step s = (bytes : List ℕ) → Runs step s (new bytes) (decode_message step s bytes)
