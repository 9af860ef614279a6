-- ===== src/Scip/Steps.antt =====
-- Every step of the message decoders of src/scip_decoder.rs moves on in its buffer.
use workspace_atlas.Common.{ℕ}
use workspace_atlas.Scip.Types.{DecodeLimits}
use workspace_atlas.Scip.Reader.{Reader}
use workspace_atlas.Scip.Fields.{Step}
use workspace_atlas.Scip.Messages.{
  single_line_step, multi_line_step, occurrence_step, relationship_step, tool_info_step,
  metadata_step,
}
use workspace_atlas.Scip.Index.{symbol_step, document_step, index_step}
use workspace_atlas.Scip.Progress.{Moves, moves}

abbrev pub StepMoves : {S : Type 0} → Step S → Type 0
StepMoves {S} step = (s : S) (f w : ℕ) (r : Reader) → Moves r (step s f w r)

pub StepMoves-single_line : StepMoves single_line_step
unfolding single_line_step
StepMoves-single_line s f w r = search moves depth 24

pub StepMoves-multi_line : StepMoves multi_line_step
unfolding multi_line_step
StepMoves-multi_line s f w r = search moves depth 24

pub StepMoves-occurrence : (limits : DecodeLimits) → StepMoves (occurrence_step limits)
unfolding occurrence_step
StepMoves-occurrence limits s f w r = search moves depth 24

pub StepMoves-relationship : (limits : DecodeLimits) → StepMoves (relationship_step limits)
unfolding relationship_step
StepMoves-relationship limits s f w r = search moves depth 24

pub StepMoves-tool_info : (limits : DecodeLimits) → StepMoves (tool_info_step limits)
unfolding tool_info_step
StepMoves-tool_info limits s f w r = search moves depth 24

pub StepMoves-metadata : (limits : DecodeLimits) → StepMoves (metadata_step limits)
unfolding metadata_step
StepMoves-metadata limits s f w r = search moves depth 24

pub StepMoves-symbol : (limits : DecodeLimits) → StepMoves (symbol_step limits)
unfolding symbol_step
StepMoves-symbol limits s f w r = search moves depth 24

pub StepMoves-document : (limits : DecodeLimits) → StepMoves (document_step limits)
unfolding document_step
StepMoves-document limits s f w r = search moves depth 24

pub StepMoves-index : (limits : DecodeLimits) → StepMoves (index_step limits)
unfolding index_step
StepMoves-index limits s f w r = search moves depth 24
