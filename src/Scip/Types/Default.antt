-- ===== src/Scip/Types/Default.antt =====
-- `Default::default` of the types of src/scip_decoder.rs.
use workspace_atlas.Common.{false, [], none}
use workspace_atlas.Scip.Types.{
  ScipMetadata, PositionEncoding, ScipRange, ScipOccurrence, ScipRelationship,
  ScipSymbolInformation, ScipDocument, ScipIndex,
}

abbrev pub metadata : ScipMetadata
metadata = record { tool_name = []; tool_version = []; project_root = [] }

abbrev pub range : ScipRange
range = record { start_line = 0; start_character = 0; end_line = 0; end_character = 0 }

abbrev pub occurrence : ScipOccurrence
occurrence = record { range = range; symbol = []; symbol_roles = 0; syntax_kind = 0 }

abbrev pub relationship : ScipRelationship
relationship = record {
  symbol = [];
  is_reference = false;
  is_implementation = false;
  is_type_definition = false;
  is_definition = false;
}

abbrev pub symbol_information : ScipSymbolInformation
symbol_information = record { symbol = []; documentation = []; relationships = []; kind = 0 }

abbrev pub document : ScipDocument
document = record {
  language = [];
  relative_path = [];
  occurrences = [];
  symbols = [];
  position_encoding = PositionEncoding.unspecified;
}

abbrev pub index : ScipIndex
index = record { metadata = none; documents = []; external_symbols = [] }
