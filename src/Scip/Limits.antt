-- ===== src/Scip/Limits.antt =====
-- What a decoder's result is bounded by (src/scip_decoder.rs): the limits, at every level of the
-- index, and the strings, which are UTF-8.
use workspace_atlas.Common.{
  ℕ, ◌≤◌, true, List, Option, none, some, Text, ok, ◌≡◌, All, length, length-take-le, arith,
  Result-cases, inl, inr,
}
use workspace_atlas.Scip.Types.{
  DecodeLimits, ScipRelationship, ScipOccurrence, ScipMetadata, ScipSymbolInformation, ScipDocument,
  ScipIndex,
}
use workspace_atlas.Scip.Reader.{
  Reader, is_utf8, unread, read_varint, read_length_delimited, read_string,
}

module _ (limits : DecodeLimits) where
  abbrev pub StringFits : Text → Type 0
  StringFits t = (length t ≤ limits.max_string_bytes) × (is_utf8 t ≡ true)

  abbrev pub RelationshipFits : ScipRelationship → Type 0
  RelationshipFits rel = StringFits rel.symbol

  abbrev pub OccurrenceFits : ScipOccurrence → Type 0
  OccurrenceFits occ = StringFits occ.symbol

  abbrev pub MetadataFits : ScipMetadata → Type 0
  MetadataFits meta =
      StringFits meta.tool_name × StringFits meta.tool_version × StringFits meta.project_root

  abbrev pub SymbolFits : ScipSymbolInformation → Type 0
  SymbolFits sym =
      StringFits sym.symbol
      × All StringFits sym.documentation
      × (length sym.documentation ≤ limits.max_documentation_entries_per_symbol)
      × All RelationshipFits sym.relationships
      × (length sym.relationships ≤ limits.max_relationships_per_symbol)

  abbrev pub DocumentFits : ScipDocument → Type 0
  DocumentFits doc =
      StringFits doc.language
      × StringFits doc.relative_path
      × All OccurrenceFits doc.occurrences
      × (length doc.occurrences ≤ limits.max_occurrences_per_document)
      × All SymbolFits doc.symbols
      × (length doc.symbols ≤ limits.max_symbols_per_document)

  abbrev pub OptionFits : Option ScipMetadata → Type 0
  OptionFits none = Unit
  OptionFits (some meta) = MetadataFits meta

  abbrev pub IndexFits : ScipIndex → Type 0
  IndexFits index =
      OptionFits index.metadata
      × All DocumentFits index.documents
      × (length index.documents ≤ limits.max_documents)
      × All SymbolFits index.external_symbols
      × (length index.external_symbols ≤ limits.max_external_symbols)

  length-read_length_delimited :
      (r r' : Reader) (bytes : List ℕ)
      → read_length_delimited limits.max_string_bytes r ≡ ok (bytes, r')
      → length bytes ≤ limits.max_string_bytes
  unfolding read_length_delimited
  length-read_length_delimited r r' bytes h = elim (Result-cases (read_varint r)) [
    | inl (out, e) ↦ ground (arith, length-take-le out.0 (unread out.1))
    | inr (failure, e) ↦ absurd (ground arith)
  ]

  pub read_string-StringFits :
      (field : Text) (r r' : Reader) (t : Text)
      → read_string field limits.max_string_bytes r ≡ ok (t, r')
      → StringFits t
  unfolding read_string
  read_string-StringFits field r r' t h =
      elim (Result-cases (read_length_delimited limits.max_string_bytes r)) [
        | inl (out, e) ↦ ground (arith, length-read_length_delimited r out.1 out.0 e)
        | inr (failure, e) ↦ absurd (ground arith)
      ]
