-- ===== src/Scip/Index.antt =====
-- The decoders of symbols, documents and of the whole index (src/scip_decoder.rs), whose fields
-- that repeat are counted against the limits.
use workspace_atlas.Common.{
  ℕ, ◌+◌, List, [], ◌∷◌, ◌++◌, some, Text, codes, ok, ◌>>=◌, ◌>>◌, refuse_if, ltb, leb, max,
  if◌then◌else◌, length,
}
use workspace_atlas.Scip.Types.{
  DResult, DecodeLimits, ScipDecodeError, ScipSymbolInformation, ScipDocument, ScipIndex,
  from_scip_value,
}
use workspace_atlas.Scip.Types.Default
use workspace_atlas.Scip.Reader.{read_length_delimited, store}
use workspace_atlas.Scip.Fields.{Step, is_field, skip, decode_message}
use workspace_atlas.Scip.Messages.{
  store_i32, store_string, decode_occurrence, decode_relationship, decode_metadata,
}

-- `if items.len() >= max { return Err(LimitExceeded { … }) }`.
abbrev pub room : {A : Type 0} → Text → List A → ℕ → DResult (Unit {0})
room limit items most =
    refuse_if (leb most (length items))
      (ScipDecodeError.limit_exceeded limit (length items + 1) most)

unfoldable pub symbol_step : DecodeLimits → Step ScipSymbolInformation
symbol_step limits sym f w r =
    if is_field f w 1 2
    then store_string (codes "SymbolInformation.symbol") limits.max_string_bytes r
        (λ v. record sym { symbol = v })
    else if is_field f w 3 2
    then (room (codes "max_documentation_entries_per_symbol") sym.documentation
          limits.max_documentation_entries_per_symbol
        >> store_string (codes "SymbolInformation.documentation") limits.max_string_bytes r
            (λ v. record sym { documentation = sym.documentation ++ v ∷ [] }))
    else if is_field f w 4 2
    then (room (codes "max_relationships_per_symbol") sym.relationships
          limits.max_relationships_per_symbol
        >> store (read_length_delimited limits.max_string_bytes r) (λ sub.
          decode_relationship sub limits >>= λ rel.
          ok (record sym { relationships = sym.relationships ++ rel ∷ [] })))
    else if is_field f w 5 0
    then store_i32 r (λ v. record sym { kind = v })
    else skip limits.max_string_bytes sym w r

unfoldable pub decode_symbol_information : List ℕ → DecodeLimits → DResult ScipSymbolInformation
decode_symbol_information bytes limits =
    decode_message (symbol_step limits) Default.symbol_information bytes

unfoldable pub document_step : DecodeLimits → Step ScipDocument
document_step limits doc f w r =
    if is_field f w 1 2
    then store_string (codes "Document.relative_path") limits.max_string_bytes r
        (λ v. record doc { relative_path = v })
    else if is_field f w 2 2
    then (room (codes "max_occurrences_per_document") doc.occurrences
          limits.max_occurrences_per_document
        >> store (read_length_delimited limits.max_string_bytes r) (λ sub.
          decode_occurrence sub limits >>= λ occ.
          ok (record doc { occurrences = doc.occurrences ++ occ ∷ [] })))
    else if is_field f w 3 2
    then (room (codes "max_symbols_per_document") doc.symbols limits.max_symbols_per_document
        >> store (read_length_delimited limits.max_string_bytes r) (λ sub.
          decode_symbol_information sub limits >>= λ sym.
          ok (record doc { symbols = doc.symbols ++ sym ∷ [] })))
    else if is_field f w 4 2
    then store_string (codes "Document.language") limits.max_string_bytes r
        (λ v. record doc { language = v })
    else if is_field f w 6 0
    then store_i32 r (λ v. record doc { position_encoding = from_scip_value v })
    else skip limits.max_string_bytes doc w r

unfoldable pub decode_document : List ℕ → DecodeLimits → DResult ScipDocument
decode_document bytes limits = decode_message (document_step limits) Default.document bytes

unfoldable pub index_step : DecodeLimits → Step ScipIndex
index_step limits index f w r =
    if is_field f w 1 2
    then store (read_length_delimited (max limits.max_string_bytes 4096) r)
        (λ sub. decode_metadata sub limits >>= λ meta. ok (record index { metadata = some meta }))
    else if is_field f w 2 2
    then (room (codes "max_documents") index.documents limits.max_documents
        >> store (read_length_delimited limits.max_message_bytes r) (λ sub.
          decode_document sub limits >>= λ doc.
          ok (record index { documents = index.documents ++ doc ∷ [] })))
    else if is_field f w 3 2
    then (room (codes "max_external_symbols") index.external_symbols limits.max_external_symbols
        >> store (read_length_delimited limits.max_string_bytes r) (λ sub.
          decode_symbol_information sub limits >>= λ sym.
          ok (record index { external_symbols = index.external_symbols ++ sym ∷ [] })))
    else skip limits.max_string_bytes index w r

unfoldable pub decode_index : List ℕ → DecodeLimits → DResult ScipIndex
decode_index bytes limits =
    refuse_if (ltb limits.max_message_bytes (length bytes)) (
      ScipDecodeError.limit_exceeded (codes "max_message_bytes") (length bytes)
        limits.max_message_bytes)
    >> decode_message (index_step limits) Default.index bytes
