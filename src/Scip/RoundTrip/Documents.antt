-- ===== src/Scip/RoundTrip/Documents.antt =====
-- Documents with their occurrences and symbols, written as protobuf and decoded again
-- (src/scip_decoder.rs).
use workspace_atlas.Common.{
  ◌>>=◌, ℕ, ◌^◌, ◌≤◌, ◌<◌, List, [], ◌∷◌, ◌++◌, codes, ok, ◌≡◌, refl, ap, ◌∙◌, arith, length, All,
}
use workspace_atlas.Scip.Types.{
  DecodeLimits, PositionEncoding, ScipOccurrence, ScipSymbolInformation, ScipDocument,
  from_scip_value,
}
use workspace_atlas.Scip.Types.Default
use workspace_atlas.Scip.Reader.{read_length_delimited, read_varint, store, varint_to_i32}
use workspace_atlas.Scip.Encode.{encode_varint}
use workspace_atlas.Scip.Messages.{decode_occurrence}
use workspace_atlas.Scip.Index.{document_step, decode_symbol_information, decode_document}
use workspace_atlas.Scip.Limits.{OccurrenceFits, SymbolFits, DocumentFits}
use workspace_atlas.Scip.RoundTrip.{
  Takes, Takes-varint, Takes-store, delimited, Feeds, decode_message-Feeds,
}
use workspace_atlas.Scip.RoundTrip.Repeated.{
  All-both, repeated, Collected, Takes-room, repeated-Feeds,
}
use workspace_atlas.Scip.RoundTrip.Relationships.{
  Field, encode_fields, delimited_field, number_field, Takes-text, Takes-inner,
}
use workspace_atlas.Scip.RoundTrip.Symbols.{
  encode_symbol_information, Written, decode_symbol_information-encode,
}
use workspace_atlas.Scip.RoundTrip.Occurrences.{
  encode_occurrence, OccurrenceWritten, decode_occurrence-encode,
}

abbrev pub scip_value : PositionEncoding → ℕ
scip_value PositionEncoding.unspecified = 0
scip_value PositionEncoding.utf8 = 1
scip_value PositionEncoding.utf16 = 2
scip_value PositionEncoding.utf32 = 3
scip_value (PositionEncoding.unknown value) = value

-- The number of an unknown encoding is a 32-bit pattern, and not that of a known one.
abbrev pub EncodingWritten : PositionEncoding → Type 0
EncodingWritten PositionEncoding.unspecified = Unit
EncodingWritten PositionEncoding.utf8 = Unit
EncodingWritten PositionEncoding.utf16 = Unit
EncodingWritten PositionEncoding.utf32 = Unit
EncodingWritten (PositionEncoding.unknown value) = (4 ≤ value) × (value < 2 ^ 32)

from_scip_value-scip_value :
    (encoding : PositionEncoding)
    → EncodingWritten encoding
    → (scip_value encoding < 2 ^ 32) × (from_scip_value (scip_value encoding) ≡ encoding)
unfolding from_scip_value
from_scip_value-scip_value PositionEncoding.unspecified written = (omega arith, refl)
from_scip_value-scip_value PositionEncoding.utf8 written = (omega arith, refl)
from_scip_value-scip_value PositionEncoding.utf16 written = (omega arith, refl)
from_scip_value-scip_value PositionEncoding.utf32 written = (omega arith, refl)
from_scip_value-scip_value (PositionEncoding.unknown value) (four, small) = (small, ground arith)

abbrev pub tail_fields : ScipDocument → List Field
tail_fields doc =
    delimited_field 4 doc.language ∷ number_field 6 (scip_value doc.position_encoding) ∷ []

abbrev pub document_fields : ScipDocument → List Field
document_fields doc =
    delimited_field 1 doc.relative_path ∷ repeated 2 encode_occurrence doc.occurrences
    ++ (repeated 3 encode_symbol_information doc.symbols ++ tail_fields doc)

abbrev pub encode_document : ScipDocument → List ℕ
encode_document doc = encode_fields (document_fields doc)

module _ (limits : DecodeLimits) (machine : limits.max_string_bytes < 2 ^ 64) where
  abbrev occurrences : Collected ScipDocument ScipOccurrence
  occurrences = record {
    items = λ s. s.occurrences;
    put = λ s xs. record s { occurrences = xs };
    items-put = λ s xs. refl;
    put-put = λ s xs ys. refl;
    put-items = λ s. refl;
  }

  Takes-occurrence :
      (s : ScipDocument) (o : ScipOccurrence)
      → OccurrenceFits limits o × OccurrenceWritten limits machine o
      → length s.occurrences < limits.max_occurrences_per_document
      → Takes
          (document_step limits s 2 2)
          (delimited (encode_occurrence o))
          (record s { occurrences = s.occurrences ++ o ∷ [] })
  unfolding document_step
  Takes-occurrence s o (fits, written) free =
      Takes-room (codes "max_occurrences_per_document") s.occurrences
        limits.max_occurrences_per_document _ (delimited (encode_occurrence o))
        (record s { occurrences = s.occurrences ++ o ∷ [] }) free
        (Takes-inner limits machine limits.max_string_bytes (λ sub. decode_occurrence sub limits)
          (λ v. record s { occurrences = s.occurrences ++ v ∷ [] }) (encode_occurrence o) o machine
          written.3 (decode_occurrence-encode limits machine o fits written))

  -- A symbol that can be written.
  abbrev pub SymbolWritten : ScipSymbolInformation → Type 0
  SymbolWritten info =
      All (Written limits machine) info.relationships
      × (info.kind < 2 ^ 32)
      × (length (encode_symbol_information info) ≤ limits.max_string_bytes)

  -- A symbol in a field that may be as long as a string.
  pub Takes-symbol :
      {S : Type 0} (change : ScipSymbolInformation → S) (i : ScipSymbolInformation)
      → SymbolFits limits i × SymbolWritten i
      → Takes
          (λ r.
            store
              (read_length_delimited limits.max_string_bytes r)
              (λ sub. decode_symbol_information sub limits >>= λ v. ok (change v)))
          (delimited (encode_symbol_information i))
          (change i)
  Takes-symbol change i (fits, written) =
      let (inner, kind, short) = written in
      Takes-inner limits machine limits.max_string_bytes
        (λ sub. decode_symbol_information sub limits) change (encode_symbol_information i) i machine
        short (decode_symbol_information-encode limits machine i fits inner kind (omega arith))

  abbrev symbols : Collected ScipDocument ScipSymbolInformation
  symbols = record {
    items = λ s. s.symbols;
    put = λ s xs. record s { symbols = xs };
    items-put = λ s xs. refl;
    put-put = λ s xs ys. refl;
    put-items = λ s. refl;
  }

  Takes-document_symbol :
      (s : ScipDocument) (i : ScipSymbolInformation)
      → SymbolFits limits i × SymbolWritten i
      → length s.symbols < limits.max_symbols_per_document
      → Takes
          (document_step limits s 3 2)
          (delimited (encode_symbol_information i))
          (record s { symbols = s.symbols ++ i ∷ [] })
  unfolding document_step
  Takes-document_symbol s i good free =
      Takes-room (codes "max_symbols_per_document") s.symbols limits.max_symbols_per_document _
        (delimited (encode_symbol_information i)) (record s { symbols = s.symbols ++ i ∷ [] }) free
        (Takes-symbol (λ v. record s { symbols = s.symbols ++ v ∷ [] }) i good)

  abbrev pub DocumentWritten : ScipDocument → Type 0
  DocumentWritten doc =
      All (OccurrenceWritten limits machine) doc.occurrences
      × All SymbolWritten doc.symbols
      × EncodingWritten doc.position_encoding

  document-Feeds :
      (doc : ScipDocument)
      → DocumentFits limits doc
      → DocumentWritten doc
      → Feeds (document_step limits) Default.document (encode_document doc) doc
  unfolding document_step
  document-Feeds doc (language, path, occs, few_occs, infos, few_infos) (occs', infos', encoding) =
      let (small, known) = from_scip_value-scip_value doc.position_encoding encoding in
      let s1 = record Default.document { relative_path = doc.relative_path } in
      let s2 = record s1 { occurrences = doc.occurrences } in
      let s3 = record s2 { symbols = doc.symbols } in
      let s4 = record s3 { language = doc.language } in
      let value = scip_value doc.position_encoding in
      let cut : varint_to_i32 value ≡ value = omega arith in
      Feeds.field {t = s1} 1 2 (delimited doc.relative_path) _ (omega arith) (omega arith)
        (Takes-text limits machine (codes "Document.relative_path")
          (λ v. record Default.document { relative_path = v }) doc.relative_path path)
        (repeated-Feeds (document_step limits) occurrences 2 limits.max_occurrences_per_document
          encode_occurrence (λ o. OccurrenceFits limits o × OccurrenceWritten limits machine o)
          (omega arith) Takes-occurrence s1 doc.occurrences
          (repeated 3 encode_symbol_information doc.symbols ++ tail_fields doc) doc (omega arith)
          (All-both _ _ doc.occurrences occs occs')
          (repeated-Feeds (document_step limits) symbols 3 limits.max_symbols_per_document
            encode_symbol_information (λ i. SymbolFits limits i × SymbolWritten i) (omega arith)
            Takes-document_symbol s2 doc.symbols (tail_fields doc) doc (omega arith)
            (All-both _ _ doc.symbols infos infos')
            (Feeds.field {t = s4} 4 2 (delimited doc.language) _ (omega arith) (omega arith)
              (Takes-text limits machine (codes "Document.language")
                (λ v. record s3 { language = v }) doc.language language)
              (Feeds.field {t = doc} 6 0 (encode_varint value) _ (omega arith) (omega arith)
                (Takes-store read_varint
                  (λ v. ok (record s4 { position_encoding = from_scip_value (varint_to_i32 v) }))
                  (encode_varint value) value doc (Takes-varint value (omega arith))
                  (ap (λ k. ok (record s4 { position_encoding = from_scip_value k })) cut
                    ∙ ap (λ e. ok (record s4 { position_encoding = e })) known))
                Feeds.end))))

  -- A document written with its fields in the order of their numbers is decoded to itself, if it obeys the limits,
  -- the numbers in it are 32-bit patterns, each inner message as written is no longer than a field may
  -- be, and lengths are those of a 64-bit machine.
  pub decode_document-encode :
      (doc : ScipDocument)
      → DocumentFits limits doc
      → DocumentWritten doc
      → length (encode_document doc) < 2 ^ 64
      → decode_document (encode_document doc) limits ≡ ok doc
  unfolding decode_document
  decode_document-encode doc fits written small =
      decode_message-Feeds (document_step limits) Default.document doc (encode_document doc) small
        (document-Feeds doc fits written)
