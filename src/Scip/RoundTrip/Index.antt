-- ===== src/Scip/RoundTrip/Index.antt =====
-- A whole index written as protobuf and decoded again (src/scip_decoder.rs).
use mathlib.Core.List.{append-nil}
use mathlib.Core.Path.{subst}
use workspace_atlas.Common.{
  ℕ, ◌^◌, ◌≤◌, ◌<◌, false, List, [], ◌∷◌, ◌++◌, Option, none, some, codes, ok, ltb, max, ◌≡◌, refl,
  arith, length, All,
}
use workspace_atlas.Scip.Types.{
  DecodeLimits, ScipMetadata, ScipSymbolInformation, ScipDocument, ScipIndex,
}
use workspace_atlas.Scip.Types.Default
use workspace_atlas.Scip.Messages.{decode_metadata}
use workspace_atlas.Scip.Index.{index_step, decode_document, decode_index}
use workspace_atlas.Scip.Limits.{SymbolFits, DocumentFits, OptionFits, IndexFits}
use workspace_atlas.Scip.RoundTrip.{Takes, delimited, Feeds, decode_message-Feeds}
use workspace_atlas.Scip.RoundTrip.Repeated.{
  All-both, repeated, Collected, Takes-room, repeated-Feeds,
}
use workspace_atlas.Scip.RoundTrip.Relationships.{
  Field, encode_fields, delimited_field, Takes-inner,
}
use workspace_atlas.Scip.RoundTrip.Symbols.{encode_symbol_information}
use workspace_atlas.Scip.RoundTrip.Metadata.{
  encode_metadata, MetadataWritten, decode_metadata-encode,
}
use workspace_atlas.Scip.RoundTrip.Documents.{
  SymbolWritten, Takes-symbol, encode_document, DocumentWritten, decode_document-encode,
}

abbrev pub metadata_fields : Option ScipMetadata → List Field
metadata_fields none = []
metadata_fields (some meta) = delimited_field 1 (encode_metadata meta) ∷ []

abbrev pub index_fields : ScipIndex → List Field
index_fields index =
    metadata_fields index.metadata
    ++ (repeated 2 encode_document index.documents
        ++ repeated 3 encode_symbol_information index.external_symbols)

abbrev pub encode_index : ScipIndex → List ℕ
encode_index index = encode_fields (index_fields index)

module _ (limits : DecodeLimits) (machine : limits.max_string_bytes < 2 ^ 64)
    (machine' : limits.max_message_bytes < 2 ^ 64) where
  abbrev externals : Collected ScipIndex ScipSymbolInformation
  externals = record {
    items = λ s. s.external_symbols;
    put = λ s xs. record s { external_symbols = xs };
    items-put = λ s xs. refl;
    put-put = λ s xs ys. refl;
    put-items = λ s. refl;
  }

  Takes-external :
      (s : ScipIndex) (i : ScipSymbolInformation)
      → SymbolFits limits i × SymbolWritten limits machine i
      → length s.external_symbols < limits.max_external_symbols
      → Takes
          (index_step limits s 3 2)
          (delimited (encode_symbol_information i))
          (record s { external_symbols = s.external_symbols ++ i ∷ [] })
  unfolding index_step
  Takes-external s i good free =
      Takes-room (codes "max_external_symbols") s.external_symbols limits.max_external_symbols _
        (delimited (encode_symbol_information i))
        (record s { external_symbols = s.external_symbols ++ i ∷ [] }) free
        (Takes-symbol limits machine
          (λ v. record s { external_symbols = s.external_symbols ++ v ∷ [] }) i good)

  -- A document that can be written.
  abbrev pub EntryWritten : ScipDocument → Type 0
  EntryWritten doc =
      DocumentWritten limits machine doc × (length (encode_document doc) ≤ limits.max_message_bytes)

  abbrev documents : Collected ScipIndex ScipDocument
  documents = record {
    items = λ s. s.documents;
    put = λ s xs. record s { documents = xs };
    items-put = λ s xs. refl;
    put-put = λ s xs ys. refl;
    put-items = λ s. refl;
  }

  Takes-document :
      (s : ScipIndex) (d : ScipDocument)
      → DocumentFits limits d × EntryWritten d
      → length s.documents < limits.max_documents
      → Takes
          (index_step limits s 2 2)
          (delimited (encode_document d))
          (record s { documents = s.documents ++ d ∷ [] })
  unfolding index_step
  Takes-document s d (fits, written) free =
      let (inner, short) = written in
      Takes-room (codes "max_documents") s.documents limits.max_documents _
        (delimited (encode_document d)) (record s { documents = s.documents ++ d ∷ [] }) free
        (Takes-inner limits machine limits.max_message_bytes (λ sub. decode_document sub limits)
          (λ v. record s { documents = s.documents ++ v ∷ [] }) (encode_document d) d machine' short
          (decode_document-encode limits machine d fits inner (omega arith)))

  abbrev pub HeadWritten : Option ScipMetadata → Type 0
  HeadWritten none = Unit
  HeadWritten (some meta) =
      MetadataWritten limits machine meta
      × (length (encode_metadata meta) ≤ max limits.max_string_bytes 4096)

  metadata-Feeds :
      (meta : Option ScipMetadata) (rest : List Field) (t : ScipIndex)
      → OptionFits limits meta
      → HeadWritten meta
      → Feeds (index_step limits) (record Default.index { metadata = meta }) (encode_fields rest) t
      → Feeds (index_step limits) Default.index (encode_fields (metadata_fields meta ++ rest)) t
  unfolding index_step
  metadata-Feeds none rest t fits written feeds = feeds
  metadata-Feeds (some meta) rest t fits (inner, short) feeds =
      let most : max limits.max_string_bytes 4096 < 2 ^ 64 = ground arith in
      Feeds.field {t = record Default.index { metadata = some meta }} 1 2
        (delimited (encode_metadata meta)) _ (omega arith) (omega arith)
        (Takes-inner limits machine (max limits.max_string_bytes 4096)
          (λ sub. decode_metadata sub limits) (λ v. record Default.index { metadata = some v })
          (encode_metadata meta) meta most short
          (decode_metadata-encode limits machine meta fits inner (omega arith)))
        feeds

  -- An index that can be written: numbers are 32-bit patterns, and no message in it is longer as
  -- written than the decoder reads.
  abbrev pub IndexWritten : ScipIndex → Type 0
  IndexWritten index =
      HeadWritten index.metadata
      × All EntryWritten index.documents
      × All (SymbolWritten limits machine) index.external_symbols
      × (length (encode_index index) ≤ limits.max_message_bytes)

  -- An index whose fields are written in the order of metadata, documents and external symbols, and
  -- whose ranges are written as typed ranges, is decoded to itself, if it obeys the limits, the numbers
  -- in it are 32-bit patterns, no message in it is longer as written than the decoder reads, and the
  -- limits are below 2^64.
  pub decode_index-encode_index :
      (index : ScipIndex)
      → IndexFits limits index
      → IndexWritten index
      → decode_index (encode_index index) limits ≡ ok index
  unfolding decode_index
  decode_index-encode_index index (meta, docs, few_docs, infos, few_infos)
        (meta', docs', infos', short) =
      let s1 = record Default.index { metadata = index.metadata } in
      let s2 = record s1 { documents = index.documents } in
      let low : ltb limits.max_message_bytes (length (encode_index index)) ≡ false = ground arith in
      rw low (
        decode_message-Feeds (index_step limits) Default.index index (encode_index index)
          (omega arith)
          (metadata-Feeds index.metadata
            (repeated 2 encode_document index.documents
              ++ repeated 3 encode_symbol_information index.external_symbols)
            index meta meta'
            (repeated-Feeds (index_step limits) documents 2 limits.max_documents encode_document
              (λ d. DocumentFits limits d × EntryWritten d) (omega arith) Takes-document s1
              index.documents (repeated 3 encode_symbol_information index.external_symbols) index
              (omega arith) (All-both _ _ index.documents docs docs')
              (subst (λ fs. Feeds (index_step limits) s2 (encode_fields fs) index)
                (append-nil (repeated 3 encode_symbol_information index.external_symbols))
                (repeated-Feeds (index_step limits) externals 3 limits.max_external_symbols
                  encode_symbol_information
                  (λ i. SymbolFits limits i × SymbolWritten limits machine i) (omega arith)
                  Takes-external s2 index.external_symbols [] index (omega arith)
                  (All-both _ _ index.external_symbols infos infos') Feeds.end)))))
