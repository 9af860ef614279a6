-- ===== src/Scip/RoundTrip/Symbols.antt =====
-- Symbols with their documentation and relationships, written as protobuf and decoded again
-- (src/scip_decoder.rs).
use workspace_atlas.Common.{
  ℕ, ◌^◌, ◌≤◌, ◌<◌, List, [], ◌∷◌, ◌++◌, Text, codes, ok, ◌≡◌, refl, sym, ap, arith, length, All,
}
use workspace_atlas.Scip.Types.{DecodeLimits, ScipRelationship, ScipSymbolInformation}
use workspace_atlas.Scip.Types.Default
use workspace_atlas.Scip.Reader.{read_varint, varint_to_i32}
use workspace_atlas.Scip.Encode.{encode_varint}
use workspace_atlas.Scip.Messages.{decode_relationship}
use workspace_atlas.Scip.Index.{symbol_step, decode_symbol_information}
use workspace_atlas.Scip.Limits.{StringFits, RelationshipFits, SymbolFits}
use workspace_atlas.Scip.RoundTrip.{
  Takes, Takes-varint, Takes-store, delimited, Feeds, decode_message-Feeds,
}
use workspace_atlas.Scip.RoundTrip.Repeated.{
  All-both, repeated, Collected, Takes-room, repeated-Feeds,
}
use workspace_atlas.Scip.RoundTrip.Relationships.{
  Field, encode_fields, delimited_field, number_field, encode_relationship, Takes-text, Takes-inner,
  decode_relationship-encode,
}

abbrev pub symbol_fields : ScipSymbolInformation → List Field
symbol_fields sym =
    delimited_field 1 sym.symbol ∷ repeated 3 (λ d. d) sym.documentation
    ++ (repeated 4 encode_relationship sym.relationships ++ number_field 5 sym.kind ∷ [])

abbrev pub encode_symbol_information : ScipSymbolInformation → List ℕ
encode_symbol_information sym = encode_fields (symbol_fields sym)

module _ (limits : DecodeLimits) (machine : limits.max_string_bytes < 2 ^ 64) where
  -- An inner message that is as long as a field may be.
  abbrev pub Written : ScipRelationship → Type 0
  Written rel = length (encode_relationship rel) ≤ limits.max_string_bytes

  abbrev documentation : Collected ScipSymbolInformation Text
  documentation = record {
    items = λ s. s.documentation;
    put = λ s ds. record s { documentation = ds };
    items-put = λ s ds. refl;
    put-put = λ s ds es. refl;
    put-items = λ s. refl;
  }

  abbrev relationships : Collected ScipSymbolInformation ScipRelationship
  relationships = record {
    items = λ s. s.relationships;
    put = λ s rs. record s { relationships = rs };
    items-put = λ s rs. refl;
    put-put = λ s rs us. refl;
    put-items = λ s. refl;
  }

  Takes-documentation :
      (s : ScipSymbolInformation) (d : Text)
      → StringFits limits d
      → length s.documentation < limits.max_documentation_entries_per_symbol
      → Takes
          (symbol_step limits s 3 2)
          (delimited d)
          (record s { documentation = s.documentation ++ d ∷ [] })
  unfolding symbol_step
  Takes-documentation s d fits free =
      Takes-room (codes "max_documentation_entries_per_symbol") s.documentation
        limits.max_documentation_entries_per_symbol _ (delimited d)
        (record s { documentation = s.documentation ++ d ∷ [] }) free
        (Takes-text limits machine (codes "SymbolInformation.documentation")
          (λ v. record s { documentation = s.documentation ++ v ∷ [] }) d fits)

  Takes-relationship :
      (s : ScipSymbolInformation) (r : ScipRelationship)
      → RelationshipFits limits r × Written r
      → length s.relationships < limits.max_relationships_per_symbol
      → Takes
          (symbol_step limits s 4 2)
          (delimited (encode_relationship r))
          (record s { relationships = s.relationships ++ r ∷ [] })
  unfolding symbol_step
  Takes-relationship s r (fits, written) free =
      Takes-room (codes "max_relationships_per_symbol") s.relationships
        limits.max_relationships_per_symbol _ (delimited (encode_relationship r))
        (record s { relationships = s.relationships ++ r ∷ [] }) free
        (Takes-inner limits machine limits.max_string_bytes (λ sub. decode_relationship sub limits)
          (λ v. record s { relationships = s.relationships ++ v ∷ [] }) (encode_relationship r) r
          machine written (decode_relationship-encode limits machine r fits (omega arith)))

  symbol-Feeds :
      (info : ScipSymbolInformation)
      → SymbolFits limits info
      → All Written info.relationships
      → info.kind < 2 ^ 32
      → Feeds (symbol_step limits) Default.symbol_information (encode_symbol_information info) info
  unfolding symbol_step
  symbol-Feeds info fits written kind =
      let s1 = record Default.symbol_information { symbol = info.symbol } in
      let s2 = record s1 { documentation = info.documentation } in
      let s3 = record s2 { relationships = info.relationships } in
      let cut : varint_to_i32 info.kind ≡ info.kind = omega arith in
      Feeds.field {t = s1} 1 2 (delimited info.symbol) _ (omega arith) (omega arith)
        (Takes-text limits machine (codes "SymbolInformation.symbol")
          (λ v. record Default.symbol_information { symbol = v }) info.symbol fits.0)
        (repeated-Feeds (symbol_step limits) documentation 3
          limits.max_documentation_entries_per_symbol (λ d. d) (StringFits limits) (omega arith)
          Takes-documentation s1 info.documentation
          (repeated 4 encode_relationship info.relationships ++ number_field 5 info.kind ∷ []) info
          (omega arith) fits.1
          (repeated-Feeds (symbol_step limits) relationships 4 limits.max_relationships_per_symbol
            encode_relationship (λ r. RelationshipFits limits r × Written r) (omega arith)
            Takes-relationship s2 info.relationships (number_field 5 info.kind ∷ []) info
            (omega arith) (All-both _ _ info.relationships fits.3 written)
            (Feeds.field {t = info} 5 0 (encode_varint info.kind) _ (omega arith) (omega arith)
              (Takes-store read_varint (λ v. ok (record s3 { kind = varint_to_i32 v }))
                (encode_varint info.kind) info.kind info (Takes-varint info.kind (omega arith))
                (ap (λ k. ok (record s3 { kind = k })) cut))
              Feeds.end)))

  -- A symbol whose fields are written in the order of their numbers is decoded to itself, if it obeys
  -- the limits, its kind is a 32-bit pattern, each relationship as written is no longer than a field
  -- may be, and lengths are those of a 64-bit machine.
  pub decode_symbol_information-encode :
      (info : ScipSymbolInformation)
      → SymbolFits limits info
      → All Written info.relationships
      → info.kind < 2 ^ 32
      → length (encode_symbol_information info) < 2 ^ 64
      → decode_symbol_information (encode_symbol_information info) limits ≡ ok info
  unfolding decode_symbol_information
  decode_symbol_information-encode info fits written kind small =
      decode_message-Feeds (symbol_step limits) Default.symbol_information info
        (encode_symbol_information info) small (symbol-Feeds info fits written kind)
