-- ===== src/Scip/Bounded/Index.antt =====
-- Symbols, documents and the whole index that src/scip_decoder.rs decodes obey the limits.
use workspace_atlas.Common.{ℕ, List, ok, ◌≡◌, ◌≤◌, arith, length, refuse_if, ltb, codes, >>=-eq-ok}
use workspace_atlas.Scip.Types.{
  DecodeLimits, ScipDecodeError, ScipSymbolInformation, ScipDocument, ScipIndex,
}
use workspace_atlas.Scip.Types.Default
use workspace_atlas.Scip.Index.{
  symbol_step, document_step, index_step, decode_symbol_information, decode_document, decode_index,
}
use workspace_atlas.Scip.Fields.{is_field, decode_message}
use workspace_atlas.Scip.Keeps.{
  Keeps-if, Keeps-store, Keeps-skip, Keeps-inner, Keeps-room, decode_message-keeps,
}
use workspace_atlas.Scip.Limits.{
  StringFits, RelationshipFits, OccurrenceFits, MetadataFits, SymbolFits, DocumentFits, IndexFits,
  read_string-StringFits,
}
use workspace_atlas.Scip.Bounded.{
  StepKeeps, empty-StringFits, push-Fits, decode_relationship-Fits, decode_occurrence-Fits,
  decode_metadata-Fits,
}

module _ (limits : DecodeLimits) where
  symbol_step-keeps : StepKeeps limits (SymbolFits limits) (symbol_step limits)
  unfolding symbol_step
  symbol_step-keeps s f w r p =
      let P : ScipSymbolInformation → Type 0 = SymbolFits limits in
      Keeps-if P (is_field f w 1 2) _ _
        (Keeps-store P _ _
          (λ v r' e. (read_string-StringFits limits _ r r' v e, p.1, p.2, p.3, p.4)))
        (Keeps-if P (is_field f w 3 2) _ _
          (Keeps-room P _ _ _ _ (λ free. Keeps-store P _ _ (λ v r' e.
            let fits = read_string-StringFits limits _ r r' v e in
            let (all, few) = push-Fits limits (StringFits limits) _ v _ p.1 fits free in
            (p.0, all, few, p.3, p.4))))
          (Keeps-if P (is_field f w 4 2) _ _
            (Keeps-room P _ _ _ _ (λ free.
              Keeps-inner P (RelationshipFits limits) _ _ _ (decode_relationship-Fits limits)
                (λ rel q.
                  let (all, few) = push-Fits limits (RelationshipFits limits) _ rel _ p.3 q free in
                  (p.0, p.1, p.2, all, few))))
            (Keeps-if P (is_field f w 5 0) _ _ (Keeps-store P _ _ (λ v r' e. p))
              (Keeps-skip P limits.max_string_bytes s w r p))))

  decode_symbol_information-Fits :
      (bytes : List ℕ) (sym : ScipSymbolInformation)
      → decode_symbol_information bytes limits ≡ ok sym
      → SymbolFits limits sym
  unfolding decode_symbol_information
  decode_symbol_information-Fits bytes sym h =
      decode_message-keeps (SymbolFits limits) (symbol_step limits) symbol_step-keeps
        Default.symbol_information bytes sym
        (empty-StringFits limits, tt, omega arith, tt, omega arith) h

  document_step-keeps : StepKeeps limits (DocumentFits limits) (document_step limits)
  unfolding document_step
  document_step-keeps s f w r p =
      let P : ScipDocument → Type 0 = DocumentFits limits in
      Keeps-if P (is_field f w 1 2) _ _
        (Keeps-store P _ _
          (λ v r' e. (p.0, read_string-StringFits limits _ r r' v e, p.2, p.3, p.4, p.5)))
        (Keeps-if P (is_field f w 2 2) _ _
          (Keeps-room P _ _ _ _ (λ free.
            Keeps-inner P (OccurrenceFits limits) _ _ _ (decode_occurrence-Fits limits) (λ occ q.
              let (all, few) = push-Fits limits (OccurrenceFits limits) _ occ _ p.2 q free in
              (p.0, p.1, all, few, p.4, p.5))))
          (Keeps-if P (is_field f w 3 2) _ _
            (Keeps-room P _ _ _ _ (λ free.
              Keeps-inner P (SymbolFits limits) _ _ _ decode_symbol_information-Fits (λ sym q.
                let (all, few) = push-Fits limits (SymbolFits limits) _ sym _ p.4 q free in
                (p.0, p.1, p.2, p.3, all, few))))
            (Keeps-if P (is_field f w 4 2) _ _
              (Keeps-store P _ _
                (λ v r' e. (read_string-StringFits limits _ r r' v e, p.1, p.2, p.3, p.4, p.5)))
              (Keeps-if P (is_field f w 6 0) _ _ (Keeps-store P _ _ (λ v r' e. p))
                (Keeps-skip P limits.max_string_bytes s w r p)))))

  decode_document-Fits :
      (bytes : List ℕ) (doc : ScipDocument)
      → decode_document bytes limits ≡ ok doc
      → DocumentFits limits doc
  unfolding decode_document
  decode_document-Fits bytes doc h =
      decode_message-keeps (DocumentFits limits) (document_step limits) document_step-keeps
        Default.document bytes doc
        (empty-StringFits limits, empty-StringFits limits, tt, omega arith, tt, omega arith) h

  index_step-keeps : StepKeeps limits (IndexFits limits) (index_step limits)
  unfolding index_step
  index_step-keeps s f w r p =
      let P : ScipIndex → Type 0 = IndexFits limits in
      Keeps-if P (is_field f w 1 2) _ _
        (Keeps-inner P (MetadataFits limits) _ _ _ (decode_metadata-Fits limits)
          (λ meta q. (q, p.1, p.2, p.3, p.4)))
        (Keeps-if P (is_field f w 2 2) _ _
          (Keeps-room P _ _ _ _ (λ free.
            Keeps-inner P (DocumentFits limits) _ _ _ decode_document-Fits (λ doc q.
              let (all, few) = push-Fits limits (DocumentFits limits) _ doc _ p.1 q free in
              (p.0, all, few, p.3, p.4))))
          (Keeps-if P (is_field f w 3 2) _ _
            (Keeps-room P _ _ _ _ (λ free.
              Keeps-inner P (SymbolFits limits) _ _ _ decode_symbol_information-Fits (λ sym q.
                let (all, few) = push-Fits limits (SymbolFits limits) _ sym _ p.3 q free in
                (p.0, p.1, p.2, all, few))))
            (Keeps-skip P limits.max_string_bytes s w r p)))

  -- An index that `decode_index` returns obeys every limit, at every level: the numbers of
  -- documents and external symbols, of occurrences and symbols in each document, of documentation
  -- entries and relationships in each symbol; every string in it is UTF-8 and no longer than the
  -- limit; and the bytes it came from were no more than the limit on messages.
  pub decode_index-Fits :
      (bytes : List ℕ) (index : ScipIndex)
      → decode_index bytes limits ≡ ok index
      → IndexFits limits index × (length bytes ≤ limits.max_message_bytes)
  unfolding decode_index
  decode_index-Fits bytes index h =
      let (_, small, decoded) =
        >>=-eq-ok
          (refuse_if (ltb limits.max_message_bytes (length bytes)) (
            ScipDecodeError.limit_exceeded (codes "max_message_bytes") (length bytes)
              limits.max_message_bytes))
          (λ done. decode_message (index_step limits) Default.index bytes) h in
      let fits =
        decode_message-keeps (IndexFits limits) (index_step limits) index_step-keeps Default.index
          bytes index (tt, tt, omega arith, tt, omega arith) decoded in
      (fits, ground arith)
