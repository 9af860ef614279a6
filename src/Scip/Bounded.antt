-- ===== src/Scip/Bounded.antt =====
-- The inner messages that src/scip_decoder.rs decodes obey the limits.
pub mod Index
use workspace_atlas.Common.{
  ℕ, suc, ◌≤◌, ◌++◌, List, [], ◌∷◌, none, some, Text, ok, ◌>>=◌, ◌≡◌, All, All-append, length,
  length-append, arith, refuse_if, >>=-eq-ok,
}
use workspace_atlas.Scip.Types.{
  DecodeLimits, ScipRelationship, ScipOccurrence, ScipMetadata, ScipSymbolInformation, ScipDocument,
  ScipIndex,
}
use workspace_atlas.Scip.Types.Default
use workspace_atlas.Scip.Reader.{Reader, utf8_from}
use workspace_atlas.Scip.Messages.{
  Occurring, no_occurrence, finish_occurrence, relationship_step, occurrence_step, metadata_step,
  tool_info_step, decode_relationship, decode_occurrence, decode_metadata, decode_tool_info,
  decode_packed_varints, decode_single_line_range, decode_multi_line_range,
}
use workspace_atlas.Scip.Index.{
  symbol_step, document_step, index_step, decode_symbol_information, decode_document, decode_index,
}
use workspace_atlas.Scip.Keeps.{
  Keeps, Keeps-if, Keeps-store, Keeps-skip, Keeps-inner, Keeps-room, decode_message-keeps,
}
use workspace_atlas.Scip.Limits.{
  StringFits, RelationshipFits, OccurrenceFits, MetadataFits, SymbolFits, DocumentFits, IndexFits,
  read_string-StringFits,
}
use workspace_atlas.Scip.Fields.{Step, is_field, decode_message}

module _ (limits : DecodeLimits) where
  -- A step that keeps a predicate.
  abbrev pub StepKeeps : {S : Type 0} → (S → Type 0) → Step S → Type 0
  StepKeeps {S} P step = (s : S) (f w : ℕ) (r : Reader) → P s → Keeps P (step s f w r)

  pub empty-StringFits : StringFits limits []
  unfolding utf8_from
  empty-StringFits = ground arith

  pub push-Fits :
      {A : Type 0} (P : A → Type 0) (xs : List A) (x : A) (most : ℕ)
      → All P xs
      → P x
      → suc (length xs) ≤ most
      → All P (xs ++ x ∷ []) × (length (xs ++ x ∷ []) ≤ most)
  push-Fits P xs x most a p h =
      (All-append P xs (x ∷ []) a (p, tt), omega (arith, length-append xs (x ∷ [])))

  relationship_step-keeps : StepKeeps (RelationshipFits limits) (relationship_step limits)
  unfolding relationship_step
  relationship_step-keeps s f w r p =
      search
        (
          Keeps-if (RelationshipFits limits),
          Keeps-store (RelationshipFits limits),
          read_string-StringFits limits,
        )
        depth 24

  pub decode_relationship-Fits :
      (bytes : List ℕ) (rel : ScipRelationship)
      → decode_relationship bytes limits ≡ ok rel
      → RelationshipFits limits rel
  unfolding decode_relationship
  decode_relationship-Fits bytes rel h =
      decode_message-keeps (RelationshipFits limits) (relationship_step limits)
        relationship_step-keeps Default.relationship bytes rel empty-StringFits h

  abbrev OccurringFits : Occurring → Type 0
  OccurringFits s = OccurrenceFits limits s.occ

  abbrev Anything : {A : Type 0} → A → Type 0
  Anything a = Unit {0}

  occurrence_step-keeps : StepKeeps OccurringFits (occurrence_step limits)
  unfolding occurrence_step
  occurrence_step-keeps s f w r p =
      search
        (
          Keeps-if OccurringFits,
          Keeps-store OccurringFits,
          Keeps-inner OccurringFits Anything,
          read_string-StringFits limits,
          tt,
        )
        depth 24

  pub decode_occurrence-Fits :
      (bytes : List ℕ) (occ : ScipOccurrence)
      → decode_occurrence bytes limits ≡ ok occ
      → OccurrenceFits limits occ
  unfolding decode_occurrence finish_occurrence
  decode_occurrence-Fits bytes occ h =
      let (s, e, q) =
        >>=-eq-ok (decode_message (occurrence_step limits) no_occurrence bytes)
          (λ s. ok (finish_occurrence s)) h in
      let fits =
        decode_message-keeps OccurringFits (occurrence_step limits) occurrence_step-keeps
          no_occurrence bytes s empty-StringFits e in
      ground (arith, fits)

  abbrev ToolFits : Text × Text → Type 0
  ToolFits info = StringFits limits info.0 × StringFits limits info.1

  tool_info_step-keeps : StepKeeps ToolFits (tool_info_step limits)
  unfolding tool_info_step
  tool_info_step-keeps s f w r p =
      Keeps-if ToolFits (is_field f w 1 2) _ _
        (Keeps-store ToolFits _ _ (λ v r' e. (read_string-StringFits limits _ r r' v e, p.1)))
        (Keeps-if ToolFits (is_field f w 2 2) _ _
          (Keeps-store ToolFits _ _ (λ v r' e. (p.0, read_string-StringFits limits _ r r' v e)))
          (Keeps-skip ToolFits limits.max_string_bytes s w r p))

  decode_tool_info-Fits :
      (bytes : List ℕ) (info : Text × Text)
      → decode_tool_info bytes limits ≡ ok info
      → ToolFits info
  unfolding decode_tool_info
  decode_tool_info-Fits bytes info h =
      decode_message-keeps ToolFits (tool_info_step limits) tool_info_step-keeps ([], []) bytes info
        (empty-StringFits, empty-StringFits) h

  metadata_step-keeps : StepKeeps (MetadataFits limits) (metadata_step limits)
  unfolding metadata_step
  metadata_step-keeps s f w r p =
      Keeps-if (MetadataFits limits) (is_field f w 2 2) _ _
        (Keeps-inner (MetadataFits limits) ToolFits _ _ _ decode_tool_info-Fits
          (λ info q. (q.0, q.1, p.2)))
        (Keeps-if (MetadataFits limits) (is_field f w 3 2) _ _
          (Keeps-store (MetadataFits limits) _ _
            (λ v r' e. (p.0, p.1, read_string-StringFits limits _ r r' v e)))
          (Keeps-skip (MetadataFits limits) limits.max_string_bytes s w r p))

  pub decode_metadata-Fits :
      (bytes : List ℕ) (meta : ScipMetadata)
      → decode_metadata bytes limits ≡ ok meta
      → MetadataFits limits meta
  unfolding decode_metadata
  decode_metadata-Fits bytes meta h =
      decode_message-keeps (MetadataFits limits) (metadata_step limits) metadata_step-keeps
        Default.metadata bytes meta (empty-StringFits, empty-StringFits, empty-StringFits) h
