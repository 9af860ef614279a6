-- ===== src/Scip/RoundTrip/Metadata.antt =====
-- Metadata and the tool's name in it, written as protobuf and decoded again (src/scip_decoder.rs).
use workspace_atlas.Common.{ℕ, ◌^◌, ◌≤◌, ◌<◌, List, [], ◌∷◌, Text, codes, ok, ◌≡◌, arith, length}
use workspace_atlas.Scip.Types.{DecodeLimits, ScipMetadata}
use workspace_atlas.Scip.Types.Default
use workspace_atlas.Scip.Messages.{tool_info_step, metadata_step, decode_tool_info, decode_metadata}
use workspace_atlas.Scip.Limits.{StringFits, MetadataFits}
use workspace_atlas.Scip.RoundTrip.{delimited, Feeds, decode_message-Feeds}
use workspace_atlas.Scip.RoundTrip.Relationships.{
  encode_fields, delimited_field, Takes-text, Takes-inner,
}

abbrev pub encode_tool_info : Text → Text → List ℕ
encode_tool_info name version =
    encode_fields (delimited_field 1 name ∷ delimited_field 2 version ∷ [])

abbrev pub encode_metadata : ScipMetadata → List ℕ
encode_metadata meta = encode_fields (
    delimited_field 2 (encode_tool_info meta.tool_name meta.tool_version)
    ∷ delimited_field 3 meta.project_root
    ∷ [])

module _ (limits : DecodeLimits) (machine : limits.max_string_bytes < 2 ^ 64) where
  -- The message about the tool is no longer than a field may be.
  abbrev pub MetadataWritten : ScipMetadata → Type 0
  MetadataWritten meta =
      length (encode_tool_info meta.tool_name meta.tool_version) ≤ limits.max_string_bytes

  decode_tool_info-encode :
      (name version : Text)
      → StringFits limits name
      → StringFits limits version
      → length (encode_tool_info name version) < 2 ^ 64
      → decode_tool_info (encode_tool_info name version) limits ≡ ok (name, version)
  unfolding decode_tool_info tool_info_step
  decode_tool_info-encode name version name' version' small =
      decode_message-Feeds (tool_info_step limits) ([], []) (name, version)
        (encode_tool_info name version) small
        (Feeds.field {t = (name, [])} 1 2 (delimited name) _ (omega arith) (omega arith)
          (Takes-text limits machine (codes "ToolInfo.name") (λ v. (v, [])) name name')
          (Feeds.field {t = (name, version)} 2 2 (delimited version) _ (omega arith) (omega arith)
            (Takes-text limits machine (codes "ToolInfo.version") (λ v. (name, v)) version version')
            Feeds.end))

  pub decode_metadata-encode :
      (meta : ScipMetadata)
      → MetadataFits limits meta
      → MetadataWritten meta
      → length (encode_metadata meta) < 2 ^ 64
      → decode_metadata (encode_metadata meta) limits ≡ ok meta
  unfolding decode_metadata metadata_step
  decode_metadata-encode meta (name, version, root) written small =
      let tool = encode_tool_info meta.tool_name meta.tool_version in
      let s1 = record meta { project_root = [] } in
      decode_message-Feeds (metadata_step limits) Default.metadata meta (encode_metadata meta) small
        (Feeds.field {t = s1} 2 2 (delimited tool) _ (omega arith) (omega arith)
          (Takes-inner limits machine limits.max_string_bytes (λ sub. decode_tool_info sub limits)
            (λ info. record Default.metadata { tool_name = info.0; tool_version = info.1 }) tool
            (meta.tool_name, meta.tool_version) machine written
            (decode_tool_info-encode meta.tool_name meta.tool_version name version (omega arith)))
          (Feeds.field {t = meta} 3 2 (delimited meta.project_root) _ (omega arith) (omega arith)
            (Takes-text limits machine (codes "Metadata.project_root")
              (λ v. record s1 { project_root = v }) meta.project_root root)
            Feeds.end))
