-- ===== src/Scip/Messages.antt =====
-- The decoders of the inner messages (src/scip_decoder.rs): ranges, occurrences, relationships and
-- the tool's description. Each is the step of its `match`, run by the loop of Fields.
use workspace_atlas.Common.{
  ℕ, zero, suc, Bool, not, ◌&&◌, List, [], ◌∷◌, ◌++◌, Text, codes, ok, err, ◌>>=◌, ◌==◌,
  if◌then◌else◌, length, is_empty,
}
use workspace_atlas.Scip.Types.{
  DResult, DecodeLimits, ScipDecodeError, ScipRange, ScipOccurrence, ScipRelationship, ScipMetadata,
}
use workspace_atlas.Scip.Types.Default
use workspace_atlas.Scip.Reader.{
  Reader, Read, new, has_remaining, read_varint, read_length_delimited, read_string, varint_to_i32,
  store,
}
use workspace_atlas.Scip.Fields.{Step, is_field, skip, decode_message}

-- `varint_to_i32(r.read_varint()?)` into a field.
abbrev pub store_i32 : {S : Type 0} → Reader → (ℕ → S) → Read S
store_i32 r change = store (read_varint r) (λ v. ok (change (varint_to_i32 v)))

-- `r.read_varint()? != 0` into a field.
abbrev pub store_flag : {S : Type 0} → Reader → (Bool → S) → Read S
store_flag r change = store (read_varint r) (λ v. ok (change (not (v == 0))))

-- `r.read_string(…)?` into a field.
abbrev pub store_string : {S : Type 0} → Text → ℕ → Reader → (Text → S) → Read S
store_string field max_string_bytes r change =
    store (read_string field max_string_bytes r) (λ text. ok (change text))

-- The line, the first and the last character of `SingleLineRange`.
pub record SingleLine : Type 0 where
  pub line : ℕ
  pub start_character : ℕ
  pub end_character : ℕ

abbrev pub no_line : SingleLine
no_line = record { line = 0; start_character = 0; end_character = 0 }

unfoldable pub single_line_step : Step SingleLine
single_line_step s f w r =
    if is_field f w 1 0
    then store_i32 r (λ v. record s { line = v })
    else if is_field f w 2 0
    then store_i32 r (λ v. record s { start_character = v })
    else if is_field f w 3 0
    then store_i32 r (λ v. record s { end_character = v })
    else skip 4096 s w r

unfoldable pub decode_single_line_range : List ℕ → DResult ScipRange
decode_single_line_range bytes =
    decode_message single_line_step (record { line = 0; start_character = 0; end_character = 0 })
      bytes
    >>= λ s. ok (record {
      start_line = s.line;
      start_character = s.start_character;
      end_line = s.line;
      end_character = s.end_character;
    })

unfoldable pub multi_line_step : Step ScipRange
multi_line_step s f w r =
    if is_field f w 1 0
    then store_i32 r (λ v. record s { start_line = v })
    else if is_field f w 2 0
    then store_i32 r (λ v. record s { start_character = v })
    else if is_field f w 3 0
    then store_i32 r (λ v. record s { end_line = v })
    else if is_field f w 4 0
    then store_i32 r (λ v. record s { end_character = v })
    else skip 4096 s w r

unfoldable pub decode_multi_line_range : List ℕ → DResult ScipRange
decode_multi_line_range bytes = decode_message multi_line_step Default.range bytes

-- `while r.has_remaining() { out.push(…) }`; a value takes a byte at least.
unfoldable pub packed_from : ℕ → List ℕ → Reader → DResult (List ℕ)
packed_from zero out r = err (ScipDecodeError.truncated r.pos)
packed_from (suc fuel) out r =
    if not (has_remaining r)
    then ok out
    else (read_varint r >>= λ read. packed_from fuel (out ++ varint_to_i32 read.0 ∷ []) read.1)

unfoldable pub decode_packed_varints : List ℕ → DResult (List ℕ)
decode_packed_varints bytes = packed_from (suc (length bytes)) [] (new bytes)

unfoldable pub range_from_legacy : List ℕ → ScipRange
range_from_legacy (a ∷ b ∷ c ∷ []) = record {
  start_line = a;
  start_character = b;
  end_line = a;
  end_character = c;
}
range_from_legacy (a ∷ b ∷ c ∷ d ∷ []) = record {
  start_line = a;
  start_character = b;
  end_line = c;
  end_character = d;
}
range_from_legacy v = Default.range

-- The occurrence so far, and the deprecated `repeated int32 range`.
pub record Occurring : Type 0 where
  pub occ : ScipOccurrence
  pub legacy_range : List ℕ

abbrev pub no_occurrence : Occurring
no_occurrence = record { occ = Default.occurrence; legacy_range = [] }

abbrev pub set_occ : Occurring → ScipOccurrence → Occurring
set_occ s occ = record s { occ = occ }

unfoldable pub occurrence_step : DecodeLimits → Step Occurring
occurrence_step limits s f w r =
    if is_field f w 1 2
    then store (read_length_delimited limits.max_string_bytes r)
        (λ sub. decode_packed_varints sub >>= λ v. ok (record s { legacy_range = v }))
    else if is_field f w 1 0
    then store_i32 r (λ v. record s { legacy_range = s.legacy_range ++ v ∷ [] })
    else if is_field f w 2 2
    then store_string (codes "Occurrence.symbol") limits.max_string_bytes r
        (λ v. set_occ s (record s.occ { symbol = v }))
    else if is_field f w 3 0
    then store_i32 r (λ v. set_occ s (record s.occ { symbol_roles = v }))
    else if is_field f w 5 0
    then store_i32 r (λ v. set_occ s (record s.occ { syntax_kind = v }))
    else if is_field f w 8 2
    then store (read_length_delimited 256 r)
        (λ sub. decode_single_line_range sub >>= λ v. ok (set_occ s (record s.occ { range = v })))
    else if is_field f w 9 2
    then store (read_length_delimited 256 r)
        (λ sub. decode_multi_line_range sub >>= λ v. ok (set_occ s (record s.occ { range = v })))
    else skip limits.max_string_bytes s w r

abbrev pub is_default_range : ScipRange → Bool
is_default_range v =
    v.start_line == 0 && v.start_character == 0 && v.end_line == 0 && v.end_character == 0

-- The deprecated range serves where no typed one was given.
unfoldable pub finish_occurrence : Occurring → ScipOccurrence
finish_occurrence s =
    if is_default_range s.occ.range && not (is_empty s.legacy_range)
    then record s.occ { range = range_from_legacy s.legacy_range }
    else s.occ

unfoldable pub decode_occurrence : List ℕ → DecodeLimits → DResult ScipOccurrence
decode_occurrence bytes limits =
    decode_message (occurrence_step limits) (record { occ = Default.occurrence; legacy_range = [] })
      bytes
    >>= λ s. ok (finish_occurrence s)

unfoldable pub relationship_step : DecodeLimits → Step ScipRelationship
relationship_step limits rel f w r =
    if is_field f w 1 2
    then store_string (codes "Relationship.symbol") limits.max_string_bytes r
        (λ v. record rel { symbol = v })
    else if is_field f w 2 0
    then store_flag r (λ v. record rel { is_reference = v })
    else if is_field f w 3 0
    then store_flag r (λ v. record rel { is_implementation = v })
    else if is_field f w 4 0
    then store_flag r (λ v. record rel { is_type_definition = v })
    else if is_field f w 5 0
    then store_flag r (λ v. record rel { is_definition = v })
    else skip limits.max_string_bytes rel w r

unfoldable pub decode_relationship : List ℕ → DecodeLimits → DResult ScipRelationship
decode_relationship bytes limits =
    decode_message (relationship_step limits) Default.relationship bytes

unfoldable pub tool_info_step : DecodeLimits → Step (Text × Text)
tool_info_step limits s f w r =
    if is_field f w 1 2
    then store_string (codes "ToolInfo.name") limits.max_string_bytes r (λ v. (v, s.1))
    else if is_field f w 2 2
    then store_string (codes "ToolInfo.version") limits.max_string_bytes r (λ v. (s.0, v))
    else skip limits.max_string_bytes s w r

unfoldable pub decode_tool_info : List ℕ → DecodeLimits → DResult (Text × Text)
decode_tool_info bytes limits = decode_message (tool_info_step limits) ([], []) bytes

unfoldable pub metadata_step : DecodeLimits → Step ScipMetadata
metadata_step limits meta f w r =
    if is_field f w 2 2
    then store (read_length_delimited limits.max_string_bytes r) (λ sub.
      decode_tool_info sub limits >>= λ info.
      ok (record meta { tool_name = info.0; tool_version = info.1 }))
    else if is_field f w 3 2
    then store_string (codes "Metadata.project_root") limits.max_string_bytes r
        (λ v. record meta { project_root = v })
    else skip limits.max_string_bytes meta w r

unfoldable pub decode_metadata : List ℕ → DecodeLimits → DResult ScipMetadata
decode_metadata bytes limits = decode_message (metadata_step limits) Default.metadata bytes
