-- ===== src/Scip/Examples.antt =====
-- A small index and what the decoder of src/scip_decoder.rs makes of it.
use workspace_atlas.Common.{
  ℕ, ◌+◌, ◌%◌, ◌^◌, ◌≤◌, List, [], ◌∷◌, ◌++◌, some, true, codes, ok, ◌≡◌, refl, length, arith, drop,
  get_elem?, take,
}
use workspace_atlas.Scip.Types.{
  default_limits, ScipIndex, ScipSymbolInformation, PositionEncoding, from_scip_value,
}
use workspace_atlas.Scip.Types.Default
use workspace_atlas.Scip.Fields.{each_field}
use workspace_atlas.Scip.Limits.{IndexFits, SymbolFits}
use workspace_atlas.Scip.Bounded.Index.{decode_index-Fits}
use workspace_atlas.Scip.Messages.{
  relationship_step, occurrence_step, metadata_step, tool_info_step, single_line_step,
  multi_line_step, decode_tool_info, decode_metadata, decode_occurrence, decode_relationship,
  decode_single_line_range, decode_multi_line_range, decode_packed_varints, packed_from,
  finish_occurrence, range_from_legacy,
}
use workspace_atlas.Scip.Varint.{outcome, first_groups, advance, read_varint_lem}
use workspace_atlas.Scip.Index.{
  decode_index, index_step, document_step, symbol_step, decode_document, decode_symbol_information,
}
use workspace_atlas.Scip.Encode.{
  encode_tag, bytes_field, varint_field, read_tag-encode_tag, encode_groups,
}
use workspace_atlas.Scip.Reader.{
  Reader, new, unread, read_varint, read_tag, has_remaining, read_byte, read_groups,
  read_length_delimited, continuation_ranges, utf8_from, read_string, read_fixed, skip_field, store,
}
use workspace_atlas.Scip.RoundTrip.Documents.{SymbolWritten}
use workspace_atlas.Scip.RoundTrip.Index.{encode_index, IndexWritten, decode_index-encode_index}

abbrev sample_occurrence : List ℕ
sample_occurrence =
    bytes_field 2 (codes "m")
    ++ varint_field 3 1
    ++ bytes_field 9 (varint_field 1 4 ++ varint_field 3 6)

abbrev sample_symbol : List ℕ
sample_symbol =
    bytes_field 1 (codes "m")
    ++ bytes_field 3 (codes "doc")
    ++ bytes_field 4 (bytes_field 1 (codes "t") ++ varint_field 3 1)

abbrev sample_index : List ℕ
sample_index =
    bytes_field 1 (bytes_field 2 (bytes_field 1 (codes "rust")))
    ++ varint_field 7 5
    ++ bytes_field 2 (
        bytes_field 1 (codes "a.rs")
        ++ bytes_field 2 sample_occurrence
        ++ bytes_field 3 sample_symbol
        ++ varint_field 6 1)
    ++ bytes_field 3 sample_symbol

abbrev decoded_symbol : ScipSymbolInformation
decoded_symbol = record {
  symbol = codes "m";
  documentation = codes "doc" ∷ [];
  relationships = record Default.relationship { symbol = codes "t"; is_implementation = true } ∷ [];
  kind = 0;
}

abbrev decoded_index : ScipIndex
decoded_index = record {
  metadata = some (record Default.metadata { tool_name = codes "rust" });
  documents =
      (record {
        language = [];
        relative_path = codes "a.rs";
        occurrences =
            (record {
              range = record {
                start_line = 4;
                start_character = 0;
                end_line = 6;
                end_character = 0;
              };
              symbol = codes "m";
              symbol_roles = 1;
              syntax_kind = 0;
            })
            ∷ [];
        symbols = decoded_symbol ∷ [];
        position_encoding = PositionEncoding.utf8;
      })
      ∷ [];
  external_symbols = decoded_symbol ∷ [];
}

sample_decodes : decode_index sample_index default_limits ≡ ok decoded_index
unfolding codes get_elem? take drop has_remaining read_byte read_groups read_varint read_tag
    read_length_delimited continuation_ranges utf8_from read_string read_fixed skip_field store
    decode_tool_info decode_metadata decode_occurrence decode_relationship decode_single_line_range
    decode_multi_line_range decode_packed_varints packed_from finish_occurrence range_from_legacy
    single_line_step multi_line_step occurrence_step relationship_step tool_info_step metadata_step
    decode_index decode_document decode_symbol_information index_step document_step symbol_step
    each_field from_scip_value encode_groups
sample_decodes = refl

decode_index-Fits_example :
    IndexFits default_limits decoded_index
    × (length sample_index ≤ default_limits.max_message_bytes)
decode_index-Fits_example =
    decode_index-Fits default_limits sample_index decoded_index sample_decodes

-- Nine groups with nothing in them, and a tenth whose second bit is past the 64th.
abbrev overlong : Reader
overlong = new (128 ∷ 128 ∷ 128 ∷ 128 ∷ 128 ∷ 128 ∷ 128 ∷ 128 ∷ 128 ∷ 3 ∷ 7 ∷ [])

read_varint_lem_example :
    read_varint overlong ≡ outcome 0 0 overlong (first_groups 10 (unread overlong))
read_varint_lem_example = read_varint_lem overlong

overlong_wraps : read_varint overlong ≡ ok (2 ^ 63, record overlong { pos = 10 })
unfolding read_varint read_groups read_byte get_elem?
overlong_wraps = refl

abbrev wide_field : ℕ
wide_field = 2 ^ 32 + 2

abbrev wide : Reader
wide = new (encode_tag wide_field 2 ++ 0 ∷ [])

wide_at : unread wide ≡ encode_tag wide_field 2 ++ 0 ∷ []
unfolding drop encode_groups
wide_at = refl

-- Field 2^32 + 2 is taken for field 2.
read_tag-encode_tag_example :
    (read_tag wide
      ≡ ok (some (wide_field % 2 ^ 32, 2), advance wide (length (encode_tag wide_field 2))))
    × (unread (advance wide (length (encode_tag wide_field 2))) ≡ 0 ∷ [])
read_tag-encode_tag_example =
    read_tag-encode_tag wide wide_field 2 (0 ∷ []) (omega arith) (omega arith) wide_at

symbol-Fits : SymbolFits default_limits decoded_symbol
unfolding codes utf8_from continuation_ranges get_elem? drop take
symbol-Fits = (
  (omega arith, refl),
  ((omega arith, refl), tt),
  omega arith,
  ((omega arith, refl), tt),
  omega arith,
)

index-Fits : IndexFits default_limits decoded_index
unfolding codes utf8_from continuation_ranges get_elem? drop take
index-Fits = (
  ((omega arith, refl), (omega arith, refl), (omega arith, refl)),
  (
    (
      (omega arith, refl),
      (omega arith, refl),
      ((omega arith, refl), tt),
      omega arith,
      (symbol-Fits, tt),
      omega arith,
    ),
    tt,
  ),
  omega arith,
  (symbol-Fits, tt),
  omega arith,
)

symbol-Written : SymbolWritten default_limits (omega arith) decoded_symbol
unfolding codes encode_groups
symbol-Written = ((omega arith, tt), omega arith, omega arith)

index-Written : IndexWritten default_limits (omega arith) (omega arith) decoded_index
unfolding codes encode_groups
index-Written = (
  (omega arith, omega arith),
  (
    (
      (
        (
          (
            (omega arith, omega arith, omega arith, omega arith),
            omega arith,
            omega arith,
            omega arith,
          ),
          tt,
        ),
        (symbol-Written, tt),
        tt,
      ),
      omega arith,
    ),
    tt,
  ),
  (symbol-Written, tt),
  omega arith,
)

decode_index-encode_index_example :
    decode_index (encode_index decoded_index) default_limits ≡ ok decoded_index
decode_index-encode_index_example =
    decode_index-encode_index default_limits (omega arith) (omega arith) decoded_index index-Fits
      index-Written
