-- ===== src/Scip/Types.antt =====
-- The decoded types, the limits and the errors of src/scip_decoder.rs. An `i32` is kept as its
-- 32-bit pattern, a string as its bytes.
pub mod Default
use workspace_atlas.Common.{ℕ, ◌*◌, Bool, List, Option, Text, codes, Result, if◌then◌else◌, ◌==◌}

pub record ScipMetadata : Type 0 where
  pub tool_name : Text
  pub tool_version : Text
  pub project_root : Text

pub data PositionEncoding : Type 0 where
  unspecified : PositionEncoding
  utf8 : PositionEncoding
  utf16 : PositionEncoding
  utf32 : PositionEncoding
  unknown : ℕ → PositionEncoding

unfoldable pub from_scip_value : ℕ → PositionEncoding
from_scip_value value =
    if value == 0
    then PositionEncoding.unspecified
    else if value == 1
    then PositionEncoding.utf8
    else if value == 2
    then PositionEncoding.utf16
    else if value == 3
    then PositionEncoding.utf32
    else PositionEncoding.unknown value

unfoldable pub as_str : PositionEncoding → Text
as_str PositionEncoding.unspecified = codes "unspecified"
as_str PositionEncoding.utf8 = codes "utf8"
as_str PositionEncoding.utf16 = codes "utf16"
as_str PositionEncoding.utf32 = codes "utf32"
as_str (PositionEncoding.unknown value) = codes "unknown"

pub record ScipRange : Type 0 where
  pub start_line : ℕ
  pub start_character : ℕ
  pub end_line : ℕ
  pub end_character : ℕ

pub record ScipOccurrence : Type 0 where
  pub range : ScipRange
  pub symbol : Text
  pub symbol_roles : ℕ
  pub syntax_kind : ℕ

pub record ScipRelationship : Type 0 where
  pub symbol : Text
  pub is_reference : Bool
  pub is_implementation : Bool
  pub is_type_definition : Bool
  pub is_definition : Bool

pub record ScipSymbolInformation : Type 0 where
  pub symbol : Text
  pub documentation : List Text
  pub relationships : List ScipRelationship
  pub kind : ℕ

pub record ScipDocument : Type 0 where
  pub language : Text
  pub relative_path : Text
  pub occurrences : List ScipOccurrence
  pub symbols : List ScipSymbolInformation
  pub position_encoding : PositionEncoding

pub record ScipIndex : Type 0 where
  pub metadata : Option ScipMetadata
  pub documents : List ScipDocument
  pub external_symbols : List ScipSymbolInformation

pub record DecodeLimits : Type 0 where
  pub max_documents : ℕ
  pub max_occurrences_per_document : ℕ
  pub max_symbols_per_document : ℕ
  pub max_external_symbols : ℕ
  pub max_relationships_per_symbol : ℕ
  pub max_documentation_entries_per_symbol : ℕ
  pub max_string_bytes : ℕ
  pub max_message_bytes : ℕ

abbrev pub default_limits : DecodeLimits
default_limits = record {
  max_documents = 200000;
  max_occurrences_per_document = 2000000;
  max_symbols_per_document = 500000;
  max_external_symbols = 2000000;
  max_relationships_per_symbol = 10000;
  max_documentation_entries_per_symbol = 1000;
  max_string_bytes = 4 * 1024 * 1024;
  max_message_bytes = 512 * 1024 * 1024;
}

pub data ScipDecodeError : Type 0 where
  truncated : (at : ℕ) → ScipDecodeError
  invalid_varint : (at : ℕ) → ScipDecodeError
  invalid_wire_type : (wire_type at : ℕ) → ScipDecodeError
  invalid_utf8 : (field : Text) → ScipDecodeError
  limit_exceeded : (limit : Text) (value max : ℕ) → ScipDecodeError

abbrev pub DResult : Type 0 → Type 0
DResult T = Result ScipDecodeError T
