-- ===== src/Scip/RoundTrip/Occurrences.antt =====
-- Ranges and occurrences written as protobuf and decoded again (src/scip_decoder.rs). A range is
-- written as the typed `multi_line_range`.
use workspace_atlas.Common.{
  ℕ, zero, suc, ◌+◌, ◌*◌, ◌/◌, ◌^◌, ◌≤◌, ◌<◌, List, [], ◌∷◌, ◌++◌, codes, ok, ◌≡◌, ap, arith,
  length, length-append,
}
use workspace_atlas.Scip.Types.{DecodeLimits, ScipRange, ScipOccurrence}
use workspace_atlas.Scip.Types.Default
use workspace_atlas.Scip.Reader.{read_varint, store, varint_to_i32}
use workspace_atlas.Scip.Encode.{encode_groups, encode_varint, encode_tag}
use workspace_atlas.Scip.Messages.{
  set_occ, no_occurrence, finish_occurrence, multi_line_step, occurrence_step,
  decode_multi_line_range, decode_occurrence,
}
use workspace_atlas.Scip.Limits.{OccurrenceFits}
use workspace_atlas.Scip.RoundTrip.{
  Takes, Takes-varint, Takes-store, delimited, Feeds, decode_message-Feeds,
}
use workspace_atlas.Scip.RoundTrip.Relationships.{
  encode_fields, delimited_field, number_field, Takes-text, Takes-inner,
}

-- A varint takes ten bytes at most.
length-encode_groups : (fuel v : ℕ) → length (encode_groups fuel v) ≤ fuel
unfolding encode_groups
length-encode_groups zero v = omega arith
length-encode_groups (suc fuel) v = ground (arith, length-encode_groups fuel (v / 128))

-- `varint_to_i32(r.read_varint()?)` into a field.
pub Takes-i32 :
    {S : Type 0} (change : ℕ → S) (v : ℕ)
    → v < 2 ^ 32
    → Takes
        (λ r. store (read_varint r) (λ n. ok (change (varint_to_i32 n))))
        (encode_varint v)
        (change v)
Takes-i32 change v small =
    let cut : varint_to_i32 v ≡ v = omega arith in
    Takes-store read_varint (λ n. ok (change (varint_to_i32 n))) (encode_varint v) v (change v)
      (Takes-varint v (omega arith)) (ap (λ n. ok (change n)) cut)

-- The fields are 32-bit patterns.
abbrev pub RangeFits : ScipRange → Type 0
RangeFits range =
    (range.start_line < 2 ^ 32)
    × (range.start_character < 2 ^ 32)
    × (range.end_line < 2 ^ 32)
    × (range.end_character < 2 ^ 32)

abbrev pub encode_range : ScipRange → List ℕ
encode_range range = encode_fields (
    number_field 1 range.start_line
    ∷ number_field 2 range.start_character
    ∷ number_field 3 range.end_line
    ∷ number_field 4 range.end_character
    ∷ [])

length-number :
    (number v : ℕ) (rest : List ℕ)
    → length (encode_tag number 0 ++ (encode_varint v ++ rest)) ≤ 20 + length rest
length-number number v rest = omega (
  arith,
  length-append (encode_tag number 0) (encode_varint v ++ rest),
  length-append (encode_varint v) rest,
  length-encode_groups 10 (number * 8 + 0),
  length-encode_groups 10 v,
)

range-Feeds :
    (range : ScipRange)
    → RangeFits range
    → Feeds multi_line_step Default.range (encode_range range) range
unfolding multi_line_step
range-Feeds range fits =
    let s1 = record Default.range { start_line = range.start_line } in
    let s2 = record s1 { start_character = range.start_character } in
    let s3 = record s2 { end_line = range.end_line } in
    Feeds.field {t = s1} 1 0 (encode_varint range.start_line) _ (omega arith) (omega arith)
      (Takes-i32 (λ v. record Default.range { start_line = v }) range.start_line fits.0)
      (Feeds.field {t = s2} 2 0 (encode_varint range.start_character) _ (omega arith) (omega arith)
        (Takes-i32 (λ v. record s1 { start_character = v }) range.start_character fits.1)
        (Feeds.field {t = s3} 3 0 (encode_varint range.end_line) _ (omega arith) (omega arith)
          (Takes-i32 (λ v. record s2 { end_line = v }) range.end_line fits.2)
          (Feeds.field {t = range} 4 0 (encode_varint range.end_character) _ (omega arith)
            (omega arith)
            (Takes-i32 (λ v. record s3 { end_character = v }) range.end_character fits.3)
            Feeds.end)))

length-encode_range : (range : ScipRange) → length (encode_range range) ≤ 256
length-encode_range range =
    let d = encode_fields (number_field 4 range.end_character ∷ []) in
    let c =
      encode_fields (number_field 3 range.end_line ∷ number_field 4 range.end_character ∷ []) in
    let b = encode_fields (
      number_field 2 range.start_character
      ∷ number_field 3 range.end_line
      ∷ number_field 4 range.end_character
      ∷ []) in
    omega (
      arith,
      length-number 1 range.start_line b,
      length-number 2 range.start_character c,
      length-number 3 range.end_line d,
      length-number 4 range.end_character [],
    )

decode_multi_line_range-encode :
    (range : ScipRange) → RangeFits range → decode_multi_line_range (encode_range range) ≡ ok range
unfolding decode_multi_line_range
decode_multi_line_range-encode range fits =
    decode_message-Feeds multi_line_step Default.range range (encode_range range)
      (omega (arith, length-encode_range range)) (range-Feeds range fits)

abbrev pub encode_occurrence : ScipOccurrence → List ℕ
encode_occurrence occ = encode_fields (
    delimited_field 9 (encode_range occ.range)
    ∷ delimited_field 2 occ.symbol
    ∷ number_field 3 occ.symbol_roles
    ∷ number_field 5 occ.syntax_kind
    ∷ [])

module _ (limits : DecodeLimits) (machine : limits.max_string_bytes < 2 ^ 64) where
  -- An occurrence that can be written.
  abbrev pub OccurrenceWritten : ScipOccurrence → Type 0
  OccurrenceWritten occ =
      RangeFits occ.range
      × (occ.symbol_roles < 2 ^ 32)
      × (occ.syntax_kind < 2 ^ 32)
      × (length (encode_occurrence occ) ≤ limits.max_string_bytes)

  occurrence-Feeds :
      (occ : ScipOccurrence)
      → OccurrenceFits limits occ
      → OccurrenceWritten occ
      → Feeds
          (occurrence_step limits)
          no_occurrence
          (encode_occurrence occ)
          (set_occ no_occurrence occ)
  unfolding occurrence_step
  occurrence-Feeds occ fits written =
      let o1 = record Default.occurrence { range = occ.range } in
      let o2 = record o1 { symbol = occ.symbol } in
      let o3 = record o2 { symbol_roles = occ.symbol_roles } in
      Feeds.field {t = set_occ no_occurrence o1} 9 2 (delimited (encode_range occ.range)) _
        (omega arith) (omega arith)
        (Takes-inner limits machine 256 decode_multi_line_range
          (λ v. set_occ no_occurrence (record Default.occurrence { range = v }))
          (encode_range occ.range) occ.range (omega arith) (length-encode_range occ.range)
          (decode_multi_line_range-encode occ.range written.0))
        (Feeds.field {t = set_occ no_occurrence o2} 2 2 (delimited occ.symbol) _ (omega arith)
          (omega arith)
          (Takes-text limits machine (codes "Occurrence.symbol")
            (λ v. set_occ no_occurrence (record o1 { symbol = v })) occ.symbol fits)
          (Feeds.field {t = set_occ no_occurrence o3} 3 0 (encode_varint occ.symbol_roles) _
            (omega arith) (omega arith)
            (Takes-i32 (λ v. set_occ no_occurrence (record o2 { symbol_roles = v }))
              occ.symbol_roles written.1)
            (Feeds.field {t = set_occ no_occurrence occ} 5 0 (encode_varint occ.syntax_kind) _
              (omega arith) (omega arith)
              (Takes-i32 (λ v. set_occ no_occurrence (record o3 { syntax_kind = v }))
                occ.syntax_kind written.2)
              Feeds.end)))

  typed-kept : (occ : ScipOccurrence) → finish_occurrence (set_occ no_occurrence occ) ≡ occ
  unfolding finish_occurrence
  typed-kept occ = ground arith

  pub decode_occurrence-encode :
      (occ : ScipOccurrence)
      → OccurrenceFits limits occ
      → OccurrenceWritten occ
      → decode_occurrence (encode_occurrence occ) limits ≡ ok occ
  unfolding decode_occurrence
  decode_occurrence-encode occ fits written =
      let decoded =
        decode_message-Feeds (occurrence_step limits) no_occurrence (set_occ no_occurrence occ)
          (encode_occurrence occ) (omega arith) (occurrence-Feeds occ fits written) in
      rw decoded (ap ok (typed-kept occ))
