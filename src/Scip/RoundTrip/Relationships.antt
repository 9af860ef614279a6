-- ===== src/Scip/RoundTrip/Relationships.antt =====
-- Fields written as protobuf, and relationships written and decoded again
-- (src/scip_decoder.rs; the fields are written like those of the encoder in its tests).
use workspace_atlas.Common.{
  ℕ, ◌^◌, ◌≤◌, ◌<◌, Bool, true, false, not, List, [], ◌∷◌, ◌++◌, Text, codes, ok, ◌>>◌, ◌>>=◌, ◌==◌,
  ◌≡◌, refl, ap, arith, length,
}
use workspace_atlas.Scip.Types.{DResult, DecodeLimits, ScipRelationship}
use workspace_atlas.Scip.Types.Default
use workspace_atlas.Scip.Reader.{
  Reader, Read, read_varint, read_length_delimited, read_string, store,
}
use workspace_atlas.Scip.Encode.{encode_varint, encode_tag}
use workspace_atlas.Scip.Messages.{relationship_step, decode_relationship}
use workspace_atlas.Scip.Limits.{StringFits, RelationshipFits}
use workspace_atlas.Scip.RoundTrip.{
  Takes, Takes-varint, Takes-store, Takes-delimited, Takes-string, delimited, Feeds,
  decode_message-Feeds,
}

pub record Field : Type 0 where
  pub number : ℕ
  pub wire : ℕ
  pub payload : List ℕ

abbrev pub encode_fields : List Field → List ℕ
encode_fields [] = []
encode_fields (f ∷ fs) = encode_tag f.number f.wire ++ (f.payload ++ encode_fields fs)

abbrev pub delimited_field : ℕ → List ℕ → Field
delimited_field number bytes = record { number = number; wire = 2; payload = delimited bytes }

abbrev pub number_field : ℕ → ℕ → Field
number_field number v = record { number = number; wire = 0; payload = encode_varint v }

abbrev pub bit : Bool → ℕ
bit true = 1
bit false = 0

abbrev pub relationship_fields : ScipRelationship → List Field
relationship_fields rel =
    delimited_field 1 rel.symbol
    ∷ number_field 2 (bit rel.is_reference)
    ∷ number_field 3 (bit rel.is_implementation)
    ∷ number_field 4 (bit rel.is_type_definition)
    ∷ number_field 5 (bit rel.is_definition)
    ∷ []

abbrev pub encode_relationship : ScipRelationship → List ℕ
encode_relationship rel = encode_fields (relationship_fields rel)

not-bit : (b : Bool) → not (bit b == 0) ≡ b
not-bit true = refl
not-bit false = refl

bit-small : (b : Bool) → bit b < 2 ^ 64
bit-small true = omega arith
bit-small false = omega arith

pub Takes-flag :
    {S : Type 0} (change : Bool → S) (b : Bool)
    → Takes
        (λ r. store (read_varint r) (λ v. ok (change (not (v == 0)))))
        (encode_varint (bit b))
        (change b)
Takes-flag change b =
    Takes-store read_varint (λ v. ok (change (not (v == 0)))) (encode_varint (bit b)) (bit b)
      (change b) (Takes-varint (bit b) (bit-small b)) (ap (λ c. ok (change c)) (not-bit b))

pub Takes-after :
    {S : Type 0} (check : DResult (Unit {0})) (read : Reader → Read S) (payload : List ℕ) (s : S)
    → check ≡ ok tt
    → Takes read payload s
    → Takes (λ r. check >> read r) payload s
Takes-after check read payload s passed takes = record {
  left = takes.left;
  taken = λ r rest fits at.
      let (value, behind, same) = takes.taken r rest fits at in
      (rw (passed, value) refl, behind, same);
}

module _ (limits : DecodeLimits) (machine : limits.max_string_bytes < 2 ^ 64) where
  pub Takes-text :
      {S : Type 0} (field : Text) (change : Text → S) (text : Text)
      → StringFits limits text
      → Takes
          (λ r. store (read_string field limits.max_string_bytes r) (λ v. ok (change v)))
          (delimited text)
          (change text)
  Takes-text field change text fits =
      Takes-store (read_string field limits.max_string_bytes) (λ v. ok (change v)) (delimited text)
        text (change text)
        (Takes-string field limits.max_string_bytes text fits.0 (omega arith) fits.1) refl

  relationship-Feeds :
      (rel : ScipRelationship)
      → RelationshipFits limits rel
      → Feeds (relationship_step limits) Default.relationship (encode_relationship rel) rel
  unfolding relationship_step
  relationship-Feeds rel fits =
      let s1 = record Default.relationship { symbol = rel.symbol } in
      let s2 = record s1 { is_reference = rel.is_reference } in
      let s3 = record s2 { is_implementation = rel.is_implementation } in
      let s4 = record s3 { is_type_definition = rel.is_type_definition } in
      Feeds.field {t = s1} 1 2 (delimited rel.symbol) _ (omega arith) (omega arith)
        (Takes-text (codes "Relationship.symbol") (λ v. record Default.relationship { symbol = v })
          rel.symbol fits)
        (Feeds.field {t = s2} 2 0 (encode_varint (bit rel.is_reference)) _ (omega arith)
          (omega arith) (Takes-flag (λ v. record s1 { is_reference = v }) rel.is_reference)
          (Feeds.field {t = s3} 3 0 (encode_varint (bit rel.is_implementation)) _ (omega arith)
            (omega arith)
            (Takes-flag (λ v. record s2 { is_implementation = v }) rel.is_implementation)
            (Feeds.field {t = s4} 4 0 (encode_varint (bit rel.is_type_definition)) _ (omega arith)
              (omega arith)
              (Takes-flag (λ v. record s3 { is_type_definition = v }) rel.is_type_definition)
              (Feeds.field {t = rel} 5 0 (encode_varint (bit rel.is_definition)) _ (omega arith)
                (omega arith) (Takes-flag (λ v. record s4 { is_definition = v }) rel.is_definition)
                Feeds.end))))

  pub decode_relationship-encode :
      (rel : ScipRelationship)
      → RelationshipFits limits rel
      → length (encode_relationship rel) < 2 ^ 64
      → decode_relationship (encode_relationship rel) limits ≡ ok rel
  unfolding decode_relationship
  decode_relationship-encode rel fits small =
      decode_message-Feeds (relationship_step limits) Default.relationship rel
        (encode_relationship rel) small (relationship-Feeds rel fits)

  -- A field that is an inner message.
  pub Takes-inner :
      {A S : Type 0} (most : ℕ) (decode : List ℕ → DResult A) (change : A → S) (bytes : List ℕ)
      (a : A)
      → most < 2 ^ 64
      → length bytes ≤ most
      → decode bytes ≡ ok a
      → Takes
          (λ r. store (read_length_delimited most r) (λ sub. decode sub >>= λ v. ok (change v)))
          (delimited bytes)
          (change a)
  Takes-inner most decode change bytes a fits few decoded =
      Takes-store (read_length_delimited most) (λ sub. decode sub >>= λ v. ok (change v))
        (delimited bytes) bytes (change a) (Takes-delimited most bytes few (omega arith))
        (rw decoded refl)
