-- ===== src/Metrics/Identity.antt =====
-- The constructors of the identities of src/context_metrics.rs.
use workspace_atlas.Common.{
  ℕ, Bool, ◌&&◌, ◌||◌, [], ◌∷◌, none, some, Text, Result, ok, ◌>>◌, refuse_if, leb, ltb, ◌==◌,
  if◌then◌else◌, is_empty,
}
use workspace_atlas.Metrics.Types.{
  CanonicalEvidenceKind, CanonicalEvidenceId, ContextMetricInvalidity, kind_rank,
}

-- What `str::trim` leaves out at the start of a text: the white space of Unicode in UTF-8.
unfoldable pub trim_start : Text → Text
trim_start [] = []
trim_start (a ∷ []) = if a == 32 || (leb 9 a && leb a 13) then [] else a ∷ []
trim_start (a ∷ b ∷ []) =
    let rest = trim_start (b ∷ []) in
    if a == 32 || (leb 9 a && leb a 13)
    then rest
    else if a == 0xC2 && (b == 0x85 || b == 0xA0)
    then []
    else a ∷ b ∷ []
trim_start (a ∷ b ∷ c ∷ text) =
    let after_one = trim_start (b ∷ c ∷ text) in
    let after_two = trim_start (c ∷ text) in
    let after_three = trim_start text in
    if a == 32 || (leb 9 a && leb a 13)
    then after_one
    else if a == 0xC2 && (b == 0x85 || b == 0xA0)
    then after_two
    else if (a == 0xE1 && b == 0x9A && c == 0x80)
        || (a == 0xE2
            && b == 0x80
            && ((leb 0x80 c && leb c 0x8A) || c == 0xA8 || c == 0xA9 || c == 0xAF))
        || (a == 0xE2 && b == 0x81 && c == 0x9F)
        || (a == 0xE3 && b == 0x80 && c == 0x80)
    then after_three
    else a ∷ b ∷ c ∷ text

-- `id.trim().is_empty()`: nothing is left at the start exactly if nothing is left at all.
abbrev pub is_blank : Text → Bool
is_blank id = is_empty (trim_start id)

unfoldable pub entity :
    CanonicalEvidenceKind → Text → Result ContextMetricInvalidity CanonicalEvidenceId
entity kind id =
    refuse_if (kind_rank kind == kind_rank CanonicalEvidenceKind.range)
      ContextMetricInvalidity.invalid_identity
    >> refuse_if (is_blank id) ContextMetricInvalidity.invalid_identity
    >> ok (record { kind = kind; id = id; range = none })

unfoldable pub relationship_id : Text → Result ContextMetricInvalidity CanonicalEvidenceId
relationship_id id = entity CanonicalEvidenceKind.relationship id

unfoldable pub range_id :
    Text → (start end : ℕ) → Result ContextMetricInvalidity CanonicalEvidenceId
range_id path start end =
    refuse_if (ltb end start) (ContextMetricInvalidity.invalid_range start end)
    >> refuse_if (is_blank path) ContextMetricInvalidity.invalid_identity
    >> ok (record {
      kind = CanonicalEvidenceKind.range;
      id = path;
      range = some (record { start = start; end = end });
    })
