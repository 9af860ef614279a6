-- ===== src/Scip/Fields.antt =====
-- The loop `while let Some((field, wire_type)) = r.read_tag()? { match … }` that every message
-- decoder of src/scip_decoder.rs is.
use workspace_atlas.Common.{
  ℕ, zero, suc, Bool, ◌&&◌, List, none, some, err, ok, ◌>>=◌, ◌==◌, length, ◌≡◌,
}
use workspace_atlas.Scip.Types.{DResult, ScipDecodeError}
use workspace_atlas.Scip.Reader.{Reader, Read, new, read_tag, skip_field, store}

-- What a decoder does at a field: with its number and wire type, on the message so far.
abbrev pub Step : Type 0 → Type 0
Step S = S → ℕ → ℕ → Reader → Read S

abbrev pub is_field : ℕ → ℕ → ℕ → ℕ → Bool
is_field field wire_type number wire = field == number && wire_type == wire

-- The last case of each `match`: a field that the decoder does not know.
abbrev pub skip : {S : Type 0} → ℕ → S → ℕ → Reader → Read S
skip max_string_bytes s wire_type r = store (skip_field wire_type max_string_bytes r) (λ done. ok s)

module _ {S : Type 0} (step : Step S) where
  unfoldable pub each_field : ℕ → S → Reader → DResult S
  each_field zero s r = err (ScipDecodeError.truncated r.pos)
  each_field (suc fuel) s r = read_tag r >>= λ tag. elim (tag.0) [
    | none ↦ ok s
    | some field ↦ step s (field.0) (field.1) tag.1 >>= λ next. each_field fuel next.0 next.1
  ]

  -- Every turn takes a byte at least, so that one turn more than there are bytes is enough.
  abbrev pub decode_message : S → List ℕ → DResult S
  decode_message s bytes = each_field (suc (length bytes)) s (new bytes)

  -- A run of the loop as the source has it, with no count of turns: it stops at the end of the
  -- buffer, at a tag that cannot be read, or at a field that is refused.
  pub data Runs : S → Reader → DResult S → Type 0 where
    stop : {s : S} {r r' : Reader} → read_tag r ≡ ok (none, r') → Runs s r (ok s)
    bad_tag : {s : S} {r : Reader} {e : ScipDecodeError} → read_tag r ≡ err e → Runs s r (err e)
    refused :
        {s : S} {r r' : Reader} {field wire : ℕ} {e : ScipDecodeError}
        → read_tag r ≡ ok (some (field, wire), r')
        → step s field wire r' ≡ err e
        → Runs s r (err e)
    turn :
        {s t : S} {r r' r'' : Reader} {field wire : ℕ} {outcome : DResult S}
        → read_tag r ≡ ok (some (field, wire), r')
        → step s field wire r' ≡ ok (t, r'')
        → Runs t r'' outcome
        → Runs s r outcome
