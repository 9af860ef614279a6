-- ===== src/Scip/RoundTrip.antt =====
-- Encoded messages read back by the loop of src/scip_decoder.rs, field by field.
pub mod Relationships
pub mod Repeated
pub mod Symbols
pub mod Occurrences
pub mod Documents
pub mod Metadata
pub mod Index
use workspace_atlas.Common.{
  ℕ, zero, suc, ◌+◌, ◌%◌, ◌^◌, ◌≤◌, ◌<◌, Bool, true, false, not, List, [], ◌∷◌, ◌++◌, Option, none,
  some, Text, ok, err, ◌>>=◌, ◌>>◌, refuse_if, ltb, leb, ◌≡◌, refl, sym, ap, ◌∙◌, arith, length,
  length-append, drop, take, take-append, drop-add, drop-append, length-drop, if◌then◌else◌,
}
use mathlib.Core.List.{append_assoc}
use mathlib.Core.Path.{subst}
use workspace_atlas.Scip.Types.{DResult, ScipDecodeError}
use workspace_atlas.Scip.Reader.{
  Reader, Read, unread, new, has_remaining, read_varint, read_tag, read_length_delimited,
  read_string, is_utf8, store,
}
use workspace_atlas.Scip.Fields.{Step, each_field, decode_message}
use workspace_atlas.Scip.Varint.{advance}
use workspace_atlas.Scip.Encode.{
  encode_varint, encode_tag, read_varint-encode_varint, read_tag-encode_tag, unread-advance,
}
use workspace_atlas.Scip.Progress.{read_varint-Advances, read_tag-Advances}

-- A read that succeeds with `a` from a reader at `payload ++ rest`, and leaves `rest`.
pub record Takes {A : Type 0} (read : Reader → Read A) (payload : List ℕ) (a : A) : Type 0 where
  pub left : Reader → Reader
  pub taken :
      (r : Reader) (rest : List ℕ)
      → length r.buf < 2 ^ 64
      → unread r ≡ payload ++ rest
      → (read r ≡ ok (a, left r)) × (unread (left r) ≡ rest) × ((left r).buf ≡ r.buf)

pub Takes-varint : (v : ℕ) → v < 2 ^ 64 → Takes read_varint (encode_varint v) v
Takes-varint v small = record {
  left = λ r. advance r (length (encode_varint v));
  taken = λ r rest fits at.
      let (value, behind) = read_varint-encode_varint r v rest small at in (value, behind, refl);
}

pub Takes-store :
    {A S : Type 0} (read : Reader → Read A) (change : A → DResult S) (payload : List ℕ) (a : A)
    (s : S)
    → Takes read payload a
    → change a ≡ ok s
    → Takes (λ r. store (read r) change) payload s
unfolding store
Takes-store read change payload a s takes e = record {
  left = takes.left;
  taken = λ r rest fits at.
      let (value, behind, same) = takes.taken r rest fits at in (rw (value, e) refl, behind, same);
}

-- The bytes after their length.
abbrev pub delimited : List ℕ → List ℕ
delimited bytes = encode_varint (length bytes) ++ bytes

-- What is unread fits the buffer.
unread-fits :
    (r : Reader) (bytes rest : List ℕ)
    → r.pos ≤ length r.buf
    → unread r ≡ bytes ++ rest
    → r.pos + length bytes ≤ length r.buf
unread-fits r bytes rest inside at =
    omega (arith, length-drop r.pos r.buf, ap length at, length-append bytes rest)

pub Takes-delimited :
    (most : ℕ) (bytes : List ℕ)
    → length bytes ≤ most
    → length bytes < 2 ^ 64
    → Takes (read_length_delimited most) (delimited bytes) bytes
unfolding read_length_delimited
Takes-delimited most bytes few small = record {
  left = λ r. advance (advance r (length (encode_varint (length bytes)))) (length bytes);
  taken = λ r rest fits at.
      let r1 = advance r (length (encode_varint (length bytes))) in
      let (value, behind) =
        read_varint-encode_varint r (length bytes) (bytes ++ rest) small
          (at ∙ append_assoc (encode_varint (length bytes)) bytes rest) in
      let moved = read_varint-Advances r r1 (length bytes) value in
      let room = unread-fits r1 bytes rest moved.2 behind in
      let few' : ltb most (length bytes) ≡ false = ground arith in
      let below : leb (2 ^ 64) (r1.pos + length bytes) ≡ false = ground arith in
      let inside : ltb (length r1.buf) (r1.pos + length bytes) ≡ false = ground arith in
      let slice : take (length bytes) (unread r1) ≡ bytes =
        ap (take (length bytes)) behind ∙ take-append bytes rest in
      (rw (value, few', below, inside, slice) refl, unread-advance r1 bytes rest behind, refl);
}

pub Takes-string :
    (field : Text) (most : ℕ) (text : Text)
    → length text ≤ most
    → length text < 2 ^ 64
    → is_utf8 text ≡ true
    → Takes (read_string field most) (delimited text) text
unfolding read_string
Takes-string field most text few small valid =
    let bytes = Takes-delimited most text few small in
    record {
      left = bytes.left;
      taken = λ r rest fits at.
          let (value, behind, same) = bytes.taken r rest fits at in
          (rw (value, valid) refl, behind, same);
    }

read_tag-end : (r : Reader) → unread r ≡ [] → read_tag r ≡ ok (none, r)
unfolding read_tag has_remaining
read_tag-end r at =
    let done : ltb r.pos (length r.buf) ≡ false =
      ground (arith, length-drop r.pos r.buf, ap length at) in
    rw done refl

module _ {S : Type 0} (step : Step S) where
  -- Bytes that are a sequence of fields, each of which the step takes.
  pub data Feeds : S → List ℕ → S → Type 0 where
    end : {s : S} → Feeds s [] s
    field :
        {s t u : S} (number wire : ℕ) (payload rest : List ℕ)
        → number < 2 ^ 32
        → wire < 8
        → Takes (step s number wire) payload t
        → Feeds t rest u
        → Feeds s (encode_tag number wire ++ (payload ++ rest)) u

  each_field-Feeds :
      {s t : S} {bytes : List ℕ}
      → Feeds s bytes t
      → (fuel : ℕ) (r : Reader) → length bytes < fuel
      → length r.buf < 2 ^ 64
      → unread r ≡ bytes
      → each_field step fuel s r ≡ ok t
  unfolding each_field
  each_field-Feeds feeds zero r h fits at = absurd (omega arith)
  each_field-Feeds end (suc fuel) r h fits at = rw (read_tag-end r at) refl
  each_field-Feeds {s = s} {t = t} (field {t = t'} number wire payload rest small few takes more)
        (suc fuel) r h fits at =
      let r1 = advance r (length (encode_tag number wire)) in
      let (cut, behind) =
        read_tag-encode_tag r number wire (payload ++ rest) few (omega arith) at in
      let whole : number % 2 ^ 32 ≡ number = omega arith in
      let tag = cut ∙ ap (λ (n : ℕ). ok (some (n, wire), r1)) whole in
      let moved = read_tag-Advances r r1 (number, wire) tag in
      let (value, left, same) = takes.taken r1 rest fits behind in
      let shorter : length rest < fuel = omega (
        arith,
        h,
        moved.1,
        length-append (encode_tag number wire) (payload ++ rest),
        length-append payload rest,
      ) in
      let fits' = subst (λ buf. length buf < 2 ^ 64) (sym same) fits in
      rw (tag, value)
        (each_field-Feeds {s = t'} {t = t} {bytes = rest} more fuel (takes.left r1) shorter fits'
          left)

  -- A message that feeds the step is decoded.
  pub decode_message-Feeds :
      (s t : S) (bytes : List ℕ)
      → length bytes < 2 ^ 64
      → Feeds s bytes t
      → decode_message step s bytes ≡ ok t
  unfolding drop
  decode_message-Feeds s t bytes fits feeds =
      each_field-Feeds feeds (suc (length bytes)) (new bytes) (omega arith) fits refl
