-- ===== src/Scip/Encode.antt =====
-- The encoder of varints that the tests of src/scip_decoder.rs write their messages with, and the
-- round trip through `Reader::read_varint`.
use workspace_atlas.Common.{
  ℕ, zero, suc, ◌+◌, ◌*◌, ◌/◌, ◌%◌, ◌^◌, ◌<◌, true, false, some, List, [], ◌∷◌, ◌++◌, ok, ◌≡◌, refl,
  ap, ◌∙◌, arith, if◌then◌else◌, ◌==◌, length, Bool-cases, inl, inr, drop, drop-add, drop-append,
}
use native.Mathlib.Nat.{pow-suc}
use workspace_atlas.Scip.Reader.{
  Reader, unread, has_remaining, read_varint, read_tag, is_last_group,
}
use workspace_atlas.Scip.Progress.{read_varint-Advances}
use workspace_atlas.Scip.Varint.{
  number, Groups, first_groups, prepend, outcome, advance, read_varint_lem,
}

-- The loop: ten groups hold 64 bits.
unfoldable pub encode_groups : ℕ → ℕ → List ℕ
encode_groups zero v = []
encode_groups (suc fuel) v =
    let rest = encode_groups fuel (v / 128) in
    if v / 128 == 0 then v % 128 ∷ [] else (v % 128 + 128) ∷ rest

abbrev pub encode_varint : ℕ → List ℕ
encode_varint v = encode_groups 10 v

abbrev pub encode_tag : (field wire_type : ℕ) → List ℕ
encode_tag field wire_type = encode_varint (field * 8 + wire_type)

-- `string_field` and `bytes_field`.
abbrev pub bytes_field : ℕ → List ℕ → List ℕ
bytes_field field bytes = encode_tag field 2 ++ encode_varint (length bytes) ++ bytes

abbrev pub varint_field : ℕ → ℕ → List ℕ
varint_field field v = encode_tag field 0 ++ encode_varint v

number-encode_groups : (fuel v : ℕ) → v < 128 ^ fuel → number (encode_groups fuel v) ≡ v
unfolding encode_groups number
number-encode_groups zero v h = omega arith
number-encode_groups (suc fuel) v h = elim (Bool-cases (v / 128 == 0)) [
  | inl last ↦ ground arith
  | inr more ↦ ground (arith, number-encode_groups fuel (v / 128) (omega (arith, pow-suc 128 fuel)))
]

module _ (fuel v : ℕ) where
  encode_groups-last : v / 128 == 0 ≡ true → encode_groups (suc fuel) v ≡ v % 128 ∷ []
  unfolding encode_groups
  encode_groups-last last = rw last refl

  encode_groups-more :
      v / 128 == 0 ≡ false
      → encode_groups (suc fuel) v ≡ (v % 128 + 128) ∷ encode_groups fuel (v / 128)
  unfolding encode_groups
  encode_groups-more more = rw more refl

  first_groups-last :
      (bs : List ℕ) → first_groups (suc fuel) (v % 128 ∷ bs) ≡ Groups.complete (v % 128 ∷ [])
  unfolding first_groups
  first_groups-last bs = let last : is_last_group (v % 128) ≡ true = ground arith in rw last refl

  first_groups-more :
      (bs : List ℕ)
      → first_groups (suc fuel) ((v % 128 + 128) ∷ bs)
        ≡ prepend (v % 128 + 128) (first_groups fuel bs)
  unfolding first_groups
  first_groups-more bs =
      let more : is_last_group (v % 128 + 128) ≡ false = ground arith in rw more refl

first_groups-encode :
    (fuel v : ℕ) (rest : List ℕ)
    → v < 128 ^ suc fuel
    → first_groups (suc fuel) (encode_groups (suc fuel) v ++ rest)
      ≡ Groups.complete (encode_groups (suc fuel) v)
unfolding prepend
first_groups-encode zero v rest h =
    let last : v / 128 == 0 ≡ true = ground (arith, pow-suc 128 zero) in
    rw (encode_groups-last zero v last) (first_groups-last zero v rest)
first_groups-encode (suc fuel) v rest h = elim (Bool-cases (v / 128 == 0)) [
  | inl last ↦ rw (encode_groups-last (suc fuel) v last) (first_groups-last (suc fuel) v rest)
  | inr more ↦
      let later = first_groups-encode fuel (v / 128) rest (omega (arith, pow-suc 128 (suc fuel))) in
      rw (encode_groups-more (suc fuel) v more) (
        first_groups-more (suc fuel) v (encode_groups (suc fuel) (v / 128) ++ rest)
        ∙ ap (prepend (v % 128 + 128)) later)
]

pub unread-advance :
    (r : Reader) (bytes rest : List ℕ)
    → unread r ≡ bytes ++ rest
    → unread (advance r (length bytes)) ≡ rest
unread-advance r bytes rest h =
    drop-add (length bytes) r.pos r.buf ∙ ap (drop (length bytes)) h ∙ drop-append bytes rest

-- A number below 2^64 that stands encoded at the position is read back, and what follows it is left
-- to be read.
pub read_varint-encode_varint :
    (r : Reader) (v : ℕ) (rest : List ℕ)
    → v < 2 ^ 64
    → unread r ≡ encode_varint v ++ rest
    → (read_varint r ≡ ok (v, advance r (length (encode_varint v))))
      × (unread (advance r (length (encode_varint v))) ≡ rest)
unfolding outcome
read_varint-encode_varint r v rest h at =
    let value = number-encode_groups 10 v (omega arith) in
    let exact : (0 + number (encode_varint v) * 2 ^ 0) % 2 ^ 64 ≡ v = omega arith in
    (
      read_varint_lem r
          ∙ ap (λ bytes. outcome 0 0 r (first_groups 10 bytes)) at
          ∙ ap (outcome 0 0 r) (first_groups-encode 9 v rest (omega arith))
          ∙ ap (λ (n : ℕ). ok (n, advance r (length (encode_varint v)))) exact,
      unread-advance r (encode_varint v) rest at,
    )

-- The tag of a field is read back, except that the number of the field is cut to 32 bits: fields
-- whose numbers are equal modulo 2^32 are not told apart.
pub read_tag-encode_tag :
    (r : Reader) (field wire : ℕ) (rest : List ℕ)
    → wire < 8
    → field < 2 ^ 61
    → unread r ≡ encode_tag field wire ++ rest
    → (read_tag r ≡ ok (some (field % 2 ^ 32, wire), advance r (length (encode_tag field wire))))
      × (unread (advance r (length (encode_tag field wire))) ≡ rest)
unfolding read_tag has_remaining
read_tag-encode_tag r field wire rest small fits at =
    let (value, left) = read_varint-encode_varint r (field * 8 + wire) rest (omega arith) at in
    let moved =
      read_varint-Advances r (advance r (length (encode_tag field wire))) (field * 8 + wire)
        value in
    let more : has_remaining r ≡ true = ground (arith, moved) in
    (rw (more, value) (ground arith), left)
