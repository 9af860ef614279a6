-- ===== src/Scip/Reader.antt =====
-- `Reader` (src/scip_decoder.rs): the wire format of protobuf, read from a buffer at a position.
use workspace_atlas.Common.{
  ℕ, zero, suc, ◌+◌, ◌*◌, ◌/◌, ◌%◌, ◌^◌, Bool, true, false, not, ◌&&◌, List, [], ◌∷◌, Option, none,
  some, Text, codes, ok, err, ◌>>=◌, ◌>>◌, refuse_if, ltb, leb, ◌==◌, if◌then◌else◌, length,
  get_elem?, take, drop,
}
use workspace_atlas.Scip.Types.{DResult, ScipDecodeError}
use Prim.Native.Nat.{bit_or}

pub record Reader : Type 0 where
  pub buf : List ℕ
  pub pos : ℕ

-- What an operation on `&mut self` returns: its result and the reader it leaves.
abbrev pub Read : Type 0 → Type 0
Read A = DResult (A × Reader)

abbrev pub new : List ℕ → Reader
new buf = record { buf = buf; pos = 0 }

-- `&buf[pos..]`.
abbrev pub unread : Reader → List ℕ
unread r = drop r.pos r.buf

unfoldable pub has_remaining : Reader → Bool
has_remaining r = ltb r.pos (length r.buf)

unfoldable pub read_byte : Reader → Read ℕ
read_byte r = elim (get_elem? r.buf r.pos) [
  | none ↦ err (ScipDecodeError.truncated r.pos)
  | some b ↦ ok (b, record r { pos = r.pos + 1 })
]

-- `u64::from(byte & 0x7F) << shift`.
abbrev pub shifted_group : ℕ → ℕ → ℕ
shifted_group byte shift = (byte % 128 * 2 ^ shift) % 2 ^ 64

-- `byte & 0x80 == 0`.
abbrev pub is_last_group : ℕ → Bool
is_last_group byte = byte / 128 % 2 == 0

-- The loop: eleven turns are enough, since the shift grows by seven and is refused from 70 on.
unfoldable pub read_groups : (fuel result shift : ℕ) → Reader → Read ℕ
read_groups zero result shift r = err (ScipDecodeError.invalid_varint r.pos)
read_groups (suc fuel) result shift r =
    refuse_if (leb 70 shift) (ScipDecodeError.invalid_varint r.pos) >> read_byte r >>= λ read.
    let next = bit_or result (shifted_group read.0 shift) in
    let rest = read_groups fuel next (shift + 7) read.1 in
    if is_last_group read.0 then ok (next, read.1) else rest

unfoldable pub read_varint : Reader → Read ℕ
read_varint r = read_groups 11 0 0 r

unfoldable pub read_tag : Reader → Read (Option (ℕ × ℕ))
read_tag r =
    if not (has_remaining r)
    then ok (none, r)
    else (read_varint r >>= λ read. ok (some (read.0 / 8 % 2 ^ 32, read.0 % 8), read.1))

-- The end cannot overflow: `checked_add` fails above 2^64, past the end of any buffer.
unfoldable pub read_length_delimited : ℕ → Reader → Read (List ℕ)
read_length_delimited max_string_bytes r = read_varint r >>= λ read.
    refuse_if (ltb max_string_bytes read.0) (
      ScipDecodeError.limit_exceeded (codes "length_delimited_field_bytes") read.0 max_string_bytes)
    >> refuse_if (leb (2 ^ 64) (read.1.pos + read.0)) (ScipDecodeError.truncated read.1.pos)
    >> refuse_if (ltb (length read.1.buf) (read.1.pos + read.0))
        (ScipDecodeError.truncated read.1.pos)
    >> ok (take read.0 (unread read.1), record read.1 { pos = read.1.pos + read.0 })

-- The ranges that `std::str::from_utf8` allows the bytes after a first one: none for ASCII.
unfoldable pub continuation_ranges : ℕ → Option (List (ℕ × ℕ))
continuation_ranges b =
    if ltb b 0x80
    then some []
    else if ltb b 0xc2
    then none
    else if ltb b 0xe0
    then some ((0x80, 0xbf) ∷ [])
    else if b == 0xe0
    then some ((0xa0, 0xbf) ∷ (0x80, 0xbf) ∷ [])
    else if b == 0xed
    then some ((0x80, 0x9f) ∷ (0x80, 0xbf) ∷ [])
    else if ltb b 0xf0
    then some ((0x80, 0xbf) ∷ (0x80, 0xbf) ∷ [])
    else if b == 0xf0
    then some ((0x90, 0xbf) ∷ (0x80, 0xbf) ∷ (0x80, 0xbf) ∷ [])
    else if ltb b 0xf4
    then some ((0x80, 0xbf) ∷ (0x80, 0xbf) ∷ (0x80, 0xbf) ∷ [])
    else if b == 0xf4
    then some ((0x80, 0x8f) ∷ (0x80, 0xbf) ∷ (0x80, 0xbf) ∷ [])
    else none

unfoldable pub utf8_from : List (ℕ × ℕ) → List ℕ → Bool
utf8_from [] [] = true
utf8_from (range ∷ ranges) [] = false
utf8_from ((low, high) ∷ ranges) (b ∷ bs) = leb low b && leb b high && utf8_from ranges bs
utf8_from [] (b ∷ bs) = elim (continuation_ranges b) [
  | none ↦ false
  | some ranges ↦ utf8_from ranges bs
]

abbrev pub is_utf8 : List ℕ → Bool
is_utf8 bytes = utf8_from [] bytes

unfoldable pub read_string : Text → ℕ → Reader → Read Text
read_string field max_string_bytes r = read_length_delimited max_string_bytes r >>= λ read.
    refuse_if (not (is_utf8 read.0)) (ScipDecodeError.invalid_utf8 field) >> ok read

-- `read_fixed32` and `read_fixed64`, of which no caller uses the value.
unfoldable pub read_fixed : ℕ → Reader → Read (List ℕ)
read_fixed width r =
    refuse_if (ltb (length r.buf) (r.pos + width)) (ScipDecodeError.truncated r.pos)
    >> ok (take width (unread r), record r { pos = r.pos + width })

-- A value is read, and the message is changed by it.
unfoldable pub store : {A S : Type 0} → Read A → (A → DResult S) → Read S
store read change = read >>= λ got. change got.0 >>= λ next. ok (next, got.1)

-- `read_…()?;` and go on.
abbrev pub discard : {A : Type 0} → Read A → Read (Unit {0})
discard read = store read (λ done. ok tt)

unfoldable pub skip_field : (wire_type max_string_bytes : ℕ) → Reader → Read (Unit {0})
skip_field wire_type max_string_bytes r =
    if wire_type == 0
    then discard (read_varint r)
    else if wire_type == 1
    then discard (read_fixed 8 r)
    else if wire_type == 2
    then discard (read_length_delimited max_string_bytes r)
    else if wire_type == 5
    then discard (read_fixed 4 r)
    else err (ScipDecodeError.invalid_wire_type wire_type r.pos)

-- `v as i64 as i32`: the low 32 bits.
abbrev pub varint_to_i32 : ℕ → ℕ
varint_to_i32 v = v % 2 ^ 32
