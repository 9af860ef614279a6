-- ===== src/Scip/Varint.antt =====
-- `Reader::read_varint` (src/scip_decoder.rs) on every input, against a description of the bytes that
-- it meets.
use workspace_atlas.Common.{
  ℕ, zero, suc, ◌+◌, ◌*◌, ◌%◌, ◌^◌, ◌<◌, ◌≤◌, true, false, List, [], ◌∷◌, none, some, ok, err, ◌≡◌,
  refl, sym, ap, ◌∙◌, arith, if◌then◌else◌, leb, length, Bool-cases, inl, inr, get_elem?,
  get_elem?-head?, head?, drop, drop-add, bit_or-shifted,
}
use Prim.Native.Nat.{bit_or}
use mathlib.Core.Path.{subst}
use native.Mathlib.Nat.{pow-suc, pow-le-pow_right}
use workspace_atlas.Scip.Types.{ScipDecodeError}
use workspace_atlas.Scip.Reader.{
  Reader, Read, unread, read_byte, read_groups, read_varint, is_last_group, shifted_group,
}

-- A number from its groups of seven bits, the lowest first.
unfoldable pub number : List ℕ → ℕ
number [] = 0
number (b ∷ bs) = b % 128 + 128 * number bs

-- The bytes at the front that a varint may take: up to one with the top bit clear, or as many as
-- there are, or as many as are allowed.
pub data Groups : Type 0 where
  complete : List ℕ → Groups
  cut_short : List ℕ → Groups
  endless : List ℕ → Groups

unfoldable pub prepend : ℕ → Groups → Groups
prepend b (Groups.complete gs) = Groups.complete (b ∷ gs)
prepend b (Groups.cut_short gs) = Groups.cut_short (b ∷ gs)
prepend b (Groups.endless gs) = Groups.endless (b ∷ gs)

unfoldable pub first_groups : ℕ → List ℕ → Groups
first_groups zero bs = Groups.endless []
first_groups (suc n) [] = Groups.cut_short []
first_groups (suc n) (b ∷ bs) =
    if is_last_group b then Groups.complete (b ∷ []) else prepend b (first_groups n bs)

abbrev pub advance : Reader → ℕ → Reader
advance r n = record r { pos = r.pos + n }

-- What is to be read from a position at which those bytes stand: `base` has been read below `shift`.
unfoldable pub outcome : (base shift : ℕ) → Reader → Groups → Read ℕ
outcome base shift r (Groups.complete gs) =
    ok ((base + number gs * 2 ^ shift) % 2 ^ 64, advance r (length gs))
outcome base shift r (Groups.cut_short gs) = err (ScipDecodeError.truncated (r.pos + length gs))
outcome base shift r (Groups.endless gs) = err (ScipDecodeError.invalid_varint (r.pos + length gs))

pub unread-next : (r : Reader) (b : ℕ) (bs : List ℕ) → unread r ≡ b ∷ bs → unread (advance r 1) ≡ bs
unfolding drop
unread-next r b bs h = drop-add 1 r.pos r.buf ∙ ap (drop 1) h

pub read_byte-next :
    (r : Reader) (b : ℕ) (bs : List ℕ) → unread r ≡ b ∷ bs → read_byte r ≡ ok (b, advance r 1)
unfolding read_byte
read_byte-next r b bs h =
    let e : get_elem? r.buf r.pos ≡ some b = get_elem?-head? r.buf r.pos ∙ ap head? h in
    rw (read_byte, e) refl

read_byte-end : (r : Reader) → unread r ≡ [] → read_byte r ≡ err (ScipDecodeError.truncated r.pos)
unfolding read_byte
read_byte-end r h =
    let e : get_elem? r.buf r.pos ≡ none = get_elem?-head? r.buf r.pos ∙ ap head? h in
    rw (read_byte, e) refl

two_pow_seven : (k : ℕ) → 2 ^ (k + 7) ≡ 128 * 2 ^ k
two_pow_seven k =
    let seven : k + 7 ≡ suc (suc (suc (suc (suc (suc (suc k)))))) = omega arith in
    ap (λ (m : ℕ). 2 ^ m) seven
    ∙ omega (
      arith,
      pow-suc 2 k,
      pow-suc 2 (suc k),
      pow-suc 2 (suc (suc k)),
      pow-suc 2 (suc (suc (suc k))),
      pow-suc 2 (suc (suc (suc (suc k)))),
      pow-suc 2 (suc (suc (suc (suc (suc k))))),
      pow-suc 2 (suc (suc (suc (suc (suc (suc k)))))),
    )

-- The last group: of its bits only the lowest fits.
last_base :
    (base byte : ℕ)
    → base < 2 ^ 63
    → bit_or base (shifted_group byte 63) ≡ (base + byte % 128 * 2 ^ 63) % 2 ^ 64
last_base base byte small =
    let kept : shifted_group byte 63 ≡ byte % 2 * 2 ^ 63 = omega arith in
    rw kept (omega (arith, bit_or-shifted 63 base (byte % 2) small))

early_base :
    (base shift byte : ℕ)
    → shift ≤ 56
    → base < 2 ^ shift
    → bit_or base (shifted_group byte shift) ≡ (base + byte % 128 * 2 ^ shift) % 2 ^ 64
early_base base shift byte early small =
    let bound : 2 ^ shift ≤ 2 ^ 56 = pow-le-pow_right (omega arith) early in
    let product : byte % 128 * 2 ^ shift ≤ 127 * 2 ^ shift = grind arith in
    let kept : shifted_group byte shift ≡ byte % 128 * 2 ^ shift = omega arith in
    rw kept (omega (arith, bit_or-shifted shift base (byte % 128) small))

-- The groups are put together, whatever their bits that do not fit: the sum is taken modulo 2^64.
next_base :
    (n base shift byte : ℕ)
    → shift + 7 * suc n ≡ 70
    → base < 2 ^ shift
    → bit_or base (shifted_group byte shift) ≡ (base + byte % 128 * 2 ^ shift) % 2 ^ 64
next_base zero base shift byte h small =
    let last : 63 ≡ shift = omega arith in
    subst
      (λ k.
        base < 2 ^ k → bit_or base (shifted_group byte k) ≡ (base + byte % 128 * 2 ^ k) % 2 ^ 64)
      last (last_base base byte) small
next_base (suc n) base shift byte h small = early_base base shift byte (omega arith) small

next_base-small :
    (n base shift byte : ℕ)
    → base < 2 ^ shift
    → (base + byte % 128 * 2 ^ shift) % 2 ^ 64 < 2 ^ (shift + 7)
next_base-small n base shift byte small =
    let product : byte % 128 * 2 ^ shift ≤ 127 * 2 ^ shift = grind arith in
    omega (arith, two_pow_seven shift)

swap_factors : (a p q : ℕ) → p ≡ 128 * q → a * p ≡ 128 * (a * q)
swap_factors a p q h = rw h (grind arith)

outcome-prepend :
    (base shift byte : ℕ) (r : Reader) (groups : Groups)
    → outcome base shift r (prepend byte groups)
      ≡ outcome ((base + byte % 128 * 2 ^ shift) % 2 ^ 64) (shift + 7) (advance r 1) groups
unfolding outcome prepend number
outcome-prepend base shift byte r (Groups.complete gs) =
    let apart : (byte % 128 + 128 * number gs) * 2 ^ shift
        ≡ byte % 128 * 2 ^ shift + 128 * (number gs * 2 ^ shift) =
      grind arith in
    let above : number gs * 2 ^ (shift + 7) ≡ 128 * (number gs * 2 ^ shift) =
      swap_factors (number gs) (2 ^ (shift + 7)) (2 ^ shift) (two_pow_seven shift) in
    ground arith
outcome-prepend base shift byte r (Groups.cut_short gs) = ground arith
outcome-prepend base shift byte r (Groups.endless gs) = ground arith

module _ (fuel base shift : ℕ) (r : Reader) where
  read_groups-full :
      leb 70 shift ≡ true
      → read_groups (suc fuel) base shift r ≡ err (ScipDecodeError.invalid_varint r.pos)
  unfolding read_groups
  read_groups-full full = rw full refl

  read_groups-end :
      leb 70 shift ≡ false
      → (e : ScipDecodeError) → read_byte r ≡ err e
      → read_groups (suc fuel) base shift r ≡ err e
  unfolding read_groups
  read_groups-end free e q = rw (free, q) refl

  read_groups-byte :
      leb 70 shift ≡ false
      → (byte : ℕ) (r' : Reader) → read_byte r ≡ ok (byte, r')
      → read_groups (suc fuel) base shift r ≡ (
          if is_last_group byte
          then ok (bit_or base (shifted_group byte shift), r')
          else read_groups fuel (bit_or base (shifted_group byte shift)) (shift + 7) r')
  unfolding read_groups
  read_groups-byte free byte r' q = rw (free, q) refl

outcome-last :
    (base shift byte : ℕ) (r : Reader)
    → ok ((base + byte % 128 * 2 ^ shift) % 2 ^ 64, advance r 1)
      ≡ outcome base shift r (Groups.complete (byte ∷ []))
unfolding outcome number
outcome-last base shift byte r = ground arith

read_groups_lem :
    (n base shift : ℕ) (r : Reader) (bytes : List ℕ)
    → shift + 7 * n ≡ 70
    → base < 2 ^ shift
    → unread r ≡ bytes
    → read_groups (suc n) base shift r ≡ outcome base shift r (first_groups n bytes)
unfolding first_groups outcome
read_groups_lem zero base shift r bytes h small at =
    read_groups-full 0 base shift r (ground arith) ∙ ground arith
read_groups_lem (suc n) base shift r [] h small at =
    read_groups-end (suc n) base shift r (ground arith) _ (read_byte-end r at) ∙ ground arith
read_groups_lem (suc n) base shift r (b ∷ bs) h small at =
    let base' = (base + b % 128 * 2 ^ shift) % 2 ^ 64 in
    let rest =
      read_groups_lem n base' (shift + 7) (advance r 1) bs (omega arith)
        (next_base-small n base shift b small) (unread-next r b bs at) in
    read_groups-byte (suc n) base shift r (ground arith) b (advance r 1) (read_byte-next r b bs at)
    ∙ rw (next_base n base shift b h small) (elim (Bool-cases (is_last_group b)) [
      | inl last ↦ rw last (outcome-last base shift b r)
      | inr more ↦ rw more (rest ∙ sym (outcome-prepend base shift b r (first_groups n bs)))
    ])

-- Reading a varint, on every input. The bytes from the position on are looked at up to the first
-- with its top bit clear, and ten of them at most. If there is such a byte, the result is the number
-- that the groups of seven bits make, modulo 2^64, and the reader stands behind them. If the buffer
-- ends before it, the error is `Truncated` at its end, and if ten bytes have passed, `InvalidVarint`
-- behind the tenth.
pub read_varint_lem : (r : Reader) → read_varint r ≡ outcome 0 0 r (first_groups 10 (unread r))
unfolding read_varint
read_varint_lem r = read_groups_lem 10 0 0 r (unread r) refl (omega arith) refl
