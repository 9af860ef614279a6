-- ===== src/Scip/Progress.antt =====
-- The operations of `Reader` (src/scip_decoder.rs) leave the buffer as it is and move on inside it.
use workspace_atlas.Common.{
  ℕ, zero, suc, ◌+◌, ◌≤◌, ◌<◌, List, some, Text, ok, ◌≡◌, ap, length, arith, lt-length_of_get_elem?,
  inl, inr, Result-cases, Bool, true, false, if◌then◌else◌, err, ◌>>◌,
}
use workspace_atlas.Scip.Reader.{
  Reader, Read, read_byte, read_groups, shifted_group, read_varint, read_tag, read_length_delimited,
  read_string, read_fixed, skip_field, store,
}
use workspace_atlas.Scip.Types.{DResult, ScipDecodeError}
use Prim.Native.Nat.{bit_or}
use workspace_atlas.Scip.Fields.{skip}

-- `r'` reads the same buffer from a position that is not before that of `r`, and inside it.
abbrev pub Extends : Reader → Reader → Type 0
Extends r r' = (r'.buf ≡ r.buf) × (r.pos ≤ r'.pos) × (r'.pos ≤ length r.buf)

-- At least one byte is taken.
abbrev pub Advances : Reader → Reader → Type 0
Advances r r' = (r'.buf ≡ r.buf) × (r.pos < r'.pos) × (r'.pos ≤ length r.buf)

read_byte-Advances : (r r' : Reader) (b : ℕ) → read_byte r ≡ ok (b, r') → Advances r r'
unfolding read_byte
read_byte-Advances r r' b h = ground (arith, lt-length_of_get_elem? r.buf r.pos b)

read_groups-Advances :
    (fuel result shift : ℕ) (r r' : Reader) (v : ℕ)
    → read_groups fuel result shift r ≡ ok (v, r')
    → Advances r r'
unfolding read_groups
read_groups-Advances zero result shift r r' v h = absurd (ground arith)
read_groups-Advances (suc fuel) result shift r r' v h = elim (Result-cases (read_byte r)) [
  | inl (out, e) ↦
      let first = read_byte-Advances r out.1 out.0 e in
      ground (
        arith,
        first,
        ap length first.0,
        read_groups-Advances fuel (bit_or result (shifted_group out.0 shift)) (shift + 7) out.1 r'
            v,
      )
  | inr (failure, e) ↦ absurd (ground arith)
]

pub read_varint-Advances : (r r' : Reader) (v : ℕ) → read_varint r ≡ ok (v, r') → Advances r r'
unfolding read_varint
read_varint-Advances r r' v h = read_groups-Advances 11 0 0 r r' v h

pub read_tag-Advances :
    (r r' : Reader) (tag : ℕ × ℕ) → read_tag r ≡ ok (some tag, r') → Advances r r'
unfolding read_tag
read_tag-Advances r r' tag h = elim (Result-cases (read_varint r)) [
  | inl (out, e) ↦ ground (arith, read_varint-Advances r out.1 out.0 e)
  | inr (failure, e) ↦ absurd (ground arith)
]

-- Where a read succeeds, it leaves an extension of the reader it began with.
pub record Moves {A : Type 0} (r : Reader) (read : Read A) : Type 0 where
  pub extends : (a : A) (r' : Reader) → read ≡ ok (a, r') → Extends r r'

read_length_delimited-Extends :
    (most : ℕ) (r r' : Reader) (bytes : List ℕ)
    → read_length_delimited most r ≡ ok (bytes, r')
    → Extends r r'
unfolding read_length_delimited
read_length_delimited-Extends most r r' bytes h = elim (Result-cases (read_varint r)) [
  | inl (out, e) ↦
      let first = read_varint-Advances r out.1 out.0 e in ground (arith, first, ap length first.0)
  | inr (failure, e) ↦ absurd (ground arith)
]

read_string-Extends :
    (field : Text) (most : ℕ) (r r' : Reader) (text : Text)
    → read_string field most r ≡ ok (text, r')
    → Extends r r'
unfolding read_string
read_string-Extends field most r r' text h = elim (Result-cases (read_length_delimited most r)) [
  | inl (out, e) ↦ ground (arith, read_length_delimited-Extends most r out.1 out.0 e)
  | inr (failure, e) ↦ absurd (ground arith)
]

read_fixed-Extends :
    (width : ℕ) (r r' : Reader) (bytes : List ℕ)
    → read_fixed width r ≡ ok (bytes, r')
    → Extends r r'
unfolding read_fixed
read_fixed-Extends width r r' bytes h = ground arith

pub Moves-read_varint : (r : Reader) → Moves r (read_varint r)
Moves-read_varint r = record { extends = λ v r' h. ground (arith, read_varint-Advances r r' v h) }

pub Moves-read_length_delimited : (most : ℕ) (r : Reader) → Moves r (read_length_delimited most r)
Moves-read_length_delimited most r = record {
  extends = λ v r' h. read_length_delimited-Extends most r r' v h;
}

pub Moves-read_string : (field : Text) (most : ℕ) (r : Reader) → Moves r (read_string field most r)
Moves-read_string field most r = record {
  extends = λ v r' h. read_string-Extends field most r r' v h;
}

Moves-read_fixed : (width : ℕ) (r : Reader) → Moves r (read_fixed width r)
Moves-read_fixed width r = record { extends = λ v r' h. read_fixed-Extends width r r' v h }

pub store-eq-ok :
    {A S : Type 0} (read : Read A) (change : A → DResult S) (s : S) (r' : Reader)
    → store read change ≡ ok (s, r')
    → (a : A) × (read ≡ ok (a, r')) × (change a ≡ ok s)
unfolding store
store-eq-ok (err e) change s r' h = cc
store-eq-ok (ok (a, m)) change s r' h = elim (Result-cases (change a)) [
  | inl (t, e) ↦ (a, ground (arith, e), ground (arith, e))
  | inr (failure, e) ↦ absurd (ground arith)
]

module _ {S : Type 0} (r : Reader) where
  pub Moves-store :
      {A : Type 0} (read : Read A) (change : A → DResult S)
      → Moves r read
      → Moves r (store read change)
  Moves-store read change moves = record {
    extends = λ s r' h. let (a, e, _) = store-eq-ok read change s r' h in moves.extends a r' e;
  }

  pub Moves-if : (b : Bool) (x y : Read S) → Moves r x → Moves r y → Moves r (if b then x else y)
  Moves-if true x y p q = p
  Moves-if false x y p q = q

  pub Moves-after : (check : DResult (Unit {0})) (x : Read S) → Moves r x → Moves r (check >> x)
  Moves-after (ok done) x p = p
  Moves-after (err e) x p = record { extends = λ a r' h. cc }

  Moves-err : (e : ScipDecodeError) → Moves {A = S} r (err e)
  Moves-err e = record { extends = λ a r' h. cc }

Moves-skip_field : (wire most : ℕ) (r : Reader) → Moves r (skip_field wire most r)
unfolding skip_field
Moves-skip_field wire most r =
    search
      (
        Moves-if, Moves-store, Moves-err, Moves-read_varint, Moves-read_fixed,
        Moves-read_length_delimited,
      )
      depth 12

pub Moves-skip :
    {S : Type 0} (most : ℕ) (s : S) (wire : ℕ) (r : Reader) → Moves r (skip most s wire r)
Moves-skip most s wire r =
    Moves-store r (skip_field wire most r) (λ done. ok s) (Moves-skip_field wire most r)

pub ruleset moves = (
  Moves-if, Moves-store, Moves-after, Moves-skip, Moves-read_varint, Moves-read_string,
  Moves-read_length_delimited,
)
