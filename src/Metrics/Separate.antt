-- ===== src/Metrics/Separate.antt =====
-- Membership in the sets that src/context_metrics.rs builds.
use mathlib.Core.Path.{subst}
use workspace_atlas.Common.{
  ℕ, Bool, true, false, not, ◌&&◌, ◌||◌, List, [], ◌∷◌, ◌++◌, Option, none, some, Option-cases, ok,
  >>=-eq-ok, ◌==◌, if◌then◌else◌, Bool-cases, inl, inr, ◌≡◌, refl, sym, ap, ◌∙◌, arith,
  text_eq_sound, text_eq_refl,
}
use workspace_atlas.Metrics.Types.{
  CanonicalEvidenceKind, CanonicalRange, kind_rank, range_eq, CanonicalEvidenceId, SuppliedEvidence,
  identity_eq,
}
use workspace_atlas.Metrics.Derive.{
  has, keep, collect, union, get_bytes, add_supplied, supplied_map, map_keys,
}

kind_of : ℕ → CanonicalEvidenceKind
kind_of n =
    if n == 0
    then CanonicalEvidenceKind.file
    else if n == 1
    then CanonicalEvidenceKind.symbol
    else if n == 2
    then CanonicalEvidenceKind.config
    else if n == 3
    then CanonicalEvidenceKind.test
    else if n == 4
    then CanonicalEvidenceKind.query
    else if n == 5
    then CanonicalEvidenceKind.document
    else if n == 6
    then CanonicalEvidenceKind.external
    else if n == 7
    then CanonicalEvidenceKind.relationship
    else CanonicalEvidenceKind.range

kind_of-kind_rank : (k : CanonicalEvidenceKind) → kind_of (kind_rank k) ≡ k
unfolding kind_of
kind_of-kind_rank CanonicalEvidenceKind.file = refl
kind_of-kind_rank CanonicalEvidenceKind.symbol = refl
kind_of-kind_rank CanonicalEvidenceKind.config = refl
kind_of-kind_rank CanonicalEvidenceKind.test = refl
kind_of-kind_rank CanonicalEvidenceKind.query = refl
kind_of-kind_rank CanonicalEvidenceKind.document = refl
kind_of-kind_rank CanonicalEvidenceKind.external = refl
kind_of-kind_rank CanonicalEvidenceKind.relationship = refl
kind_of-kind_rank CanonicalEvidenceKind.range = refl

range_eq_sound : (r s : Option CanonicalRange) → range_eq r s ≡ true → r ≡ s
unfolding range_eq
range_eq_sound none none h = refl
range_eq_sound none (some s) h = cc
range_eq_sound (some r) none h = cc
range_eq_sound (some r) (some s) h = ground arith

pub identity_eq_sound : (a b : CanonicalEvidenceId) → identity_eq a b ≡ true → a ≡ b
unfolding identity_eq
identity_eq_sound a b h =
    let ranks : kind_rank a.kind ≡ kind_rank b.kind = ground arith in
    let kinds : a.kind ≡ b.kind =
      sym (kind_of-kind_rank a.kind) ∙ ap kind_of ranks ∙ kind_of-kind_rank b.kind in
    let ids : a.id ≡ b.id = text_eq_sound a.id b.id (ground arith) in
    let ranges : a.range ≡ b.range = range_eq_sound a.range b.range (ground arith) in cc

range_eq_refl : (r : Option CanonicalRange) → range_eq r r ≡ true
unfolding range_eq
range_eq_refl none = refl
range_eq_refl (some r) = ground arith

pub identity_eq_refl : (a : CanonicalEvidenceId) → identity_eq a a ≡ true
unfolding identity_eq
identity_eq_refl a = ground (arith, text_eq_refl a.id, range_eq_refl a.range)

pub has-same :
    (a b : CanonicalEvidenceId) (xs : List CanonicalEvidenceId)
    → identity_eq a b ≡ true
    → has b xs ≡ true
    → has a xs ≡ true
has-same a b xs e h = subst (λ c. has c xs ≡ true) (sym (identity_eq_sound a b e)) h

pub has-collect :
    (a : CanonicalEvidenceId) (xs : List CanonicalEvidenceId) → has a (collect xs) ≡ has a xs
unfolding collect
has-collect a [] = refl
has-collect a (x ∷ xs) = ground (arith, has-collect a xs, has-same a x (collect xs))

pub has-append :
    (a : CanonicalEvidenceId) (xs ys : List CanonicalEvidenceId)
    → has a (xs ++ ys) ≡ (has a xs || has a ys)
has-append a [] ys = refl
has-append a (x ∷ xs) ys = ground (arith, has-append a xs ys)

pub has-keep :
    (p : CanonicalEvidenceId → Bool) (a : CanonicalEvidenceId) (xs : List CanonicalEvidenceId)
    → has a (keep p xs) ≡ (has a xs && p a)
has-keep p a [] = refl
has-keep p a (x ∷ xs) = elim (Bool-cases (identity_eq a x)) [
  | inl e ↦ let same : p a ≡ p x = ap p (identity_eq_sound a x e) in ground (arith, has-keep p a xs)
  | inr e ↦ ground (arith, has-keep p a xs)
]

pub has-union :
    (a : CanonicalEvidenceId) (xs ys : List CanonicalEvidenceId)
    → has a (union xs ys) ≡ (has a xs || has a ys)
has-union a xs ys =
    ground
      (arith, has-append a xs (keep (λ y. not (has y xs)) ys), has-keep (λ y. not (has y xs)) a ys)

pub has-map_keys :
    (a : CanonicalEvidenceId) (map : List (CanonicalEvidenceId × ℕ))
    → get_bytes a map ≡ none
    → has a (map_keys map) ≡ false
unfolding get_bytes
has-map_keys a [] h = refl
has-map_keys a (entry ∷ rest) h = ground (arith, has-map_keys a rest)

pub get_bytes-has :
    (a : CanonicalEvidenceId) (map : List (CanonicalEvidenceId × ℕ)) (n : ℕ)
    → get_bytes a map ≡ some n
    → has a (map_keys map) ≡ true
unfolding get_bytes
get_bytes-has a [] n h = cc
get_bytes-has a (entry ∷ rest) n h = ground (arith, get_bytes-has a rest n)

has-map_keys-append :
    (a b : CanonicalEvidenceId) (n : ℕ) (map : List (CanonicalEvidenceId × ℕ))
    → has a (map_keys (map ++ (b, n) ∷ [])) ≡ (has a (map_keys map) || identity_eq a b)
has-map_keys-append a b n [] = ground arith
has-map_keys-append a b n (entry ∷ rest) = ground (arith, has-map_keys-append a b n rest)

abbrev pub supplied_identities : List SuppliedEvidence → List CanonicalEvidenceId
supplied_identities [] = []
supplied_identities (item ∷ items) = item.identity ∷ supplied_identities items

pub has-supplied_map :
    (a : CanonicalEvidenceId) (map map' : List (CanonicalEvidenceId × ℕ))
    (items : List SuppliedEvidence)
    → supplied_map map items ≡ ok map'
    → has a (map_keys map') ≡ (has a (map_keys map) || has a (supplied_identities items))
unfolding supplied_map
has-supplied_map a map map' [] h = ground arith
has-supplied_map a map map' (item ∷ items) h =
    let id = item.identity in
    let (next, added, rest) = >>=-eq-ok (add_supplied item map (get_bytes id map)) _ h in
    let later = has-supplied_map a next map' items rest in
    elim (Option-cases (get_bytes id map)) [
      | inl e ↦ let now = has-map_keys-append a id item.exact_source_bytes map in ground arith
      | inr (n, e) ↦
          let known = has-same a id (map_keys map) in
          let there = get_bytes-has id map n e in ground arith
    ]
