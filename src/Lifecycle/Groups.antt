-- ===== src/Lifecycle/Groups.antt =====
-- The maps from a content hash to the paths that have it (src/lifecycle.rs), by what is found in them.
use workspace_atlas.Common.{
  Bool, true, false, List, [], ◌∷◌, ◌++◌, Option, none, some, Text, text_eq, text_eq_sound,
  text_eq_refl, if◌then◌else◌, ◌≡◌, refl, sym, ap, ◌∙◌, arith, Bool-cases, inl, inr,
}
use mathlib.Core.Path.{subst}
use workspace_atlas.Lifecycle.Renames.{get_entry, filter, push_entry, group_onto}

text_eq_flip : (s t : Text) → text_eq s t ≡ false → text_eq t s ≡ false
text_eq_flip s t apart = elim (Bool-cases (text_eq t s)) [
  | inl same ↦
      let itself : text_eq s t ≡ true = rw (text_eq_sound t s same) (text_eq_refl s) in
      absurd (ground arith)
  | inr other ↦ other
]

module _ {A : Type 0} where
  abbrev pub or_empty : Option (List A) → List A
  or_empty none = []
  or_empty (some xs) = xs

  -- The entry of a hash, empty if there is none.
  abbrev pub group_get : Text → List (Text × List A) → List A
  group_get h groups = or_empty (get_entry h groups)

  append-nil : (xs : List A) → xs ++ [] ≡ xs
  append-nil [] = refl
  append-nil (x ∷ xs) = ap (λ ys. x ∷ ys) (append-nil xs)

  append-cons : (xs : List A) (x : A) (ys : List A) → (xs ++ x ∷ []) ++ ys ≡ xs ++ x ∷ ys
  append-cons [] x ys = refl
  append-cons (z ∷ xs) x ys = ap (λ us. z ∷ us) (append-cons xs x ys)

  get_entry-push_entry_hit :
      (k : Text) (x : A) (groups : List (Text × List A))
      → get_entry k (push_entry k x groups) ≡ some (group_get k groups ++ x ∷ [])
  unfolding get_entry push_entry
  get_entry-push_entry_hit k x [] = rw (text_eq_refl k) refl
  get_entry-push_entry_hit k x ((h, xs) ∷ groups) = elim (Bool-cases (text_eq h k)) [
    | inl hit ↦ rw (hit, hit) refl
    | inr miss ↦ rw (miss, miss) (get_entry-push_entry_hit k x groups)
  ]

  get_entry-push_entry_miss :
      (k h : Text) (x : A) (groups : List (Text × List A))
      → text_eq k h ≡ false
      → get_entry h (push_entry k x groups) ≡ get_entry h groups
  unfolding get_entry push_entry
  get_entry-push_entry_miss k h x [] apart = rw apart refl
  get_entry-push_entry_miss k h x ((i, xs) ∷ groups) apart = elim (Bool-cases (text_eq i k)) [
    | inl hit ↦
        let other : text_eq i h ≡ false = rw (text_eq_sound i k hit) apart in rw (hit, other) refl
    | inr miss ↦ rw miss (elim (Bool-cases (text_eq i h)) [
      | inl found ↦ rw found refl
      | inr more ↦ rw more (get_entry-push_entry_miss k h x groups apart)
    ])
  ]

  group_get-push_entry :
      (k h : Text) (x : A) (groups : List (Text × List A))
      → group_get h (push_entry k x groups)
        ≡ (if text_eq k h then group_get h groups ++ x ∷ [] else group_get h groups)
  group_get-push_entry k h x groups = elim (Bool-cases (text_eq k h)) [
    | inl hit ↦ rw hit (
        subst (λ j. group_get j (push_entry k x groups) ≡ group_get j groups ++ x ∷ [])
          (text_eq_sound k h hit) (ap or_empty (get_entry-push_entry_hit k x groups)))
    | inr miss ↦ rw miss (ap or_empty (get_entry-push_entry_miss k h x groups miss))
  ]

  -- No hash stands twice.
  abbrev pub Keyed : List (Text × List A) → Type 0
  Keyed [] = Unit {0}
  Keyed ((h, xs) ∷ groups) = (get_entry h groups ≡ none) × Keyed groups

  Keyed-push_entry :
      (k : Text) (x : A) (groups : List (Text × List A))
      → Keyed groups
      → Keyed (push_entry k x groups)
  unfolding push_entry get_entry
  Keyed-push_entry k x [] d = (refl, tt)
  Keyed-push_entry k x ((h, xs) ∷ groups) d = elim (Bool-cases (text_eq h k)) [
    | inl hit ↦ rw hit (d.0, d.1)
    | inr miss ↦ rw miss (
      get_entry-push_entry_miss k h x groups (text_eq_flip h k miss) ∙ d.0,
      Keyed-push_entry k x groups d.1,
    )
  ]

  module _ (hash_of : A → Text) where
    abbrev pub hashed : Text → A → Bool
    hashed h x = text_eq (hash_of x) h

    pub Keyed-group_onto :
        (groups : List (Text × List A)) (xs : List A)
        → Keyed groups
        → Keyed (group_onto hash_of groups xs)
    unfolding group_onto
    Keyed-group_onto groups [] d = d
    Keyed-group_onto groups (x ∷ xs) d =
        Keyed-group_onto (push_entry (hash_of x) x groups) xs
          (Keyed-push_entry (hash_of x) x groups d)

    pub group_get-onto :
        (h : Text) (groups : List (Text × List A)) (xs : List A)
        → group_get h (group_onto hash_of groups xs) ≡ group_get h groups ++ filter (hashed h) xs
    unfolding group_onto filter
    group_get-onto h groups [] = sym (append-nil (group_get h groups))
    group_get-onto h groups (x ∷ xs) =
        let k = hash_of x in
        group_get-onto h (push_entry k x groups) xs
        ∙ rw (group_get-push_entry k h x groups) (elim (Bool-cases (text_eq k h)) [
          | inl hit ↦ rw hit (append-cons (group_get h groups) x (filter (hashed h) xs))
          | inr miss ↦ rw miss refl
        ])
