-- ===== src/Lifecycle/Paired.antt =====
-- Where the pairs of `detect_renames` (src/lifecycle.rs) come from: a pair is listed exactly if two
-- groups of the same hash hold one path each.
use mathlib.Core.List.{Memᴰ}
use workspace_atlas.Common.{
  List, [], ◌∷◌, ◌++◌, Option, none, some, Text, text_eq, text_eq_sound, text_eq_refl, ◌≡◌, refl,
  ap, arith, Bool-cases, inl, inr, ◌⊎◌,
}
use workspace_atlas.Lifecycle.Renames.{PrevFile, RenamePair, get_entry, rename_pair, pair_of, pairs}
use workspace_atlas.Lifecycle.Groups.{Keyed, or_empty}

-- One turn of the loop yields a pair exactly from single entries.
pub pair_of-Mem :
    (olds : List (Text × PrevFile)) (news : Option (List (Text × Text))) (r : RenamePair)
    → Memᴰ r (pair_of olds news)
    → (old : Text × PrevFile) × (new : Text × Text) × (olds ≡ old ∷ [])
      × (or_empty news ≡ new ∷ [])
      × (r ≡ rename_pair old new)
unfolding pair_of
pair_of-Mem [] news r m = elim m [ ]
pair_of-Mem (old ∷ []) none r m = elim m [ ]
pair_of-Mem (old ∷ []) (some []) r m = elim m [ ]
pair_of-Mem (old ∷ []) (some (new ∷ [])) r (Memᴰ.head e) = (old, new, refl, refl, e)
pair_of-Mem (old ∷ []) (some (new ∷ [])) r (Memᴰ.tail t) = elim t [ ]
pair_of-Mem (old ∷ []) (some (new ∷ b ∷ bs)) r m = elim m [ ]
pair_of-Mem (old ∷ b ∷ bs) news r m = elim m [ ]

Memᴰ-append : {A : Type 0} (x : A) (xs ys : List A) → Memᴰ x (xs ++ ys) → Memᴰ x xs ⊎ Memᴰ x ys
Memᴰ-append x [] ys m = inr m
Memᴰ-append x (y ∷ xs) ys (Memᴰ.head e) = inl (Memᴰ.head e)
Memᴰ-append x (y ∷ xs) ys (Memᴰ.tail m) = elim (Memᴰ-append x xs ys m) [
  | inl l ↦ inl (Memᴰ.tail l)
  | inr r ↦ inr r
]

Memᴰ-left : {A : Type 0} (x : A) (xs ys : List A) → Memᴰ x xs → Memᴰ x (xs ++ ys)
Memᴰ-left x [] ys m = elim m [ ]
Memᴰ-left x (y ∷ xs) ys (Memᴰ.head e) = Memᴰ.head e
Memᴰ-left x (y ∷ xs) ys (Memᴰ.tail m) = Memᴰ.tail (Memᴰ-left x xs ys m)

Memᴰ-right : {A : Type 0} (x : A) (xs ys : List A) → Memᴰ x ys → Memᴰ x (xs ++ ys)
Memᴰ-right x [] ys m = m
Memᴰ-right x (y ∷ xs) ys m = Memᴰ.tail (Memᴰ-right x xs ys m)

-- Every pair comes from a group of the map.
get_entry-later :
    {A : Type 0} (k h : Text) (xs ys : List A) (groups : List (Text × List A))
    → get_entry h groups ≡ none
    → get_entry k groups ≡ some ys
    → get_entry k ((h, xs) ∷ groups) ≡ some ys
unfolding get_entry
get_entry-later k h xs ys groups fresh found = elim (Bool-cases (text_eq h k)) [
  | inl same ↦
      let there : get_entry h groups ≡ some ys = rw (text_eq_sound h k same) found in
      absurd (ground arith)
  | inr other ↦ rw other found
]

pub pairs-Mem :
    (news : List (Text × List (Text × Text))) (groups : List (Text × List (Text × PrevFile)))
    (r : RenamePair)
    → Keyed groups
    → Memᴰ r (pairs news groups)
    → (h : Text) × (olds : List (Text × PrevFile)) × (get_entry h groups ≡ some olds)
      × Memᴰ r (pair_of olds (get_entry h news))
unfolding pairs get_entry
pairs-Mem news [] r d m = elim m [ ]
pairs-Mem news ((h, olds) ∷ groups) r d m =
    elim (Memᴰ-append r (pair_of olds (get_entry h news)) (pairs news groups) m) [
      | inl here ↦ (h, olds, rw (text_eq_refl h) refl, here)
      | inr later ↦
          let (k, rest, found, inside) = pairs-Mem news groups r d.1 later in
          (k, rest, get_entry-later k h olds rest groups d.0 found, inside)
    ]

pub pairs-has :
    (news : List (Text × List (Text × Text))) (groups : List (Text × List (Text × PrevFile)))
    (r : RenamePair) (h : Text) (olds : List (Text × PrevFile))
    → get_entry h groups ≡ some olds
    → Memᴰ r (pair_of olds (get_entry h news))
    → Memᴰ r (pairs news groups)
unfolding pairs get_entry
pairs-has news [] r h olds found m = absurd (ground arith)
pairs-has news ((k, xs) ∷ groups) r h olds found m = elim (Bool-cases (text_eq k h)) [
  | inl hit ↦
      let same : xs ≡ olds = ground arith in
      Memᴰ-left r (pair_of xs (get_entry k news)) (pairs news groups)
        (rw (same, text_eq_sound k h hit) m)
  | inr miss ↦
      Memᴰ-right r (pair_of xs (get_entry k news)) (pairs news groups)
        (pairs-has news groups r h olds (ground arith) m)
]

pub some_of_or_empty :
    {A : Type 0} (x : A) (xs : List A) (entry : Option (List A))
    → or_empty entry ≡ x ∷ xs
    → entry ≡ some (x ∷ xs)
some_of_or_empty x xs none h = absurd (ground arith)
some_of_or_empty x xs (some ys) h = ap some h

pub single :
    (old : Text × PrevFile) (new : Text × Text) (news : Option (List (Text × Text)))
    (r : RenamePair)
    → news ≡ some (new ∷ [])
    → r ≡ rename_pair old new
    → Memᴰ r (pair_of (old ∷ []) news)
unfolding pair_of
single old new news r h e = rw h (Memᴰ.head e)
