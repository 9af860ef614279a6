-- ===== src/Paths/Resolved.antt =====
-- `lexically_canonical` (src/paths.rs) against a resolution of paths that counts the steps up.
use workspace_atlas.Common.{
  ℕ, zero, suc, ◌≤◌, ◌≡◌, refl, ap, ◌∙◌, Bool, true, false, all, Text, List, [], ◌∷◌, arith,
}
use workspace_atlas.Paths.{
  Component, canonical_step, canonical_from, components_onto, or_cur_dir, lexically_canonical,
}

-- Where a relative path leads: some directories up, and down by these names, the last one first.
pub record Place : Type 0 where
  pub ups : ℕ
  pub names : List Text

-- One step up from these names.
abbrev pub up : ℕ → List Text → Place
up ups [] = record { ups = suc ups; names = [] }
up ups (name ∷ names) = record { ups = ups; names = names }

abbrev pub walk : Component → Place → Place
walk Component.root_dir place = place
walk Component.cur_dir place = place
walk Component.parent_dir place = up place.ups place.names
walk (Component.normal name) place = record { ups = place.ups; names = name ∷ place.names }

abbrev pub resolve : Place → List Component → Place
resolve place [] = place
resolve place (component ∷ path) = resolve (walk component place) path

abbrev pub here : Place
here = record { ups = 0; names = [] }

abbrev pub is_relative : Component → Bool
is_relative Component.root_dir = false
is_relative component = true

abbrev pub parents : ℕ → List Component
parents zero = []
parents (suc n) = Component.parent_dir ∷ parents n

-- The components of a place, the last one first.
abbrev pub spelled_onto : List Text → List Component → List Component
spelled_onto [] out = out
spelled_onto (name ∷ names) out = Component.normal name ∷ spelled_onto names out

abbrev pub spelled : Place → List Component
spelled place = spelled_onto place.names (parents place.ups)

-- A path, in order, that leads to a place.
abbrev pub canonical_of : Place → List Component
canonical_of place = or_cur_dir (components_onto (spelled place) [])

up_le : (ups : ℕ) (names : List Text) → ups ≤ (up ups names).ups
up_le ups [] = omega arith
up_le ups (name ∷ names) = omega arith

walk_le : (c : Component) (place : Place) → place.ups ≤ (walk c place).ups
walk_le Component.root_dir place = omega arith
walk_le Component.cur_dir place = omega arith
walk_le Component.parent_dir place = up_le place.ups place.names
walk_le (Component.normal name) place = omega arith

resolve_le : (place : Place) (path : List Component) → place.ups ≤ (resolve place path).ups
resolve_le place [] = omega arith
resolve_le place (c ∷ path) = omega (arith, walk_le c place, resolve_le (walk c place) path)

step-parent :
    (ups : ℕ) (names : List Text)
    → (up ups names).ups ≤ 1
    → canonical_step Component.parent_dir (spelled_onto names (parents ups))
      ≡ spelled (up ups names)
step-parent zero [] h = refl
step-parent (suc ups) [] h = absurd (omega (arith, h))
step-parent ups (name ∷ names) h = refl

step-walk :
    (c : Component) (place : Place)
    → is_relative c ≡ true
    → (walk c place).ups ≤ 1
    → canonical_step c (spelled place) ≡ spelled (walk c place)
step-walk Component.root_dir place r h = cc
step-walk Component.cur_dir place r h = refl
step-walk Component.parent_dir place r h = step-parent place.ups place.names h
step-walk (Component.normal name) place r h = refl

canonical_from-resolve :
    (place : Place) (path : List Component)
    → all is_relative path ≡ true
    → (resolve place path).ups ≤ 1
    → canonical_from (spelled place) path ≡ spelled (resolve place path)
unfolding canonical_from
canonical_from-resolve place [] r h = refl
canonical_from-resolve place (c ∷ path) r h =
    ap (λ out. canonical_from out path)
      (step-walk c place (ground arith) (omega (arith, h, resolve_le (walk c place) path)))
    ∙ canonical_from-resolve (walk c place) path (ground arith) h

-- A relative path that leads at most one directory up from where it starts is turned into the
-- shortest path to the same place: that step up, if any, and then the names of the directories that
-- are left, with no `.` and no `..` among them, or `.` if nothing is left.
pub canonical-resolve :
    (path : List Component)
    → all is_relative path ≡ true
    → (resolve here path).ups ≤ 1
    → lexically_canonical path ≡ canonical_of (resolve here path)
unfolding lexically_canonical
canonical-resolve path r h =
    ap (λ out. or_cur_dir (components_onto out [])) (canonical_from-resolve here path r h)

-- `..` pops a `..` that stands there.
pub canonical-two_parents :
    (path : List Component)
    → lexically_canonical (Component.parent_dir ∷ Component.parent_dir ∷ path)
      ≡ lexically_canonical path
unfolding lexically_canonical canonical_from
canonical-two_parents path = refl
