-- ===== src/Paths/Relative.antt =====
-- In a canonical path (src/paths.rs) only the first component may be the root.
use workspace_atlas.Common.{◌≡◌, refl, Bool, true, ◌&&◌, List, [], ◌∷◌, arith, all}
use workspace_atlas.Paths.{
  Component, push, pop, push_parent, canonical_step, canonical_from, components_onto, or_cur_dir,
  lexically_canonical, push_each,
}
use workspace_atlas.Paths.Resolved.{is_relative}

-- Only the first component of a path may be the root.
abbrev pub tail_relative : List Component → Bool
tail_relative [] = true
tail_relative (c ∷ path) = all is_relative path

-- The same for components that stand with the last one first.
abbrev settled : List Component → Bool
settled [] = true
settled (c ∷ []) = true
settled (c ∷ d ∷ out) = is_relative c && settled (d ∷ out)

settled-tail :
    (c : Component) (out : List Component) → settled (c ∷ out) ≡ true → settled out ≡ true
settled-tail c [] h = refl
settled-tail c (d ∷ out) h = ground arith

settled-push :
    (c : Component) (out : List Component) → settled out ≡ true → settled (push c out) ≡ true
settled-push Component.root_dir out h = refl
settled-push Component.cur_dir [] h = refl
settled-push Component.cur_dir (d ∷ out) h = h
settled-push Component.parent_dir [] h = refl
settled-push Component.parent_dir (d ∷ out) h = h
settled-push (Component.normal a) [] h = refl
settled-push (Component.normal a) (d ∷ out) h = h

settled-parent :
    (out : List Component) → settled out ≡ true → settled (push_parent (pop out) out) ≡ true
settled-parent [] h = refl
settled-parent (Component.root_dir ∷ out) h =
    settled-push Component.parent_dir (Component.root_dir ∷ out) h
settled-parent (Component.cur_dir ∷ out) h = settled-tail Component.cur_dir out h
settled-parent (Component.parent_dir ∷ out) h = settled-tail Component.parent_dir out h
settled-parent (Component.normal a ∷ out) h = settled-tail (Component.normal a) out h

settled-step :
    (c : Component) (out : List Component)
    → settled out ≡ true
    → settled (canonical_step c out) ≡ true
settled-step Component.root_dir out h = refl
settled-step Component.cur_dir out h = h
settled-step Component.parent_dir out h = settled-parent out h
settled-step (Component.normal a) out h = settled-push (Component.normal a) out h

settled-canonical_from :
    (out path : List Component) → settled out ≡ true → settled (canonical_from out path) ≡ true
unfolding canonical_from
settled-canonical_from out [] h = h
settled-canonical_from out (c ∷ path) h =
    settled-canonical_from (canonical_step c out) path (settled-step c out h)

tail_relative-components_onto :
    (out after : List Component)
    → settled out ≡ true
    → all is_relative after ≡ true
    → tail_relative (components_onto out after) ≡ true
unfolding components_onto
tail_relative-components_onto [] [] h r = refl
tail_relative-components_onto [] (c ∷ after) h r = ground arith
tail_relative-components_onto (c ∷ []) after h r = r
tail_relative-components_onto (c ∷ d ∷ out) after h r =
    tail_relative-components_onto (d ∷ out) (c ∷ after) (ground arith) (ground arith)

tail_relative-or_cur_dir :
    (path : List Component) → tail_relative path ≡ true → tail_relative (or_cur_dir path) ≡ true
tail_relative-or_cur_dir [] h = refl
tail_relative-or_cur_dir (c ∷ path) h = h

pub canonical-tail_relative :
    (path : List Component) → tail_relative (lexically_canonical path) ≡ true
unfolding lexically_canonical
canonical-tail_relative path =
    tail_relative-or_cur_dir (components_onto (canonical_from [] path) []) (
      tail_relative-components_onto (canonical_from [] path) []
        (settled-canonical_from [] path refl) refl)

pub components_onto-push_each :
    (out path : List Component)
    → all is_relative path ≡ true
    → components_onto (push_each out path) [] ≡ components_onto out path
unfolding components_onto push_each
components_onto-push_each out [] h = refl
components_onto-push_each out (Component.root_dir ∷ path) h = cc
components_onto-push_each out (Component.cur_dir ∷ path) h =
    components_onto-push_each (Component.cur_dir ∷ out) path h
components_onto-push_each out (Component.parent_dir ∷ path) h =
    components_onto-push_each (Component.parent_dir ∷ out) path h
components_onto-push_each out (Component.normal a ∷ path) h =
    components_onto-push_each (Component.normal a ∷ out) path h
