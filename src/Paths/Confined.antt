-- ===== src/Paths/Confined.antt =====
-- What `confine_to_root` (src/paths.rs) accepts.
use mathlib.Core.Path.{subst}
use workspace_atlas.Common.{
  ◌≡◌, refl, sym, ap, ◌↔◌, ◌≢◌, ◌>>◌, refuse_if, Bool, true, false, not, text_eq_sound,
  text_eq_refl, List, [], ◌∷◌, ◌++◌, some, Result, ok, arith, all,
}
use workspace_atlas.Errors.{AtlasError}
use workspace_atlas.Paths.{
  Component, canonical_from, components_onto, or_cur_dir, lexically_canonical, display, has_root,
  component_eq, same_root, strip_root, or_escape, confine_to_root,
}
use workspace_atlas.Paths.Resolved.{is_relative, canonical-two_parents}
use workspace_atlas.Paths.Relative.{
  tail_relative, canonical-tail_relative, components_onto-push_each,
}

component_eq_sound : (a b : Component) → component_eq a b ≡ true → a ≡ b
unfolding component_eq
component_eq_sound (Component.normal a) (Component.normal b) h =
    ap Component.normal (text_eq_sound a b h)
component_eq_sound a b h = ground arith

component_eq_refl : (a : Component) → component_eq a a ≡ true
unfolding component_eq
component_eq_refl (Component.normal a) = text_eq_refl a
component_eq_refl a = ground arith

strip_root-cons :
    (a b : Component) (root path rel : List Component)
    → strip_root (a ∷ root) (b ∷ path) ≡ some rel
    → (b ≡ a) × (strip_root root path ≡ some rel)
unfolding strip_root
strip_root-cons a b root path rel h = ground (arith, component_eq_sound a b)

strip_root_sound :
    (root path rel : List Component)
    → all is_relative path ≡ true
    → strip_root root path ≡ some rel
    → path ≡ root ++ rel
unfolding strip_root
strip_root_sound [] path rel r h = ground (arith, components_onto-push_each [] path r)
strip_root_sound (a ∷ root) [] rel r h = cc
strip_root_sound (a ∷ root) (b ∷ path) rel r h =
    let (same, rest) = strip_root-cons a b root path rel h in
    let tail = strip_root_sound root path rel (ground arith) rest in cc (same, tail)

strip_root-append :
    (root rel : List Component)
    → all is_relative (root ++ rel) ≡ true
    → strip_root root (root ++ rel) ≡ some rel
unfolding strip_root
strip_root-append [] rel r = ap some (components_onto-push_each [] rel r)
strip_root-append (a ∷ root) rel r = ground (arith, component_eq_refl a, strip_root-append root rel)

-- The two steps of `confine_to_root` on canonical paths, of which the first is not empty.
abbrev confined : List Component → List Component → Result AtlasError (List Component)
confined root path =
    refuse_if (not (same_root (has_root path) (has_root root)))
      (AtlasError.path_escape (display path))
    >> or_escape path (strip_root root path)

confined-strip_root :
    (root path rel : List Component) → confined root path ≡ ok rel → strip_root root path ≡ some rel
confined-strip_root root path rel h = ground arith

confined_sound :
    (root path rel : List Component)
    → root ≢ []
    → tail_relative path ≡ true
    → confined root path ≡ ok rel
    → path ≡ root ++ rel
unfolding strip_root
confined_sound [] path rel n t h = absurd (n refl)
confined_sound (a ∷ root) [] rel n t h = ground arith
confined_sound (a ∷ root) (b ∷ path) rel n t h =
    let stripped = confined-strip_root (a ∷ root) (b ∷ path) rel h in
    let (same, rest) = strip_root-cons a b root path rel stripped in
    cc (same, strip_root_sound root path rel t rest)

same_root_refl : (b : Bool) → same_root b b ≡ true
same_root_refl true = refl
same_root_refl false = refl

confined-append :
    (root rel : List Component)
    → root ≢ []
    → tail_relative (root ++ rel) ≡ true
    → confined root (root ++ rel) ≡ ok rel
unfolding strip_root
confined-append [] rel n t = absurd (n refl)
confined-append (a ∷ root) rel n t =
    ground (
      arith,
      component_eq_refl a,
      strip_root-append root rel t,
      same_root_refl (has_root (a ∷ root)),
    )

or_cur_dir_some : (l : List Component) → or_cur_dir l ≢ []
or_cur_dir_some [] q = cc
or_cur_dir_some (c ∷ l) q = cc

canonical_some : (path : List Component) → lexically_canonical path ≢ []
unfolding lexically_canonical
canonical_some path = or_cur_dir_some (components_onto (canonical_from [] path) [])

-- A candidate is accepted exactly if its canonical path is that of the root followed by the path
-- that is returned; everything else is refused.
pub confine_to_root_iff :
    (root candidate rel : List Component)
    → (confine_to_root root candidate ≡ ok rel)
      ↔ (lexically_canonical candidate ≡ lexically_canonical root ++ rel)
unfolding confine_to_root
confine_to_root_iff root candidate rel = (
  confined_sound (lexically_canonical root) (lexically_canonical candidate) rel
      (canonical_some root) (canonical-tail_relative candidate),
  λ e.
      subst (λ path. confined (lexically_canonical root) path ≡ ok rel) (sym e)
        (confined-append (lexically_canonical root) rel (canonical_some root)
          (subst (λ path. tail_relative path ≡ true) e (canonical-tail_relative candidate))),
)

-- Two leading steps up of a candidate are ignored: it is accepted exactly if the rest of it is,
-- although it leads two directories further up.
pub confine-two_parents :
    (root candidate : List Component)
    → confine_to_root root (Component.parent_dir ∷ Component.parent_dir ∷ candidate)
      ≡ confine_to_root root candidate
unfolding confine_to_root
confine-two_parents root candidate = rw (canonical-two_parents candidate)
