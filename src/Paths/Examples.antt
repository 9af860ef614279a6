-- ===== src/Paths/Examples.antt =====
-- Concrete paths of src/paths.rs, and the theorems applied to them.
use workspace_atlas.Common.{◌≡◌, ◌↔◌, refl, [], ◌∷◌, ◌++◌, ok, err, codes, text_eq, arith}
use workspace_atlas.Errors.{AtlasError}
use workspace_atlas.Paths.{Component, lexically_canonical, display, component_eq, confine_to_root}
use workspace_atlas.Paths.Resolved.{here, resolve, canonical_of, canonical-resolve}
use workspace_atlas.Paths.Confined.{confine_to_root_iff, confine-two_parents}

abbrev a : Component
a = Component.normal (codes "a")

abbrev b : Component
b = Component.normal (codes "b")

abbrev c : Component
c = Component.normal (codes "c")

-- `./a/./b/../c` and `/a/b/../c`.
dot_segments :
    lexically_canonical (Component.cur_dir ∷ a ∷ b ∷ Component.parent_dir ∷ c ∷ []) ≡ a ∷ c ∷ []
unfolding lexically_canonical
dot_segments = refl

absolute :
    lexically_canonical (Component.root_dir ∷ a ∷ b ∷ Component.parent_dir ∷ c ∷ [])
    ≡ Component.root_dir ∷ a ∷ c ∷ []
unfolding lexically_canonical
absolute = refl

descendant :
    confine_to_root (Component.root_dir ∷ a ∷ []) (Component.root_dir ∷ a ∷ b ∷ c ∷ [])
    ≡ ok (b ∷ c ∷ [])
unfolding confine_to_root codes component_eq text_eq
descendant = refl

traversal :
    confine_to_root
      (Component.root_dir ∷ a ∷ [])
      (Component.root_dir ∷ a ∷ Component.parent_dir ∷ b ∷ [])
    ≡ err (AtlasError.path_escape (codes "/b"))
unfolding confine_to_root codes component_eq text_eq display
traversal = refl

-- `a/../../b` leads one directory up.
canonical-resolve_example :
    lexically_canonical (a ∷ Component.parent_dir ∷ Component.parent_dir ∷ b ∷ [])
    ≡ canonical_of (resolve here (a ∷ Component.parent_dir ∷ Component.parent_dir ∷ b ∷ []))
canonical-resolve_example =
    canonical-resolve (a ∷ Component.parent_dir ∷ Component.parent_dir ∷ b ∷ []) refl (omega arith)

confine_to_root_iff_example :
    (confine_to_root (Component.root_dir ∷ a ∷ []) (Component.root_dir ∷ a ∷ b ∷ []) ≡ ok (b ∷ []))
    ↔ (lexically_canonical (Component.root_dir ∷ a ∷ b ∷ [])
        ≡ lexically_canonical (Component.root_dir ∷ a ∷ []) ++ b ∷ [])
confine_to_root_iff_example =
    confine_to_root_iff (Component.root_dir ∷ a ∷ []) (Component.root_dir ∷ a ∷ b ∷ []) (b ∷ [])

-- `../../a/b` is taken to lie within `a`.
confine-two_parents_example :
    confine_to_root (a ∷ []) (Component.parent_dir ∷ Component.parent_dir ∷ a ∷ b ∷ [])
    ≡ confine_to_root (a ∷ []) (a ∷ b ∷ [])
confine-two_parents_example = confine-two_parents (a ∷ []) (a ∷ b ∷ [])
