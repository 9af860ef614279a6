-- ===== src/Paths.antt =====
-- `lexically_canonical` and `confine_to_root` of src/paths.rs, on a Unix host. A path is the list of
-- what `Path::components` yields for it; a `PathBuf` under construction is the list of its
-- components with the last one first.
pub mod Resolved
pub mod Relative
pub mod Confined
mod Examples
use workspace_atlas.Errors.{AtlasError}
use workspace_atlas.Common.{
  ℕ, Bool, true, false, not, Text, text_eq, List, [], ◌∷◌, ◌++◌, Option, none, some, Result, ok,
  err, ◌>>◌, refuse_if, is_empty, if◌then◌else◌,
}

pub data Component : Type 0 where
  root_dir cur_dir parent_dir : Component
  normal : Text → Component

-- `PathBuf::push` of one component: an absolute one replaces the path.
abbrev pub push : Component → List Component → List Component
push Component.root_dir out = Component.root_dir ∷ []
push component out = component ∷ out

-- `PathBuf::pop`: nothing, where it returns false.
abbrev pub pop : List Component → Option (List Component)
pop [] = none
pop (Component.root_dir ∷ out) = none
pop (component ∷ out) = some out

-- The body of the loop of `lexically_canonical`.
abbrev pub push_parent : Option (List Component) → List Component → List Component
push_parent none out = push Component.parent_dir out
push_parent (some popped) out = popped

abbrev pub canonical_step : Component → List Component → List Component
canonical_step Component.cur_dir out = out
canonical_step Component.parent_dir out = push_parent (pop out) out
canonical_step component out = push component out

unfoldable pub canonical_from : List Component → List Component → List Component
canonical_from out [] = out
canonical_from out (component ∷ path) = canonical_from (canonical_step component out) path

-- The components of a `PathBuf`, in order.
unfoldable pub components_onto : List Component → List Component → List Component
components_onto [] after = after
components_onto (component ∷ out) after = components_onto out (component ∷ after)

abbrev pub or_cur_dir : List Component → List Component
or_cur_dir [] = Component.cur_dir ∷ []
or_cur_dir (component ∷ path) = component ∷ path

unfoldable pub lexically_canonical : List Component → List Component
unfolding canonical_from components_onto
lexically_canonical path = or_cur_dir (components_onto (canonical_from [] path) [])

-- `path.display()`: the components with slashes between them.
abbrev pub component_text : Component → Text
component_text Component.root_dir = []
component_text Component.cur_dir = b'.' ∷ []
component_text Component.parent_dir = b'.' ∷ b'.' ∷ []
component_text (Component.normal name) = name

unfoldable pub slashed : List Component → Text
slashed [] = []
slashed (component ∷ path) = b'/' ∷ component_text component ++ slashed path

unfoldable pub display : List Component → Text
unfolding slashed
display [] = []
display (Component.root_dir ∷ []) = b'/' ∷ []
display (component ∷ path) = component_text component ++ slashed path

abbrev pub has_root : List Component → Bool
has_root (Component.root_dir ∷ path) = true
has_root path = false

-- `==` on components.
unfoldable pub component_eq : Component → Component → Bool
component_eq Component.root_dir Component.root_dir = true
component_eq Component.cur_dir Component.cur_dir = true
component_eq Component.parent_dir Component.parent_dir = true
component_eq (Component.normal a) (Component.normal b) = text_eq a b
component_eq a b = false

-- `==` on Booleans.
abbrev pub same_root : Bool → Bool → Bool
same_root true b = b
same_root false b = not b

-- The pushes of what is left of the candidate.
unfoldable pub push_each : List Component → List Component → List Component
push_each rel [] = rel
push_each rel (component ∷ path) = push_each (push component rel) path

-- The loop of `confine_to_root`; nothing, where it reports an escape.
unfoldable pub strip_root : List Component → List Component → Option (List Component)
unfolding push_each components_onto
strip_root [] candidate = some (components_onto (push_each [] candidate) [])
strip_root (r ∷ root) [] = none
strip_root (r ∷ root) (c ∷ candidate) =
    let rest = strip_root root candidate in if component_eq r c then rest else none

abbrev pub or_escape : List Component → Option (List Component) → Result AtlasError (List Component)
or_escape candidate none = err (AtlasError.path_escape (display candidate))
or_escape candidate (some rel) = ok rel

unfoldable pub confine_to_root :
    List Component → List Component → Result AtlasError (List Component)
unfolding lexically_canonical strip_root
confine_to_root canonical_root candidate =
    let root = lexically_canonical canonical_root in
    let path = lexically_canonical candidate in
    refuse_if (not (same_root (has_root path) (has_root root)))
      (AtlasError.path_escape (display path))
    >> or_escape path (strip_root root path)
