-- ===== src/Common.antt =====
-- Shared names of the development: the libraries', passed on, and those of the children, which
-- hold Boolean tests, lists, byte strings, results and ordered sets.
mod Tests
mod Lists
mod Texts
mod Results
mod Sets
mod Subsets
mod Slices
mod Bits
pub use Tests.*
unfoldable pub use Lists.*
unfoldable pub use Texts.*
pub use Results.*
unfoldable pub use Sets.*
pub use Subsets.*
unfoldable pub use Slices.*
pub use Bits.*
pub use Prim.Native.Nat.{ℕ, zero, suc, ◌+◌, ◌-◌, ◌*◌, ◌/◌, ◌%◌, ◌^◌, ◌≤◌, ◌<◌, min, max}
pub use mathlib.Core.Path.{◌≡◌, refl, sym, ap, ◌∙◌}
pub use mathlib.Core.Logic.{◌≢◌, ◌↔◌, ◌⊎◌, inl, inr, ite, if_pos, if_neg}
pub use mathlib.Core.Bool.{Bool, true, false, not, ◌&&◌, ◌||◌}
pub use mathlib.Core.Option.{Option, none, some}
pub use mathlib.Core.List.{List, [], ◌∷◌, ◌++◌, map}
pub use native.Mathlib.Omega.{arith}
unfoldable pub use native.Mathlib.Decide.{ℕ_discrete}
