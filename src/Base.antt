-- ===== src/Base.antt =====
-- The names that the modules share: the libraries', passed on, and those of the children.
mod Tests
mod Lists
mod Text
mod Sort
mod Reorder
mod Assoc
mod Int
mod Any
mod Outcome
pub mod Optional
pub use Tests.*
pub use Lists.*
unfoldable pub use Text.*
unfoldable pub use Sort.*
unfoldable pub use Assoc.*
pub use Reorder.*
pub use Int.*
pub use Any.*
pub use Outcome.*
pub use Prim.Native.Nat.{ℕ, zero, suc, ◌+◌, ◌-◌, ◌≤◌, ◌<◌}
pub use Prim.Native.String.{String, ◌++◌ as ◌<>◌}
pub use mathlib.Core.Path.{◌≡◌, refl, sym, ap, ◌∙◌}
pub use mathlib.Core.Logic.{◌≢◌, ◌↔◌, ◌⊎◌, inl, inr}
pub use mathlib.Core.Bool.{Bool, true, false, not, ◌&&◌, ◌||◌}
pub use mathlib.Core.Option.{Option, none, some}
pub use mathlib.Core.List.{List, [], ◌∷◌, ◌++◌, map}
pub use native.Mathlib.Omega.{arith}
pub use text.Mathlib.TextEquality.{eq_iff}
