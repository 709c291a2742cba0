-- ===== src/Base.antt =====
-- The names that the other modules share: the libraries', passed on, and those of the children
-- below. This models no code of its own but the standard library's containers and words.
mod Tests
mod Lists
mod Search
pub mod Words
pub mod Bits
pub mod Mask
pub mod Window
pub mod Count
pub mod Ranges
unfoldable pub use Tests.*
unfoldable pub use Lists.*
unfoldable pub use Search.*
pub use Prim.Native.Nat.{ℕ, zero, suc, ◌+◌, ◌-◌, ◌*◌, ◌/◌, ◌%◌, ◌^◌, ◌≤◌, ◌<◌, min, max}
pub use mathlib.Core.Path.{◌≡◌, refl, sym, ap, ap₂, subst, subst₂, fun_ext, ◌∙◌}
pub use mathlib.Core.Logic.{◌≢◌, ◌↔◌, ◌⊎◌, inl, inr}
pub use mathlib.Core.Bool.{Bool, true, false, ◌&&◌, ◌||◌, not}
pub use mathlib.Core.Option.{Option, none, some}
pub use mathlib.Core.List.{List, [], ◌∷◌, ◌++◌, map}
pub use native.Mathlib.Omega.{arith}
