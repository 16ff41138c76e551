-- ===== src/Prelude.antt =====
-- The names that the modules of the development share: those of the libraries, passed on, and the
-- tests, rows and maps of the child modules.
mod Tests
mod Rows
mod Keys
mod Maps
mod Updates
mod TwoTables
mod Numbering
mod Mapped
pub mod Result
pub use Tests.*
unfoldable pub use Rows.*
unfoldable pub use Keys.*
unfoldable pub use Maps.*
pub use Updates.*
pub use TwoTables.*
pub use Numbering.*
pub use Mapped.*
pub use Prim.Native.Nat.{ℕ, zero, suc, ◌+◌, ◌-◌, ◌*◌, ◌/◌, ◌%◌, ◌^◌, ◌≤◌, ◌<◌}
pub use Prim.Native.String.{String}
pub use mathlib.Core.Path.{◌≡◌, refl, sym, ap, ◌∙◌}
pub use mathlib.Core.Logic.{◌≢◌, ◌↔◌, ◌⊎◌, inl, inr}
pub use mathlib.Core.Bool.{Bool, true, false, ◌&&◌, ◌||◌, not}
pub use mathlib.Core.Option.{Option, none, some}
pub use mathlib.Core.List.{List, [], ◌∷◌, ◌++◌, map}
pub use native.Mathlib.Omega.{arith}
pub use text.Mathlib.TextEquality.{eq_iff}
