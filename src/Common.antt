-- ===== src/Common.antt =====
-- What the modules of the development share: the libraries' names, Boolean tests on the native
-- numbers, lists by native positions, results of code that raises, and byte strings.
mod Tests
mod Lists
pub mod Slices
pub mod Words
pub mod Result
pub mod Text
pub mod Regions
pub mod Chars
pub mod Signed
pub mod Crc32
unfoldable pub use Tests.*
unfoldable pub use Lists.*
pub use Prim.Native.Nat.{ℕ, zero, suc, ◌+◌, ◌-◌, ◌*◌, ◌/◌, ◌%◌, ◌^◌, ◌≤◌, ◌<◌, min, max}
pub use mathlib.Core.Path.{◌≡◌, refl, sym, ap, ◌∙◌}
pub use mathlib.Core.Logic.{◌≢◌, ◌↔◌, ◌⊎◌, inl, inr}
pub use mathlib.Core.Bool.{Bool, true, false, not, ◌&&◌, ◌||◌}
pub use mathlib.Core.Option.{Option, none, some}
pub use mathlib.Core.List.{List, [], ◌∷◌, ◌++◌, map}
pub use native.Mathlib.Omega.{arith}
