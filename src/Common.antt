-- ===== src/Common.antt =====
-- Names, tests and arithmetic that the models of the C files share: machine words of 32 and 64
-- bits, the kernel's signed results, and per-cpu data.
mod Tests
pub mod Int
mod Words
mod Lists
mod Results
mod Shares
mod Control
mod Tallies
pub mod Bits
pub mod Store
pub use Tests.*
pub use Words.*
pub use Lists.*
pub use Results.*
pub use Shares.*
pub use Control.*
unfoldable pub use Tallies.*
pub use Prim.Native.Nat.{ℕ, zero, suc, ◌+◌, ◌-◌, ◌*◌, ◌/◌, ◌%◌, ◌^◌, ◌≤◌, ◌<◌}
pub use mathlib.Core.Path.{◌≡◌, refl, sym, ap, ◌∙◌}
pub use mathlib.Core.Logic.{◌≢◌, ◌↔◌, ◌⊎◌, inl, inr}
pub use mathlib.Core.Bool.{Bool, true, false, not, ◌&&◌, ◌||◌}
pub use mathlib.Core.Option.{Option, none, some}
pub use mathlib.Core.List.{List, [], ◌∷◌, ◌++◌, map}
pub use native.Mathlib.Omega.{arith}
