-- ===== src/Base.antt =====
-- Names and helpers that every other module shares: the libraries' names passed on, Boolean tests
-- on the native numbers, Rust's `Result` with the chaining of `?`, lists measured by native numbers.
mod Tests
mod Lists
mod Outcome
pub mod Int
pub mod Text
pub use Tests.*
unfoldable pub use Tests.{every_below}
pub use Lists.*
unfoldable pub use Lists.{same}
pub use Outcome.*
pub use Prim.Native.Nat.{ℕ, zero, suc, ◌+◌, ◌-◌, ◌*◌, ◌/◌, ◌%◌, ◌^◌, ◌≤◌, ◌<◌}
pub use Prim.Native.String.{String}
pub use mathlib.Core.Path.{◌≡◌, refl, sym, ap, ◌∙◌}
pub use mathlib.Core.Logic.{◌≢◌, ◌↔◌, ◌⊎◌, inl, inr}
pub use mathlib.Core.Bool.{Bool, true, false, ◌&&◌, ◌||◌, not}
pub use mathlib.Core.Option.{Option, none, some}
pub use mathlib.Core.List.{List, [], ◌∷◌, ◌++◌, map}
pub use native.Mathlib.Omega.{arith}
