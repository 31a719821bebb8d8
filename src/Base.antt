-- ===== src/Base.antt =====
-- The names that the other modules share: the libraries', passed on, Boolean tests, lists over the
-- native numbers, results with errors and Rust's checked machine arithmetic.
mod Tests
mod Lists
mod Outcome
mod Checked
mod Platform
mod Wide
mod Arith
mod Fixed
mod Vectors
pub mod Dict
pub use Tests.*
pub use Arith.*
pub use Platform.*
unfoldable pub use Wide.*
unfoldable pub use Fixed.*
pub use Vectors.*
pub use Lists.*
pub use Outcome.*
unfoldable pub use Checked.*
pub use Prim.Native.Nat.{ℕ, zero, suc, ◌+◌, ◌-◌, ◌*◌, ◌/◌, ◌%◌, ◌^◌, ◌≤◌, ◌<◌, min}
pub use mathlib.Core.Path.{◌≡◌, refl, sym, ap, ◌∙◌, ◌≡⟨◌⟩◌, ◌∎}
pub use mathlib.Core.Logic.{◌≢◌, ◌↔◌, ◌⊎◌, inl, inr}
pub use mathlib.Core.Bool.{Bool, true, false, ◌&&◌, ◌||◌, not}
pub use mathlib.Core.Option.{Option, none, some}
pub use mathlib.Core.List.{List, [], ◌∷◌, ◌++◌, map}
pub use native.Mathlib.Omega.{arith}
