-- ===== src/Prelude.antt =====
-- Names shared by the models of every part: those of the libraries, passed on, and of the children.
mod Tests
mod Lists
mod Words
mod Results
mod Tables
mod Repeats
pub mod Bits
pub use Tests.*
unfoldable pub use Lists.*
pub use Words.*
pub use Results.*
pub use Tables.*
pub use Repeats.*
pub use Prim.Native.Nat.{ℕ, zero, suc, ◌+◌, ◌-◌, ◌*◌, ◌/◌, ◌%◌, ◌^◌, ◌≤◌, ◌<◌}
pub use mathlib.Core.Path.{◌≡◌, refl, sym, ap, subst, ◌∙◌}
pub use mathlib.Core.Logic.{◌≢◌, ◌↔◌, ◌⊎◌, inl, inr}
pub use mathlib.Core.Bool.{Bool, true, false, not, ◌&&◌, ◌||◌}
pub use mathlib.Core.Option.{Option, none, some}
pub use mathlib.Core.List.{List, [], ◌∷◌, ◌++◌, map}
pub use native.Mathlib.Omega.{arith}
