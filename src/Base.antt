-- ===== src/Base.antt =====
-- The names that every module shares: the library's, passed on, and the tests, lists, maps and
-- outcomes that the models are written with.
mod Tests
mod Lists
mod Outcomes
mod Strings
pub mod Dict
pub mod Int
pub use Tests.*
pub use Lists.*
pub use Outcomes.*
pub use Strings.{Bytes, zeros}
unfoldable pub use Strings.{bytes_discrete}
pub use Prim.Native.Nat.{ℕ, zero, suc, ◌+◌, ◌-◌, ◌*◌, ◌/◌, ◌%◌, ◌^◌, ◌≤◌, ◌<◌}
pub use mathlib.Core.Path.{◌≡◌, refl, sym, ap, ap₂, subst, ◌∙◌}
pub use mathlib.Core.Logic.{◌≢◌, ◌↔◌, ◌⊎◌, inl, inr, ite, if_pos, if_neg}
pub use mathlib.Core.Bool.{Bool, true, false, not, ◌&&◌, ◌||◌}
pub use mathlib.Core.Option.{Option, none, some}
pub use mathlib.Core.List.{List, [], ◌∷◌, ◌++◌, map}
pub use native.Mathlib.Omega.{arith}
unfoldable pub use native.Mathlib.Decide.{dec_lt, dec_le, ℕ_discrete}
