-- ===== src/Base.antt =====
-- Names that every module shares: those of the libraries, passed on, and the children's.
-- `Base/Tests` has Boolean tests, `Base/Lists` byte strings and slices, `Base/Int` Go's signed
-- `int`, `Base/State` the monad of methods that change an object, `Base/Outcomes` the outcome of a Go call, `Base/Maps` the `sync.Map`s.
mod Tests
mod Lists
mod Int
mod Outcomes
mod Maps
pub mod State
pub use Tests.*
pub use Lists.*
pub use Int.*
pub use Outcomes.*
unfoldable pub use Maps.*
pub use Prim.Native.Nat.{ℕ, zero, suc, ◌+◌, ◌-◌, ◌*◌, ◌/◌, ◌%◌, ◌^◌, ◌≤◌, ◌<◌}
pub use mathlib.Core.Path.{◌≡◌, refl, sym, ap, ap₂, subst, ◌∙◌}
pub use mathlib.Core.Logic.{◌≢◌, ◌↔◌, ◌⊎◌, inl, inr}
pub use mathlib.Core.Bool.{Bool, true, false, not, ◌&&◌, ◌||◌}
pub use mathlib.Core.Option.{Option, none, some}
pub use mathlib.Core.List.{List, [], ◌∷◌, ◌++◌, map, append-nil, append_assoc}
pub use native.Mathlib.Omega.{arith}
