-- ===== src/Base.antt =====
-- What the modules share: the names of the libraries, Boolean tests, lists, and texts as
-- sequences of code units.
mod Tests
mod Lists
mod Texts
mod Keyed
mod Results
mod Numbers
mod Visits
pub use Tests.*
pub use Lists.*
unfoldable pub use Texts.*
unfoldable pub use Keyed.*
pub use Results.*
unfoldable pub use Numbers.*
pub use Visits.*
pub use Prim.Native.Nat.{ℕ, zero, suc, ◌+◌, ◌-◌, ◌*◌, ◌/◌, ◌%◌, ◌≤◌, ◌<◌}
pub use mathlib.Core.Path.{◌≡◌, refl, sym, ap, ap₂, ◌∙◌, subst}
pub use mathlib.Core.Logic.{◌≢◌, ◌↔◌, ◌⊎◌, inl, inr}
pub use mathlib.Core.Bool.{Bool, true, false, not, ◌&&◌, ◌||◌}
pub use mathlib.Core.Option.{Option, none, some}
pub use mathlib.Core.List.{List, [], ◌∷◌, ◌++◌, map, append_assoc, append-nil}
pub use native.Mathlib.Omega.{arith}
unfoldable pub use native.Mathlib.Decide.{dec_lt, ℕ_discrete}
