-- ===== src/Prelude.antt =====
-- What the modules share: library names passed on, Boolean tests, signed integers, lists over the
-- native numbers, and the JavaScript objects that the game states use as dictionaries.
mod Tests
mod Int
mod Lists
mod Objects
mod Keys
mod Results
mod Numbers
mod Signed
mod Texts
pub use Tests.*
pub use Int.*
pub use Lists.*
unfoldable pub use Objects.*
unfoldable pub use Keys.*
unfoldable pub use Results.*
unfoldable pub use Numbers.*
unfoldable pub use Signed.*
unfoldable pub use Texts.*
pub use Prim.Native.Nat.{ℕ, zero, suc, ◌+◌, ◌-◌, ◌*◌, ◌/◌, ◌%◌, ◌≤◌, ◌<◌, min}
pub use Prim.Native.String.{String}
pub use mathlib.Core.Path.{◌≡◌, refl, sym, ap, ◌∙◌}
pub use mathlib.Core.Logic.{◌≢◌, ◌↔◌, ◌⊎◌, inl, inr}
pub use mathlib.Core.Bool.{Bool, true, false, not, ◌&&◌, ◌||◌}
pub use mathlib.Core.Option.{Option, none, some}
pub use mathlib.Core.List.{List, [], ◌∷◌, ◌++◌, map}
pub use native.Mathlib.Omega.{arith}
pub use text.Mathlib.TextEquality.{eq_iff}
pub use text.Mathlib.TextPositions.{eq_refl}
