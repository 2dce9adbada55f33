-- ===== src/Prelude.antt =====
-- The names that the other modules share: those of the libraries, passed on, and Boolean tests,
-- lists, text, maps and integers in the forms that the Go sources use them.
pub mod Tests
pub mod Lists
pub mod Text
pub mod Counts
pub mod Maps
pub mod Int
pub mod Results
pub mod Decimal
pub mod Bytes
pub use Tests.*
pub use Lists.*
pub use Text.*
pub use Counts.*
pub use Maps.*
pub use Int.*
unfoldable pub use Results.*
unfoldable pub use Decimal.*
unfoldable pub use Bytes.*
pub use Prim.Native.Nat.{ℕ, zero, suc, ◌+◌, ◌-◌, ◌*◌, ◌/◌, ◌%◌, ◌^◌, ◌≤◌, ◌<◌}
pub use mathlib.Core.Path.{◌≡◌, refl, sym, ap, ◌∙◌}
pub use mathlib.Core.Logic.{◌≢◌, ◌↔◌, ◌⊎◌, inl, inr}
pub use mathlib.Core.Bool.{Bool, true, false, not, ◌&&◌, ◌||◌}
pub use mathlib.Core.Option.{Option, none, some}
pub use mathlib.Core.List.{List, [], ◌∷◌, ◌++◌, map, append-nil, append_assoc}
pub use native.Mathlib.Omega.{arith}
