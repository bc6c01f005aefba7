-- ===== src/Base.antt =====
-- The names that the other modules share: the libraries' and those of the children below.
mod Tests
mod Lists
mod Results
pub mod Strings
pub mod Decimal
pub mod Digits
pub mod Search
pub mod Split
pub mod Int
pub mod Words
pub mod Utf8
pub mod Order
pub mod Chars
pub mod Last
pub mod Trim
pub use Tests.*
unfoldable pub use Lists.*
pub use Trim.*
unfoldable pub use Last.*
unfoldable pub use Chars.*
unfoldable pub use Order.*
unfoldable pub use Utf8.*
unfoldable pub use Words.*
unfoldable pub use Int.*
unfoldable pub use Split.*
unfoldable pub use Search.*
pub use Digits.*
pub use Results.*
unfoldable pub use Strings.*
unfoldable pub use Decimal.*
pub use Prim.Native.Nat.{bit_and, bit_or, ℕ, zero, suc, ◌+◌, ◌-◌, ◌*◌, ◌/◌, ◌%◌, ◌^◌, ◌≤◌, ◌<◌}
pub use mathlib.Core.Path.{ap₂, ◌≡◌, refl, sym, ap, ◌∙◌, subst}
pub use mathlib.Core.Logic.{◌≢◌, ◌↔◌, ◌⊎◌, inl, inr}
pub use mathlib.Core.Bool.{Bool, true, false, not, ◌&&◌, ◌||◌}
pub use mathlib.Core.Option.{Option, none, some}
pub use mathlib.Core.List.{List, [], ◌∷◌, ◌++◌, map, append_assoc, append-nil}
pub use native.Mathlib.Omega.{arith}
