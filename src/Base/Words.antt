-- ===== src/Base/Words.antt =====
-- The checked arithmetic of `u64`, and the conversion to `u32`.
use Prim.Native.Nat.{ℕ, ◌+◌, ◌*◌, ◌^◌, ◌≤◌}
use mathlib.Core.Path.{◌≡◌}
use mathlib.Core.Option.{Option, none, some}
use native.Mathlib.Omega.{arith}
use pbox.Base.Tests.{leb, if◌then◌else◌}
use pbox.Base.Decimal.{u64_max}

abbrev pub u32_max : ℕ
u32_max = 4294967295

-- The value of an operation, unless the type cannot hold it.
unfoldable pub checked : ℕ → ℕ → Option ℕ
checked max v = if leb v max then some v else none

pub checked_sound : (max v : ℕ) {w : ℕ} → checked max v ≡ some w → (v ≡ w) × (w ≤ max)
unfolding checked
checked_sound max v h = ground arith

pub checked_fits : (max v : ℕ) → v ≤ max → checked max v ≡ some v
unfolding checked
checked_fits max v h = ground arith

abbrev pub checked_pow : ℕ → ℕ → Option ℕ
checked_pow b e = checked u64_max (b ^ e)

abbrev pub checked_mul : ℕ → ℕ → Option ℕ
checked_mul a b = checked u64_max (a * b)

abbrev pub checked_add : ℕ → ℕ → Option ℕ
checked_add a b = checked u64_max (a + b)

abbrev pub try_u32 : ℕ → Option ℕ
try_u32 n = checked u32_max n
