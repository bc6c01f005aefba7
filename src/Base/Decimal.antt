-- ===== src/Base/Decimal.antt =====
-- Decimal numbers: `str::parse` and `Display` of the unsigned integer types.
use Prim.Native.Nat.{ℕ, zero, suc, ◌+◌, ◌-◌, ◌*◌, ◌/◌, ◌%◌}
use mathlib.Core.Bool.{◌&&◌}
use mathlib.Core.List.{[], ◌∷◌, ◌++◌}
use mathlib.Core.Option.{Option, none, some}
use pbox.Base.Tests.{leb, ltb, ◌==◌, if◌then◌else◌}
use pbox.Base.Strings.{Text, is_digit}

abbrev pub u64_max : ℕ
u64_max = 18446744073709551615

-- The digit loop of `from_str_radix`: a byte that is no digit and a value above the type's maximum
-- are both errors.
unfoldable pub parse_digits : ℕ → ℕ → Text → Option ℕ
parse_digits max acc [] = some acc
parse_digits max acc (c ∷ cs) =
    let rest = parse_digits max (acc * 10 + (c - b'0')) cs in
    if is_digit c && leb (acc * 10 + (c - b'0')) max then rest else none

-- `value.parse::<u64>()` and the like, by the type's maximum: one leading plus is allowed.
unfoldable pub parse_unsigned : ℕ → Text → Option ℕ
unfolding parse_digits
parse_unsigned max [] = none
parse_unsigned max (c ∷ []) = parse_digits max 0 (c ∷ [])
parse_unsigned max (c ∷ d ∷ cs) =
    if c == b'+' then parse_digits max 0 (d ∷ cs) else parse_digits max 0 (c ∷ d ∷ cs)

-- `Display`, by the number of digits at most. A `u64` has twenty.
unfoldable pub show_digits : ℕ → ℕ → Text
show_digits zero n = []
show_digits (suc f) n =
    let rest = show_digits f (n / 10) ++ (b'0' + n % 10) ∷ [] in
    if ltb n 10 then (b'0' + n) ∷ [] else rest

unfoldable pub show : ℕ → Text
unfolding show_digits
show n = show_digits 20 n
