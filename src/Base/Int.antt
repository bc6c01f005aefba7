-- ===== src/Base/Int.antt =====
-- Signed 64-bit integers: `parse::<i64>`, `Display`, comparison and saturating addition.
use Prim.Native.Nat.{ℕ, zero, suc, ◌+◌, ◌-◌, ◌≤◌, ◌<◌}
use mathlib.Core.Path.{◌≡◌, refl, ap, sym, ◌∙◌}
use mathlib.Core.Bool.{Bool, true, false}
use mathlib.Core.List.{[], ◌∷◌, append-nil}
use mathlib.Core.Option.{Option, none, some}
use native.Mathlib.Omega.{arith}
use pbox.Base.Tests.{leb, ltb, ◌==◌, if◌then◌else◌}
use pbox.Base.Strings.{Text, is_digit}
use pbox.Base.Decimal.{parse_digits, show}
use pbox.Base.Digits.{show_lem, show_digits-head, parse_digits-show_digits, parse_digits-nil}

-- `negsuc n` is -(n + 1).
pub data ℤ : Type 0 where
  pos : ℕ → ℤ
  negsuc : ℕ → ℤ

abbrev pub i64_max : ℕ
i64_max = 9223372036854775807

abbrev pub leℤ : ℤ → ℤ → Bool
leℤ (pos a) (pos b) = leb a b
leℤ (pos a) (negsuc b) = false
leℤ (negsuc a) (pos b) = true
leℤ (negsuc a) (negsuc b) = leb b a

-- `saturating_add` of a number that is not negative.
abbrev pub saturating_add : ℤ → ℕ → ℤ
saturating_add (pos a) n = if leb (a + n) i64_max then pos (a + n) else pos i64_max
saturating_add (negsuc a) n = if ltb a n then pos (n - a - 1) else negsuc (a - n)

abbrev pub negate : ℕ → ℤ
negate zero = pos 0
negate (suc n) = negsuc n

abbrev pub map_ℤ : (ℕ → ℤ) → Option ℕ → Option ℤ
map_ℤ f none = none
map_ℤ f (some n) = some (f n)

unfoldable pub parse_i64 : Text → Option ℤ
parse_i64 [] = none
parse_i64 (c ∷ []) = map_ℤ pos (parse_digits i64_max 0 (c ∷ []))
parse_i64 (c ∷ d ∷ cs) =
    if c == b'+'
    then map_ℤ pos (parse_digits i64_max 0 (d ∷ cs))
    else if c == b'-'
    then map_ℤ negate (parse_digits (i64_max + 1) 0 (d ∷ cs))
    else map_ℤ pos (parse_digits i64_max 0 (c ∷ d ∷ cs))

unfoldable pub show_i64 : ℤ → Text
show_i64 (pos n) = show n
show_i64 (negsuc n) = b'-' ∷ show (suc n)

unsigned_digits :
    (c : ℕ) (cs : Text)
    → is_digit c ≡ true
    → parse_i64 (c ∷ cs) ≡ map_ℤ pos (parse_digits i64_max 0 (c ∷ cs))
unfolding parse_i64
unsigned_digits c [] d = refl
unsigned_digits c (e ∷ cs) d = ground arith

-- A positive number is read back as it was printed.
pub parse_i64-show : (n : ℕ) → 0 < n → n ≤ i64_max → parse_i64 (show_i64 (pos n)) ≡ some (pos n)
unfolding show_i64
parse_i64-show n p b =
    let (c, cs, e, d, _) = show_digits-head 19 n (omega arith) p in
    ap parse_i64 (show_lem n ∙ e)
    ∙ unsigned_digits c cs d
    ∙ ap (λ t. map_ℤ pos (parse_digits i64_max 0 t)) (sym e ∙ sym (append-nil _))
    ∙ ap (map_ℤ pos)
        (parse_digits-show_digits 19 i64_max n [] (omega arith) b ∙ parse_digits-nil i64_max n)
