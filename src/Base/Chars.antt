-- ===== src/Base/Chars.antt =====
-- Tests and changes of characters: `is_control`, `is_ascii_control` and `to_ascii_lowercase`.
use Prim.Native.Nat.{ℕ, ◌+◌}
use mathlib.Core.Bool.{Bool, ◌&&◌, ◌||◌}
use mathlib.Core.List.{map}
use pbox.Base.Tests.{leb, ltb, ◌==◌, if◌then◌else◌}
use pbox.Base.Strings.{Text, is_uppercase}

unfoldable pub is_ascii_control : ℕ → Bool
is_ascii_control ch = ltb ch 32 || ch == 127

unfoldable pub is_control : ℕ → Bool
is_control ch = ltb ch 32 || (leb 127 ch && ltb ch 160)

abbrev pub to_ascii_lower : ℕ → ℕ
to_ascii_lower ch = if is_uppercase ch then ch + 32 else ch

abbrev pub to_ascii_lowercase : Text → Text
to_ascii_lowercase = map to_ascii_lower
