-- ===== src/Base/Trim.antt =====
-- `str::trim` twice is `str::trim`.
use Prim.Native.Nat.{ℕ}
use mathlib.Core.Path.{◌≡◌, refl, ap, ◌∙◌}
use mathlib.Core.Logic.{inl, inr}
use mathlib.Core.Bool.{false}
use mathlib.Core.List.{[], ◌∷◌}
use pbox.Base.Tests.{Bool-cases}
use pbox.Base.Strings.{Text}
use pbox.Base.Search.{is_whitespace, keep_unless_last, trim_start, trim_end, trim}

keep-trim_end :
    (c : ℕ) (r : Text) → trim_end r ≡ r → trim_end (keep_unless_last c r) ≡ keep_unless_last c r
unfolding trim_end
keep-trim_end c [] h = elim (Bool-cases (is_whitespace c)) [
  | inl e ↦ rw e refl
  | inr e ↦ rw (e, e) refl
]
keep-trim_end c (d ∷ u) h = ap (keep_unless_last c) h

trim_end-twice : (t : Text) → trim_end (trim_end t) ≡ trim_end t
unfolding trim_end
trim_end-twice [] = refl
trim_end-twice (c ∷ t) = keep-trim_end c (trim_end t) (trim_end-twice t)

kept : (c : ℕ) (r : Text) → is_whitespace c ≡ false → keep_unless_last c r ≡ c ∷ r
kept c [] h = rw h refl
kept c (d ∷ u) h = refl

trim_start-trim_end : (t : Text) → trim_start (trim_end (trim_start t)) ≡ trim_end (trim_start t)
unfolding trim_start trim_end
trim_start-trim_end [] = refl
trim_start-trim_end (c ∷ t) = elim (Bool-cases (is_whitespace c)) [
  | inl e ↦ rw e (trim_start-trim_end t)
  | inr e ↦ rw (e, kept c (trim_end t) e, e) refl
]

pub trim-twice : (t : Text) → trim (trim t) ≡ trim t
unfolding trim
trim-twice t = ap trim_end (trim_start-trim_end t) ∙ trim_end-twice (trim_start t)
