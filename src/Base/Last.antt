-- ===== src/Base/Last.antt =====
-- The last occurrence of a character: `str::rfind` and `str::rsplit_once`, and the join of parts.
use Prim.Native.Nat.{ℕ, ◌+◌}
use mathlib.Core.Path.{◌≡◌, ap, sym, ◌∙◌}
use mathlib.Core.List.{List, [], ◌∷◌, ◌++◌}
use mathlib.Core.Option.{Option, none, some}
use mathlib.Core.Logic.{inl, inr}
use native.Mathlib.Omega.{arith}
use pbox.Base.Tests.{◌==◌, if◌then◌else◌, Option-cases, Bool-cases}
use pbox.Base.Strings.{Text}

abbrev pub or_here : ℕ → ℕ → Option ℕ → Option ℕ
or_here s c none = if c == s then some 0 else none
or_here s c (some n) = some (n + 1)

unfoldable pub rfind : ℕ → Text → Option ℕ
rfind s [] = none
rfind s (c ∷ t) = or_here s c (rfind s t)

abbrev pub or_cut : ℕ → ℕ → Text → Option (Text × Text) → Option (Text × Text)
or_cut s c t none = if c == s then some ([], t) else none
or_cut s c t (some (a, b)) = some (c ∷ a, b)

unfoldable pub rsplit_once : ℕ → Text → Option (Text × Text)
rsplit_once s [] = none
rsplit_once s (c ∷ t) = or_cut s c t (rsplit_once s t)

abbrev pub join : Text → List Text → Text
join separator [] = []
join separator (part ∷ []) = part
join separator (part ∷ next ∷ parts) = part ++ (separator ++ join separator (next ∷ parts))

here : (s c : ℕ) (t a b : Text) → or_cut s c t none ≡ some (a, b) → c ∷ t ≡ a ++ s ∷ b
here s c t a b h = elim (Bool-cases (c == s)) [
  | inr e ↦ absurd (ground arith)
  | inl e ↦
      let ea : ◌≡◌ {A = Text} [] a = ground arith in
      let eb : t ≡ b = ground arith in
      let ec : c ≡ s = ground arith in
      ap (λ r. r ∷ t) ec ∙ ap (λ r. s ∷ r) eb ∙ ap (λ r. r ++ s ∷ b) ea
]

pub rsplit_once_sound : (s : ℕ) (t a b : Text) → rsplit_once s t ≡ some (a, b) → t ≡ a ++ s ∷ b
unfolding rsplit_once
rsplit_once_sound s [] a b h = absurd (ground arith)
rsplit_once_sound s (c ∷ t) a b h = elim (Option-cases (rsplit_once s t)) [
  | inl e ↦ here s c t a b (ap (or_cut s c t) (sym e) ∙ h)
  | inr ((x, y), e) ↦
      let cut : ◌≡◌ {A = Option (Text × Text)} (some (c ∷ x, y)) (some (a, b)) =
        ap (or_cut s c t) (sym e) ∙ h in
      let ea : c ∷ x ≡ a = ground arith in
      let eb : y ≡ b = ground arith in
      ap (λ r. c ∷ r) (rsplit_once_sound s t x y e)
      ∙ ap (λ r. r ++ s ∷ y) ea
      ∙ ap (λ r. a ++ s ∷ r) eb
]
