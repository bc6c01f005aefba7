-- ===== src/Base/Split.antt =====
-- Cutting text at a character: `str::split_once` and `str::split`.
use Prim.Native.Nat.{ℕ}
use mathlib.Core.Path.{◌≡◌, refl, ap, ap₂, sym, subst, ◌∙◌}
use mathlib.Core.Logic.{◌≢◌, inl, inr}
use mathlib.Core.Bool.{true, false}
use mathlib.Core.List.{List, [], ◌∷◌, ◌++◌}
use mathlib.Core.Option.{Option, none, some}
use native.Mathlib.Omega.{arith}
use pbox.Base.Tests.{◌==◌, if◌then◌else◌, Option-cases, Bool-cases}
use pbox.Base.Lists.{All}
use pbox.Base.Strings.{Text, is_digit}

unfoldable pub split_once : ℕ → Text → Option (Text × Text)
split_once s [] = none
split_once s (c ∷ t) =
    if c == s
    then some ([], t)
    else elim (split_once s t) [ none ↦ none | some (a, b) ↦ some (c ∷ a, b) ]

abbrev pub onto_first : ℕ → List Text → List Text
onto_first c [] = (c ∷ []) ∷ []
onto_first c (a ∷ parts) = (c ∷ a) ∷ parts

unfoldable pub split : ℕ → Text → List Text
split s [] = [] ∷ []
split s (c ∷ t) = if c == s then [] ∷ split s t else onto_first c (split s t)

abbrev pub Without : ℕ → Text → Type 0
Without s = All (λ c. c ≢ s)

pub split_once-append : (s : ℕ) (a b : Text) → Without s a → split_once s (a ++ s ∷ b) ≡ some (a, b)
unfolding split_once
split_once-append s [] b w = ground arith
split_once-append s (c ∷ a) b (ne, w) = ground (arith, split_once-append s a b w)

pub split_once_sound :
    (s : ℕ) (t a b : Text) → split_once s t ≡ some (a, b) → (t ≡ a ++ s ∷ b) × Without s a
unfolding split_once
split_once_sound s [] a b h = absurd (ground arith)
split_once_sound s (c ∷ t) a b h = elim (Bool-cases (c == s)) [
  | inl here ↦
      let ea : ◌≡◌ {A = Text} [] a = ground arith in
      let eb : t ≡ b = ground arith in
      let ec : c ≡ s = ground arith in
      (ap₂ (◌∷◌) ec eb ∙ ap (λ x. x ++ s ∷ b) ea, subst (Without s) ea tt)
  | inr later ↦ elim (Option-cases (split_once s t)) [
    | inl e ↦ absurd (ground arith)
    | inr ((a', b'), e) ↦
        let (same, w) = split_once_sound s t a' b' e in
        let ea : c ∷ a' ≡ a = ground arith in
        let eb : b' ≡ b = ground arith in
        (
          ap (◌∷◌ c) same ∙ ap₂ (λ x y. x ++ s ∷ y) ea eb,
          subst (Without s) ea ((λ k. ground arith), w),
        )
  ]
]

pub split_once-none : (s : ℕ) (t : Text) → split_once s t ≡ none → Without s t
unfolding split_once
split_once-none s [] h = tt
split_once-none s (c ∷ t) h = elim (Bool-cases (c == s)) [
  | inl here ↦ absurd (ground arith)
  | inr later ↦ ((λ k. ground arith), split_once-none s t (ground arith))
]

pub split-append : (s : ℕ) (a b : Text) → Without s a → split s (a ++ s ∷ b) ≡ a ∷ split s b
unfolding split
split-append s [] b w = ground arith
split-append s (c ∷ a) b (ne, w) = ground (arith, split-append s a b w)

pub split_whole : (s : ℕ) (t : Text) → Without s t → split s t ≡ t ∷ []
unfolding split
split_whole s [] w = refl
split_whole s (c ∷ t) (ne, w) = ground (arith, split_whole s t w)

pub split_once_absent : (s : ℕ) (t : Text) → Without s t → split_once s t ≡ none
unfolding split_once
split_once_absent s [] w = refl
split_once_absent s (c ∷ t) (ne, w) = ground (arith, split_once_absent s t w)

pub digits-Without :
    (s : ℕ) (t : Text) → is_digit s ≡ false → All (λ d. is_digit d ≡ true) t → Without s t
digits-Without s [] n a = tt
digits-Without s (d ∷ t) n (h, a) = (
  (λ e. let h' : is_digit s ≡ true = ap is_digit (sym e) ∙ h in absurd (ground arith)),
  digits-Without s t n a,
)
