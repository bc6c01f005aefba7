-- ===== src/Base/Utf8.antt =====
-- The bytes of a text of characters.
use Prim.Native.Nat.{ℕ, ◌+◌, ◌/◌, ◌%◌, ◌<◌}
use mathlib.Core.Path.{◌≡◌}
use mathlib.Core.Logic.{◌≢◌, inl, inr}
use mathlib.Core.List.{[], ◌∷◌, ◌++◌}
use native.Mathlib.Omega.{arith}
use pbox.Base.Tests.{ltb, if◌then◌else◌, Bool-cases}
use pbox.Base.Lists.{All, All-append}
use pbox.Base.Strings.{Text}

unfoldable pub utf8 : ℕ → Text
utf8 c =
    if ltb c 128
    then c ∷ []
    else if ltb c 2048
    then (192 + c / 64) ∷ (128 + c % 64) ∷ []
    else if ltb c 65536
    then (224 + c / 4096) ∷ (128 + c / 64 % 64) ∷ (128 + c % 64) ∷ []
    else (240 + c / 262144) ∷ (128 + c / 4096 % 64) ∷ (128 + c / 64 % 64) ∷ (128 + c % 64) ∷ []

abbrev pub utf8_all : Text → Text
utf8_all [] = []
utf8_all (c ∷ t) = utf8 c ++ utf8_all t

-- A byte below 128 comes from the character with that code only.
pub utf8-All : (b c : ℕ) → b < 128 → c ≢ b → All (λ d. d ≢ b) (utf8 c)
unfolding utf8
utf8-All b c h n = elim (Bool-cases (ltb c 128)) [
  | inl e ↦ rw e (n, tt)
  | inr e ↦ elim (Bool-cases (ltb c 2048)) [
    | inl f ↦ rw (e, f) ((λ p. absurd (omega arith)), ((λ p. absurd (omega arith)), tt))
    | inr f ↦ elim (Bool-cases (ltb c 65536)) [
      | inl g ↦
          rw (e, f, g)
            (
              (λ p. absurd (omega arith)),
              ((λ p. absurd (omega arith)), ((λ p. absurd (omega arith)), tt)),
            )
      | inr g ↦
          rw (e, f, g)
            (
              (λ p. absurd (omega arith)),
              (
                (λ p. absurd (omega arith)),
                ((λ p. absurd (omega arith)), ((λ p. absurd (omega arith)), tt)),
              ),
            )
    ]
  ]
]

pub utf8_all-All : (b : ℕ) (t : Text) → b < 128 → All (λ c. c ≢ b) t → All (λ d. d ≢ b) (utf8_all t)
utf8_all-All b [] h a = tt
utf8_all-All b (c ∷ t) h (n, a) =
    All-append (λ d. d ≢ b) (utf8 c) (utf8_all t) (utf8-All b c h n) (utf8_all-All b t h a)

pub utf8_ascii : (c : ℕ) → c < 128 → utf8 c ≡ c ∷ []
unfolding utf8
utf8_ascii c h = ground arith
