-- ===== src/Base/Search.antt =====
-- `str::find`, `strip_suffix` and `trim`, with what holds of their results.
use Prim.Native.Nat.{ℕ, zero, suc, ◌+◌, ◌≤◌, ◌<◌}
use mathlib.Core.Path.{◌≡◌, refl, ap, sym, ◌∙◌}
use mathlib.Core.Logic.{◌≢◌, inl, inr}
use mathlib.Core.Bool.{Bool, true, false, ◌&&◌, ◌||◌}
use mathlib.Core.List.{[], ◌∷◌, ◌++◌, append_assoc}
use mathlib.Core.Option.{Option, none, some}
use native.Mathlib.Omega.{arith}
use pbox.Base.Tests.{leb, ◌==◌, if◌then◌else◌, Bool-cases}
use pbox.Base.Lists.{length, length-append, drop, All}
use pbox.Base.Strings.{
  Text, strip_prefix, starts_with, starts_with-append, text_eq, text_eq_refl, text_eq_sound,
}

-- The position of the first occurrence.
unfoldable pub find : Text → Text → Option ℕ
find needle [] = if starts_with needle [] then some 0 else none
find needle (c ∷ t) =
    if starts_with needle (c ∷ t)
    then some 0
    else elim (find needle t) [ none ↦ none | some n ↦ some (suc n) ]

unfoldable pub strip_suffix : Text → Text → Option Text
strip_suffix s [] = if text_eq s [] then some [] else none
strip_suffix s (c ∷ t) =
    if text_eq s (c ∷ t)
    then some []
    else elim (strip_suffix s t) [ none ↦ none | some r ↦ some (c ∷ r) ]

-- `ends_with` of one character.
unfoldable pub ends_with : ℕ → Text → Bool
ends_with s [] = false
ends_with s (c ∷ []) = c == s
ends_with s (c ∷ d ∷ t) = ends_with s (d ∷ t)

-- The characters with the Unicode property `White_Space`.
unfoldable pub is_whitespace : ℕ → Bool
is_whitespace c =
    leb 9 c && leb c 13
    || c == 0x20
    || c == 0x85
    || c == 0xa0
    || c == 0x1680
    || leb 0x2000 c && leb c 0x200a
    || c == 0x2028
    || c == 0x2029
    || c == 0x202f
    || c == 0x205f
    || c == 0x3000

unfoldable pub trim_start : Text → Text
trim_start [] = []
trim_start (c ∷ t) = if is_whitespace c then trim_start t else c ∷ t

-- A character is dropped if it is white space and nothing of what follows it is kept.
abbrev pub keep_unless_last : ℕ → Text → Text
keep_unless_last c [] = if is_whitespace c then [] else c ∷ []
keep_unless_last c (d ∷ t) = c ∷ d ∷ t

unfoldable pub trim_end : Text → Text
trim_end [] = []
trim_end (c ∷ t) = keep_unless_last c (trim_end t)

unfoldable pub trim : Text → Text
unfolding trim_start trim_end
trim t = trim_end (trim_start t)

-- A prefix test looks no further than the prefix is long.
starts_with_window :
    (p w z z' : Text) → length p ≤ length w → starts_with p (w ++ z) ≡ starts_with p (w ++ z')
unfolding starts_with strip_prefix
starts_with_window [] w z z' h = refl
starts_with_window (p ∷ ps) [] z z' h = absurd (omega arith)
starts_with_window (p ∷ ps) (c ∷ w) z z' h = ground (arith, starts_with_window ps w z z')

find_here : (p t : Text) → starts_with p t ≡ true → find p t ≡ some 0
unfolding find
find_here p [] h = ground arith
find_here p (c ∷ t) h = ground arith

window_same :
    (p x z z' : Text) (c : ℕ)
    → starts_with p (c ∷ (x ++ (p ++ z))) ≡ starts_with p (c ∷ (x ++ (p ++ z')))
window_same p x z z' c =
    ap (λ s. starts_with p (c ∷ s)) (sym (append_assoc x p z))
    ∙ starts_with_window p (c ∷ (x ++ p)) z z' (omega (arith, length-append x p))
    ∙ ap (λ s. starts_with p (c ∷ s)) (append_assoc x p z')

-- What follows the first occurrence has no part in where that is.
pub find_independent :
    (p x z z' : Text)
    → find p (x ++ (p ++ z)) ≡ some (length x)
    → find p (x ++ (p ++ z')) ≡ some (length x)
unfolding find
find_independent p [] z z' h = find_here p (p ++ z') (starts_with-append p z')
find_independent p (c ∷ x) z z' h =
    ground (arith, window_same p x z z' c, find_independent p x z z')

-- A separator that the needle does not hold splits the search.
starts_with_separated :
    (p t y : Text) (s : ℕ)
    → All (λ c. c ≢ s) p
    → starts_with p (t ++ s ∷ y) ≡ true
    → starts_with p t ≡ true
unfolding starts_with strip_prefix
starts_with_separated [] t y s n h = refl
starts_with_separated (p ∷ ps) [] y s n h = ground arith
starts_with_separated (p ∷ ps) (c ∷ t) y s n h = ground (arith, starts_with_separated ps t y s n.1)

pub find_separated :
    (p t y : Text) (s n : ℕ)
    → All (λ c. c ≢ s) p
    → find p t ≡ none
    → find p y ≡ some n
    → find p (t ++ s ∷ y) ≡ some (length t + suc n)
unfolding find
find_separated p [] y s n a h k = ground (arith, starts_with_separated p [] y s a)
find_separated p (c ∷ t) y s n a h k =
    ground (arith, starts_with_separated p (c ∷ t) y s a, find_separated p t y s n a)

-- An occurrence that was found is one, and lies within the text.
pub find_sound :
    (p t : Text) (n : ℕ) → find p t ≡ some n → (starts_with p (drop n t) ≡ true) × (n ≤ length t)
unfolding find
find_sound p [] n h = ground arith
find_sound p (c ∷ t) zero h = ground (arith, find_sound p t 0)
find_sound p (c ∷ t) (suc n) h = ground (arith, find_sound p t n)

-- Nothing is found earlier.
pub find_first :
    (p t : Text) (n m : ℕ) → find p t ≡ some n → m < n → starts_with p (drop m t) ≡ false
unfolding find
find_first p [] n m h k = ground arith
find_first p (c ∷ t) zero m h k = absurd (omega arith)
find_first p (c ∷ t) (suc n) zero h k = ground arith
find_first p (c ∷ t) (suc n) (suc m) h k = find_first p t n m (ground arith) (omega arith)

pub find-none : (p t : Text) (m : ℕ) → find p t ≡ none → starts_with p (drop m t) ≡ false
unfolding find
find-none p [] zero h = ground arith
find-none p [] (suc m) h = ground arith
find-none p (c ∷ t) zero h = ground arith
find-none p (c ∷ t) (suc m) h = find-none p t m (ground arith)

longer : (s t : Text) (c : ℕ) → text_eq s (c ∷ (t ++ s)) ≡ false
longer s t c = elim (Bool-cases (text_eq s (c ∷ (t ++ s)))) [
  | inr e ↦ e
  | inl e ↦ absurd (omega (arith, ap length (text_eq_sound s _ e), length-append t s))
]

pub strip_suffix-append : (s t : Text) → strip_suffix s (t ++ s) ≡ some t
unfolding strip_suffix
strip_suffix-append [] [] = ground (arith, text_eq_refl [])
strip_suffix-append (x ∷ s) [] = ground (arith, text_eq_refl (x ∷ s))
strip_suffix-append s (c ∷ t) = ground (arith, longer s t c, strip_suffix-append s t)

abbrev pub Solid : Text → Type 0
Solid = All (λ c. is_whitespace c ≡ false)

keep_solid : (c : ℕ) (t : Text) → is_whitespace c ≡ false → keep_unless_last c t ≡ c ∷ t
keep_solid c [] h = ground arith
keep_solid c (d ∷ t) h = refl

space : is_whitespace b' ' ≡ true
unfolding is_whitespace
space = refl

trim_end-Solid : (t : Text) → Solid t → trim_end (t ++ b' ' ∷ []) ≡ t
unfolding trim_end
trim_end-Solid [] a = ground (arith, space)
trim_end-Solid (c ∷ t) (h, a) = ap (keep_unless_last c) (trim_end-Solid t a) ∙ keep_solid c t h

trim_start_solid : (c : ℕ) (t : Text) → is_whitespace c ≡ false → trim_start (b' ' ∷ c ∷ t) ≡ c ∷ t
unfolding trim_start
trim_start_solid c t h = ground (arith, space)

trim_spaces : trim (b' ' ∷ b' ' ∷ []) ≡ []
unfolding trim is_whitespace
trim_spaces = refl

trim_lem : (t : Text) → trim t ≡ trim_end (trim_start t)
unfolding trim
trim_lem t = refl

-- Text without white space is what `trim` leaves of it between two spaces.
pub trim-Solid : (t : Text) → Solid t → trim (b' ' ∷ (t ++ b' ' ∷ [])) ≡ t
trim-Solid [] a = trim_spaces
trim-Solid (c ∷ t) (h, a) =
    trim_lem _ ∙ ap trim_end (trim_start_solid c (t ++ b' ' ∷ []) h) ∙ trim_end-Solid (c ∷ t) (h, a)
