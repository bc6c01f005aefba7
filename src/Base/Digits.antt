-- ===== src/Base/Digits.antt =====
-- Printing a number and reading it back, in both directions.
use Prim.Native.Nat.{ℕ, zero, suc, ◌+◌, ◌-◌, ◌*◌, ◌/◌, ◌%◌, ◌^◌, ◌≤◌, ◌<◌}
use mathlib.Core.Path.{◌≡◌, refl, ap, sym, ◌∙◌, ap₂, subst}
use mathlib.Core.Logic.{◌≢◌}
use mathlib.Core.Bool.{true}
use mathlib.Core.List.{[], ◌∷◌, ◌++◌, append_assoc, append-nil}
use mathlib.Core.Option.{some}
use native.Mathlib.Omega.{arith}
use native.Mathlib.Nat.{pow-suc}
use native.Mathlib.Decide.{dec_lt}
use pbox.Base.Lists.{All, All-append}
use pbox.Base.Strings.{Text, is_digit}
use pbox.Base.Decimal.{parse_digits, parse_unsigned, show_digits, show}

-- The two branches of one round of printing.
pub show_digits_small : (f n : ℕ) → n < 10 → show_digits (suc f) n ≡ (b'0' + n) ∷ []
unfolding show_digits
show_digits_small f n h = ground arith

show_digits_large :
    (f n : ℕ) → 10 ≤ n → show_digits (suc f) n ≡ show_digits f (n / 10) ++ (b'0' + n % 10) ∷ []
unfolding show_digits
show_digits_large f n h = ground arith

pub pow-pos : (f : ℕ) → 0 < 10 ^ f
pow-pos zero = omega arith
pow-pos (suc f) = omega (arith, pow-suc 10 f, pow-pos f)

-- `n < 10 ^ (f + 1)` one digit further.
div_below : (f n : ℕ) → n < 10 ^ suc f → n / 10 < 10 ^ f
div_below f n h = omega (arith, pow-suc 10 f)

-- More digits than the number needs change nothing.
show_digits_more : (f n : ℕ) → n < 10 ^ suc f → show_digits (suc (suc f)) n ≡ show_digits (suc f) n
show_digits_more zero n h =
    show_digits_small 1 n (omega (arith, pow-suc 10 0))
    ∙ sym (show_digits_small 0 n (omega (arith, pow-suc 10 0)))
show_digits_more (suc f) n h = elim (dec_lt n 10) [
  | yes small ↦ show_digits_small (suc (suc f)) n small ∙ sym (show_digits_small (suc f) n small)
  | no large ↦
      show_digits_large (suc (suc f)) n (omega arith)
      ∙ ap (λ s. s ++ (b'0' + n % 10) ∷ []) (show_digits_more f (n / 10) (div_below (suc f) n h))
      ∙ sym (show_digits_large (suc f) n (omega arith))
]

-- What was read so far only grows, and stays within the maximum.
pub parse_digits-le : (max acc : ℕ) (cs : Text) (v : ℕ) → parse_digits max acc cs ≡ some v → acc ≤ v
unfolding parse_digits
parse_digits-le max acc [] v h = ground arith
parse_digits-le max acc (c ∷ cs) v h =
    ground (arith, parse_digits-le max (acc * 10 + (c - b'0')) cs v)

pub parse_digits-le_max :
    (max acc : ℕ) (cs : Text) (v : ℕ) → acc ≤ max → parse_digits max acc cs ≡ some v → v ≤ max
unfolding parse_digits
parse_digits-le_max max acc [] v k h = ground arith
parse_digits-le_max max acc (c ∷ cs) v k h =
    ground (arith, parse_digits-le_max max (acc * 10 + (c - b'0')) cs v)

-- One digit of a successful reading.
pub parse_digits-cons :
    (max acc c : ℕ) (cs : Text) {v : ℕ}
    → parse_digits max acc (c ∷ cs) ≡ some v
    → (is_digit c ≡ true) × (parse_digits max (acc * 10 + (c - b'0')) cs ≡ some v)
unfolding parse_digits
parse_digits-cons max acc c cs h = ground arith

show_digits_next :
    (f acc c : ℕ)
    → 0 < acc
    → is_digit c ≡ true
    → show_digits (suc f) (acc * 10 + (c - b'0')) ≡ show_digits f acc ++ c ∷ []
show_digits_next f acc c pos d =
    let v = acc * 10 + (c - b'0') in
    let e : v / 10 ≡ acc = ground arith in
    let e' : b'0' + v % 10 ≡ c = ground arith in
    show_digits_large f v (ground arith) ∙ ap₂ (λ a b. show_digits f a ++ b ∷ []) e e'

-- Printing what was read gives the digits back, if the first of them was no zero.
pub show_digits-parse_digits :
    (f max acc : ℕ) (cs : Text) {v : ℕ}
    → 0 < acc
    → v < 10 ^ suc f
    → parse_digits max acc cs ≡ some v
    → show_digits (suc f) v ≡ show_digits (suc f) acc ++ cs
unfolding parse_digits
show_digits-parse_digits f max acc [] {v} pos b h =
    let e : v ≡ acc = ground arith in ap (show_digits (suc f)) e ∙ sym (append-nil _)
show_digits-parse_digits zero max acc (c ∷ cs) {v} pos b h =
    let (d, h') = parse_digits-cons max acc c cs h in
    let le = parse_digits-le max (acc * 10 + (c - b'0')) cs v h' in
    absurd (omega (arith, pow-suc 10 0))
show_digits-parse_digits (suc f) max acc (c ∷ cs) {v} pos b h =
    let (d, h') = parse_digits-cons max acc c cs h in
    let le = parse_digits-le max (acc * 10 + (c - b'0')) cs v h' in
    show_digits-parse_digits (suc f) max (acc * 10 + (c - b'0')) cs (omega arith) b h'
    ∙ ap (λ s. s ++ cs)
        (show_digits_next (suc f) acc c pos d
          ∙ ap (λ s. s ++ c ∷ [])
              (sym (show_digits_more f acc (omega (arith, pow-suc 10 (suc f))))))
    ∙ append_assoc (show_digits (suc (suc f)) acc) (c ∷ []) cs

parse_digits_step :
    (max acc d : ℕ) (cs : Text)
    → d < 10
    → acc * 10 + d ≤ max
    → (v : ℕ) → acc * 10 + d ≡ v
    → parse_digits max acc ((b'0' + d) ∷ cs) ≡ parse_digits max v cs
unfolding parse_digits
parse_digits_step max acc d cs h k v e' =
    let e : acc * 10 + (b'0' + d - b'0') ≡ v = omega arith in rw e (ground arith)

-- Reading what was printed goes on with the number.
pub parse_digits-show_digits :
    (f max n : ℕ) (cs : Text)
    → n < 10 ^ suc f
    → n ≤ max
    → parse_digits max 0 (show_digits (suc f) n ++ cs) ≡ parse_digits max n cs
parse_digits-show_digits zero max n cs b k =
    rw (show_digits_small 0 n (omega (arith, pow-suc 10 0)))
      (parse_digits_step max 0 n cs (omega (arith, pow-suc 10 0)) (omega arith) n (omega arith))
parse_digits-show_digits (suc f) max n cs b k = elim (dec_lt n 10) [
  | yes small ↦
      rw (show_digits_small (suc f) n small)
        (parse_digits_step max 0 n cs small (omega arith) n (omega arith))
  | no large ↦
      ap (λ s. parse_digits max 0 (s ++ cs)) (show_digits_large (suc f) n (omega arith))
      ∙ ap (parse_digits max 0) (append_assoc (show_digits (suc f) (n / 10)) _ cs)
      ∙ parse_digits-show_digits f max (n / 10) ((b'0' + n % 10) ∷ cs) (div_below (suc f) n b)
          (omega arith)
      ∙ parse_digits_step max (n / 10) (n % 10) cs (omega arith) (omega arith) n (omega arith)
]

-- The text of a number is made of digits.
pub show_digits-All : (f n : ℕ) → All (λ c. is_digit c ≡ true) (show_digits f n)
unfolding show_digits
show_digits-All zero n = tt
show_digits-All (suc f) n = elim (dec_lt n 10) [
  | yes small ↦ rw (show_digits_small f n small) (ground arith, tt)
  | no large ↦ rw (show_digits_large f n (omega arith)) (
      All-append (λ c. is_digit c ≡ true) (show_digits f (n / 10)) _ (show_digits-All f (n / 10))
        (ground arith, tt))
]

-- It starts with a digit, which is no zero unless the number is.
pub show_digits-head :
    (f n : ℕ)
    → n < 10 ^ suc f
    → 0 < n
    → (c : ℕ) × (cs : Text) × (show_digits (suc f) n ≡ c ∷ cs) × (is_digit c ≡ true) × (c ≢ b'0')
show_digits-head zero n b pos =
    let h : n < 10 = omega (arith, pow-suc 10 0) in
    (b'0' + n, [], show_digits_small 0 n h, ground arith, omega arith)
show_digits-head (suc f) n b pos = elim (dec_lt n 10) [
  | yes small ↦ (b'0' + n, [], show_digits_small (suc f) n small, ground arith, omega arith)
  | no large ↦
      let (c, cs, e, d, ne) = show_digits-head f (n / 10) (div_below (suc f) n b) (omega arith) in
      (
        c,
        cs ++ (b'0' + n % 10) ∷ [],
        show_digits_large (suc f) n (omega arith) ∙ ap (λ s. s ++ (b'0' + n % 10) ∷ []) e,
        d,
        ne,
      )
]

pub show_lem : (n : ℕ) → show n ≡ show_digits 20 n
unfolding show
show_lem n = refl

pub parse_digits-nil : (max n : ℕ) → parse_digits max n [] ≡ some n
unfolding parse_digits
parse_digits-nil max n = refl

show_digits_cons :
    (n : ℕ)
    → n < 10 ^ 20
    → (c : ℕ) × (cs : Text) × (show_digits 20 n ≡ c ∷ cs) × (is_digit c ≡ true)
show_digits_cons n b = elim (dec_lt n 10) [
  | yes small ↦ (b'0' + n, [], show_digits_small 19 n small, ground arith)
  | no large ↦
      let (c, cs, e, d, _) = show_digits-head 19 n (omega arith) (omega arith) in (c, cs, e, d)
]

-- A text that starts with a digit has no sign to skip.
pub parse_unsigned-digits :
    (max c : ℕ) (cs : Text)
    → is_digit c ≡ true
    → parse_unsigned max (c ∷ cs) ≡ parse_digits max 0 (c ∷ cs)
unfolding parse_unsigned
parse_unsigned-digits max c [] d = refl
parse_unsigned-digits max c (x ∷ cs) d = ground arith

-- A number is read back from what is printed of it.
pub parse_unsigned-show : (max n : ℕ) → n ≤ max → n < 10 ^ 20 → parse_unsigned max (show n) ≡ some n
parse_unsigned-show max n b s =
    let (c, cs, e, d) = show_digits_cons n s in
    ap (parse_unsigned max) (show_lem n ∙ e)
    ∙ parse_unsigned-digits max c cs d
    ∙ ap (parse_digits max 0) (sym e ∙ sym (append-nil (show_digits 20 n)))
    ∙ parse_digits-show_digits 19 max n [] s b
    ∙ parse_digits-nil max n

pub show-All : (n : ℕ) → All (λ c. is_digit c ≡ true) (show n)
show-All n = subst (All (λ c. is_digit c ≡ true)) (sym (show_lem n)) (show_digits-All 20 n)
