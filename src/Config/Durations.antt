-- ===== src/Config/Durations.antt =====
-- crates/pbox-core/src/config.rs: `parse_duration`, in seconds.
use pbox.Base.{
  ℕ, ◌*◌, ◌≤◌, ◌≡◌, refl, ap, ◌∙◌, inl, inr, true, false, Option, none, some, [], ◌∷◌, ◌++◌, Text,
  is_digit, leb, ◌==◌, if◌then◌else◌, Bool-cases, is_whitespace, trim, trim_start, trim_end,
  keep_unless_last, Solid, All-append, show-All, parse_unsigned-show, checked, Result, ok, err,
  ◌>>=◌, ok_or, checked_mul, parse_unsigned, u64_max, show, All, arith,
}

pub data DurationError : Type 0 where
  empty_duration no_unit not_integer too_large : DurationError

-- A text without its last character, and that character.
unfoldable pub split_last : Text → Option (Text × ℕ)
split_last [] = none
split_last (ch ∷ []) = some ([], ch)
split_last (ch ∷ d ∷ t) = elim (split_last (d ∷ t)) [
  | none ↦ none
  | some (front, last) ↦ some (ch ∷ front, last)
]

unfoldable pub multiplier : ℕ → Option ℕ
multiplier ch =
    if ch == b's'
    then some 1
    else if ch == b'm'
    then some 60
    else if ch == b'h'
    then some 3600
    else if ch == b'd'
    then some 86400
    else none

unfoldable pub seconds_of : Text → ℕ → Result DurationError ℕ
seconds_of amount_text multiplier = do
  amount ← ok_or (parse_unsigned u64_max amount_text) not_integer
  ok_or (checked_mul amount multiplier) too_large

unfoldable pub read_duration : Text → Result DurationError ℕ
read_duration trimmed = elim (split_last trimmed) [
  | none ↦ err empty_duration
  | some (front, last) ↦ elim (multiplier last) [
    | some m ↦ seconds_of front m
    | none ↦ if is_digit last then seconds_of trimmed 1 else err no_unit
  ]
]

unfoldable pub parse_duration : Text → Result DurationError ℕ
parse_duration value = read_duration (trim value)

split_last-append : (t : Text) (ch : ℕ) → split_last (t ++ ch ∷ []) ≡ some (t, ch)
unfolding split_last
split_last-append [] ch = refl
split_last-append (c ∷ []) ch = refl
split_last-append (c ∷ d ∷ t) ch = rw (split_last-append (d ∷ t) ch) refl

trim_end-Solid : (t : Text) → Solid t → trim_end t ≡ t
unfolding trim_end
trim_end-Solid [] a = refl
trim_end-Solid (c ∷ []) (h, a) = ground arith
trim_end-Solid (c ∷ d ∷ t) (h, a) = ap (keep_unless_last c) (trim_end-Solid (d ∷ t) a)

trim-Solid : (t : Text) → Solid t → trim t ≡ t
unfolding trim trim_start
trim-Solid [] a = trim_end-Solid [] tt
trim-Solid (c ∷ t) (h, a) = rw h (trim_end-Solid (c ∷ t) (h, a))

digits-Solid : (t : Text) → All (λ c. is_digit c ≡ true) t → Solid t
unfolding is_whitespace
digits-Solid [] a = tt
digits-Solid (c ∷ t) (h, a) = (ground arith, digits-Solid t a)

multiplier-Solid : (ch m : ℕ) → multiplier ch ≡ some m → is_whitespace ch ≡ false
unfolding multiplier is_whitespace
multiplier-Solid ch m h = ground arith

read_unit :
    (t front : Text) (ch m n : ℕ)
    → split_last t ≡ some (front, ch)
    → multiplier ch ≡ some m
    → parse_unsigned u64_max front ≡ some n
    → read_duration t ≡ (if leb (n * m) u64_max then ok (n * m) else err too_large)
unfolding read_duration seconds_of checked
read_unit t front ch m n e e1 e2 = elim (Bool-cases (leb (n * m) u64_max)) [
  | inl f ↦ ground arith
  | inr f ↦ ground arith
]

pub data TimeUnit : Type 0 where
  second minute hour day : TimeUnit

-- The letter of a unit and its seconds, as the documentation of durations has them.
abbrev pub letter : TimeUnit → ℕ
letter second = b's'
letter minute = b'm'
letter hour = b'h'
letter day = b'd'

abbrev pub seconds : TimeUnit → ℕ
seconds second = 1
seconds minute = 60
seconds hour = 60 * 60
seconds day = 24 * (60 * 60)

multiplier-letter : (u : TimeUnit) → multiplier (letter u) ≡ some (seconds u)
unfolding multiplier
multiplier-letter second = refl
multiplier-letter minute = refl
multiplier-letter hour = refl
multiplier-letter day = refl

-- A u64 that is written with one of the units s, m, h and d is read as so many times 1, 60, 60 * 60 and
-- 24 * 60 * 60 seconds, and is refused as too large exactly if these do not fit a u64.
pub parse_duration-show :
    (n : ℕ) (u : TimeUnit)
    → n ≤ u64_max
    → parse_duration (show n ++ letter u ∷ [])
      ≡ (if leb (n * seconds u) u64_max then ok (n * seconds u) else err too_large)
unfolding parse_duration
parse_duration-show n u b =
    let ch = letter u in
    let h = multiplier-letter u in
    let solid =
      All-append (λ c. is_whitespace c ≡ false) (show n) (ch ∷ [])
        (digits-Solid (show n) (show-All n)) (multiplier-Solid ch (seconds u) h, tt) in
    ap read_duration (trim-Solid (show n ++ ch ∷ []) solid)
    ∙ read_unit (show n ++ ch ∷ []) (show n) ch (seconds u) n (split_last-append (show n) ch) h
        (parse_unsigned-show u64_max n b (omega arith))
