-- ===== src/Config/Reading.antt =====
-- What the checks of a value and the readers of numbers establish; trimming twice is trimming once.
use pbox.Base.{
  zero, suc, ℕ, ◌≡◌, refl, ap, ◌∙◌, inl, inr, false, List, [], ◌∷◌, Text, trim, trim_start,
  trim_end, is_whitespace, parse_unsigned, u64_max, Result, ok, err, ◌>>=◌, ◌>>◌, All, Bool-cases,
  Option-cases, arith,
}
use pbox.Base.Search.{keep_unless_last}
use pbox.Config.{key_name, Key, agent_port}
use pbox.Config.Checks.{
  Check, ConfigError, blank, validate_non_empty, validate_positive, parse_port, parse_u64,
  parse_positive,
}
use pbox.Config.Values.{all_ok, not_nothing, validate_port}

abbrev pub Passes : Check → Type 0
Passes r = r ≡ ok tt

pub all_ok_sound : (rs : List Check) → all_ok rs ≡ ok tt → All Passes rs
all_ok_sound [] h = tt
all_ok_sound (ok tt ∷ rs) h = (refl, all_ok_sound rs h)
all_ok_sound (err e ∷ rs) h = absurd (ground arith)

pub all_ok_complete : (rs : List Check) → All Passes rs → all_ok rs ≡ ok tt
all_ok_complete [] a = refl
all_ok_complete (r ∷ rs) (p, a) = rw (p, all_ok_complete rs a) refl

kept : (c : ℕ) (s : Text) → trim_end s ≡ s → trim_end (keep_unless_last c s) ≡ keep_unless_last c s
unfolding trim_end
kept c [] h = ground arith
kept c (d ∷ t) h = ap (keep_unless_last c) h

-- A trimmed text has no whitespace at its ends, so trimming again changes nothing.
trim_end-trim_end : (t : Text) → trim_end (trim_end t) ≡ trim_end t
unfolding trim_end
trim_end-trim_end [] = refl
trim_end-trim_end (c ∷ t) = kept c (trim_end t) (trim_end-trim_end t)

start_kept :
    (c : ℕ) (s : Text)
    → is_whitespace c ≡ false
    → trim_start (keep_unless_last c s) ≡ keep_unless_last c s
unfolding trim_start
start_kept c [] h = ground arith
start_kept c (d ∷ t) h = ground arith

head_of_trim_end :
    (c : ℕ) (t : Text) → is_whitespace c ≡ false → trim_start (trim_end (c ∷ t)) ≡ trim_end (c ∷ t)
unfolding trim_end trim_start
head_of_trim_end c t h = start_kept c (trim_end t) h

pub trim-trim : (t : Text) → trim (trim t) ≡ trim t
unfolding trim trim_start
trim-trim [] = refl
trim-trim (c ∷ t) = elim (Bool-cases (is_whitespace c)) [
  | inl h ↦ rw h (trim-trim t)
  | inr h ↦ rw h (ap trim_end (head_of_trim_end c t h) ∙ trim_end-trim_end (c ∷ t))
]

pub after : {A : Type 0} (r : Check) (x c' : A) → r >> ok x ≡ ok c' → (r ≡ ok tt) × (x ≡ c')
after (ok tt) x c' h = (refl, ground arith)
after (err e) x c' h = absurd (ground arith)

pub split_checks :
    {A : Type 0} (r s : Check) (x c' : A)
    → r >> (s >> ok x) ≡ ok c'
    → (r ≡ ok tt) × (s ≡ ok tt) × (x ≡ c')
split_checks (ok tt) s x c' h = let (q, e) = after s x c' h in (refl, q, e)
split_checks (err e) s x c' h = absurd (ground arith)

pub after_value :
    {A B : Type 0} (r : Result ConfigError B) (f : B → A) (c' : A)
    → (r >>= λ b. ok (f b)) ≡ ok c'
    → (b : B) × (r ≡ ok b) × (f b ≡ c')
after_value (ok b) f c' h = (b, refl, ground arith)
after_value (err e) f c' h = absurd (ground arith)

pub trimmed :
    (key value : Text)
    → Passes (validate_non_empty key value)
    → Passes (validate_non_empty key (trim value))
unfolding validate_non_empty blank
trimmed key value h = rw (trim-trim value) h

pub filled :
    (key : Text) (k : Key) (value : Text)
    → Passes (validate_non_empty key value)
    → Passes (not_nothing k value)
unfolding validate_non_empty blank not_nothing trim trim_start trim_end
filled key k [] h = absurd (ground arith)
filled key k (c ∷ t) h = refl

pub port_read :
    (value : Text) (n : ℕ)
    → parse_port (key_name agent_port) value ≡ ok n
    → Passes (validate_port n)
unfolding parse_port validate_port
port_read value n h = elim (Option-cases (parse_unsigned 65535 value)) [
  | inl e ↦ absurd (ground arith)
  | inr (m, e) ↦ ground arith
]

pub positive_read :
    (key value : Text) (n : ℕ) → parse_positive key value ≡ ok n → Passes (validate_positive key n)
unfolding parse_positive validate_positive parse_u64
positive_read key value n h = elim (Option-cases (parse_unsigned u64_max value)) [
  | inl e ↦ absurd (ground arith)
  | inr (m, e) ↦ ground arith
]

-- A list with another element at a place.
abbrev pub replace : ℕ → Check → List Check → List Check
replace n r [] = []
replace zero r (x ∷ xs) = r ∷ xs
replace (suc n) r (x ∷ xs) = x ∷ replace n r xs

-- A check that passes can take the place of another.
pub renew :
    (n : ℕ) (r : Check) (rs : List Check) → Passes r → All Passes rs → All Passes (replace n r rs)
renew n r [] p a = tt
renew zero r (x ∷ rs) p (_, a) = (p, a)
renew (suc n) r (x ∷ rs) p (q, a) = (q, renew n r rs p a)

-- The check at a place passes where all do.
abbrev pub at : ℕ → List Check → Check
at n [] = ok tt
at zero (x ∷ xs) = x
at (suc n) (x ∷ xs) = at n xs

pub Passes-at : (n : ℕ) (rs : List Check) → All Passes rs → Passes (at n rs)
Passes-at n [] a = refl
Passes-at zero (x ∷ rs) (p, a) = p
Passes-at (suc n) (x ∷ rs) (p, a) = Passes-at n rs a
