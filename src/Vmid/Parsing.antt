-- ===== src/Vmid/Parsing.antt =====
-- What a successful parse says of the text and of the pattern.
use pbox.Base.{
  parse_unsigned-digits, ℕ, zero, suc, ◌+◌, ◌-◌, ◌*◌, ◌^◌, ◌≤◌, ◌<◌, ◌≡◌, ◌≢◌, refl, sym, ◌∙◌, ap₂,
  Bool, true, false, not, some, List, [], ◌∷◌, Text, is_digit, ◌==◌, length, get_or, take, drop,
  replicate, any, position, ok, parse_unsigned, parse_digits, u64_max, u32_max, checked,
  parse_digits-cons, parse_digits-le, Result-cases, inl, inr, arith,
}
use pbox.Vmid.{
  bad_start, bad_parts, find_wildcard, VmidPattern, split_pattern, range_of, parse, IsValid,
}

-- The form of an accepted text: a prefix of digits that starts with no zero, then wildcards.
pub record IsSplit (bytes : Text) (n : ℕ) : Type 0 where
  pub head : ℕ
  pub more : Text
  pub prefix_text : take n bytes ≡ head ∷ more
  pub digit : is_digit head ≡ true
  pub nonzero : head ≢ b'0'
  pub digits : any (λ b. not (is_digit b)) (take n bytes) ≡ false
  pub wildcards : any (λ b. not (b == b'x')) (drop n bytes) ≡ false
  pub some_wild : n < length bytes

position-lt-length : (p : ℕ → Bool) (xs : List ℕ) (n : ℕ) → position p xs ≡ some n → n < length xs
position-lt-length p [] n h = cc
position-lt-length p (x ∷ xs) zero h = omega arith
position-lt-length p (x ∷ xs) (suc n) h = ground (arith, position-lt-length p xs n)

pub all_wild : (t : Text) → any (λ b. not (b == b'x')) t ≡ false → t ≡ replicate (length t) b'x'
all_wild [] h = refl
all_wild (c ∷ t) h = let e : c ≡ b'x' = ground arith in ap₂ (◌∷◌) e (all_wild t (ground arith))

get_or-head :
    (xs : Text) (n : ℕ)
    → 0 < length xs
    → 0 < n
    → take n xs ≡ get_or xs 0 0 ∷ take (n - 1) (drop 1 xs)
get_or-head [] n h k = absurd (omega arith)
get_or-head (x ∷ xs) zero h k = absurd (omega arith)
get_or-head (x ∷ xs) (suc n) h k = let e : suc n - 1 ≡ n = omega arith in rw e refl

form-IsSplit :
    (bytes : Text) (n : ℕ)
    → bad_start bytes ≡ false
    → find_wildcard bytes ≡ some n
    → bad_parts bytes n ≡ false
    → IsSplit bytes n
unfolding bad_start bad_parts find_wildcard
form-IsSplit bytes n s f q =
    let short = position-lt-length (λ b. b == b'x') bytes n f in
    record {
      head = get_or bytes 0 0;
      more = take (n - 1) (drop 1 bytes);
      prefix_text = get_or-head bytes n (omega arith) (ground arith);
      digit = ground arith;
      nonzero = ground arith;
      digits = ground arith;
      wildcards = ground arith;
      some_wild = short;
    }

pub split_pattern-IsSplit : (bytes : Text) (n : ℕ) → split_pattern bytes ≡ ok n → IsSplit bytes n
unfolding split_pattern
split_pattern-IsSplit bytes n h = form-IsSplit bytes n (ground arith) (ground arith) (ground arith)

-- The numbers of an accepted pattern.
pub record IsRange (prefix_text : Text) (digits : ℕ) (p : VmidPattern) : Type 0 where
  pub read : parse_unsigned u64_max prefix_text ≡ some p.prefix
  pub count : p.wildcard_digits ≡ digits
  pub in_u32 : digits ≤ u32_max
  pub starts : p.first ≡ p.prefix * 10 ^ digits
  pub ends : p.last ≡ p.first + (10 ^ digits - 1)
  pub in_u64 : p.last ≤ u64_max

pub range_of-IsRange :
    (prefix_text : Text) (digits : ℕ) (p : VmidPattern)
    → range_of prefix_text digits ≡ ok p
    → IsRange prefix_text digits p
unfolding range_of checked
range_of-IsRange prefix_text digits p h = record {
  read = ground arith;
  count = ground arith;
  in_u32 = ground arith;
  starts = ground arith;
  ends = ground arith;
  in_u64 = ground arith;
}

-- A prefix that starts with a nonzero digit is read as a positive number.
parse_digits-pos :
    (max c : ℕ) (cs : Text) (v : ℕ)
    → is_digit c ≡ true
    → c ≢ b'0'
    → parse_digits max 0 (c ∷ cs) ≡ some v
    → 0 < v
parse_digits-pos max c cs v d ne h =
    let (_, h') = parse_digits-cons max 0 c cs h in
    let le = parse_digits-le max (0 * 10 + (c - b'0')) cs v h' in ground arith

-- A successful parse in its two halves.
pub parse_parts :
    (t : Text) (p : VmidPattern)
    → parse t ≡ ok p
    → (n : ℕ) × IsSplit t n × IsRange (take n t) (length t - n) p
unfolding parse
parse_parts t p h = elim (Result-cases (split_pattern t)) [
  | inr (e, failed) ↦ absurd (ground arith)
  | inl (n, split) ↦ (
    n,
    split_pattern-IsSplit t n split,
    range_of-IsRange (take n t) (length t - n) p (rw (split, parse) at h),
  )
]

-- An accepted pattern spans a range of `u64`: its prefix is positive, it has a wildcard, and its
-- bounds are the prefix followed by all zeros and by all nines.
pub parse-IsValid : (t : Text) (p : VmidPattern) → parse t ≡ ok p → IsValid p
parse-IsValid t p h =
    let (n, s, r) = parse_parts t p h in
    let read : parse_unsigned u64_max (s.head ∷ s.more) ≡ some p.prefix =
      rw (← s.prefix_text) r.read in
    record {
      positive =
          parse_digits-pos u64_max s.head s.more p.prefix s.digit s.nonzero
            (sym (parse_unsigned-digits u64_max s.head s.more s.digit) ∙ read);
      wild = omega (arith, s.some_wild, r.count);
      starts = rw r.count r.starts;
      ends = rw r.count r.ends;
      in_u64 = r.in_u64;
      in_u32 = rw r.count r.in_u32;
    }
