-- ===== src/Vmid/Display.antt =====
-- The pattern's text: what `Display` prints is what `parse` reads.
use pbox.Base.{
  parse_unsigned-digits, ℕ, zero, suc, ◌+◌, ◌-◌, ◌*◌, ◌^◌, ◌≤◌, ◌<◌, ◌≡◌, ◌≢◌, refl, ap, sym, ◌∙◌,
  ap₂, subst, true, false, not, some, [], ◌∷◌, ◌++◌, Text, is_digit, ◌==◌, length, take, drop,
  replicate, any, position, All, ok, append-nil, take-append-drop, length-drop, take-append,
  drop-append, length-append, length-replicate, show_digits, show_digits-parse_digits,
  show_digits-head, show_digits_small, show_lem, parse_digits-nil, pow-pos, parse_digits-cons,
  parse_digits-le_max, show_digits-All, parse_digits-show_digits, parse_unsigned, parse_digits,
  u64_max, checked, show, arith,
}
use pbox.Vmid.{
  VmidPattern, split_pattern, range_of, parse, display, IsValid, bad_start, bad_parts, bad_prefix,
  find_wildcard,
}
use pbox.Vmid.Parsing.{parse-IsValid, parse_parts, all_wild}

show_read :
    (c : ℕ) (cs : Text) (v : ℕ)
    → is_digit c ≡ true
    → c ≢ b'0'
    → v ≤ u64_max
    → parse_digits u64_max 0 (c ∷ cs) ≡ some v
    → show v ≡ c ∷ cs
show_read c cs v d ne b h =
    let k = 0 * 10 + (c - b'0') in
    let h' = parse_digits-cons u64_max 0 c cs h in
    let e : b'0' + k ≡ c = ground arith in
    show_lem v
    ∙ show_digits-parse_digits 19 u64_max k cs {v = v} (ground arith) (omega arith) h'.1
    ∙ ap (λ s. s ++ cs) (show_digits_small 19 k (ground arith))
    ∙ ap (λ x. x ∷ cs) e

-- A pattern that was parsed prints as the text that it was parsed from.
pub display-parse : (t : Text) (p : VmidPattern) → parse t ≡ ok p → display p ≡ t
unfolding display
display-parse t p h =
    let (n, s, r) = parse_parts t p h in
    let v = parse-IsValid t p h in
    let read : parse_digits u64_max 0 (s.head ∷ s.more) ≡ some p.prefix =
      sym (parse_unsigned-digits u64_max s.head s.more s.digit)
      ∙ ap (parse_unsigned u64_max) (sym s.prefix_text)
      ∙ r.read in
    let wild : replicate p.wildcard_digits b'x' ≡ drop n t =
      ap (λ k. replicate k b'x') (r.count ∙ sym (length-drop n t))
      ∙ sym (all_wild (drop n t) s.wildcards) in
    ap₂ (◌++◌)
      (show_read s.head s.more p.prefix s.digit s.nonzero
          (parse_digits-le_max u64_max 0 (s.head ∷ s.more) p.prefix (omega arith) read) read
        ∙ sym s.prefix_text)
      wild
    ∙ take-append-drop n t

-- The tests of `parse` on digits that are followed by wildcards.
find_after :
    (ds ys : Text)
    → All (λ b. is_digit b ≡ true) ds
    → position (λ b. b == b'x') (ds ++ b'x' ∷ ys) ≡ some (length ds)
find_after [] ys a = refl
find_after (d ∷ ds) ys (h, a) = ground (arith, find_after ds ys a)

no_other : (ds : Text) → All (λ b. is_digit b ≡ true) ds → any (λ b. not (is_digit b)) ds ≡ false
no_other [] a = refl
no_other (d ∷ ds) (h, a) = ground (arith, no_other ds a)

only_wild : (k : ℕ) → any (λ b. not (b == b'x')) (replicate k b'x') ≡ false
only_wild zero = refl
only_wild (suc k) = only_wild k

split_display :
    (c : ℕ) (cs : Text) (k : ℕ)
    → All (λ b. is_digit b ≡ true) (c ∷ cs)
    → c ≢ b'0'
    → split_pattern ((c ∷ cs) ++ replicate (suc k) b'x') ≡ ok (length (c ∷ cs))
unfolding split_pattern bad_start bad_parts bad_prefix find_wildcard
split_display c cs k a ne =
    let t = (c ∷ cs) ++ replicate (suc k) b'x' in
    ground (
      arith,
      find_after (c ∷ cs) (replicate k b'x') a,
      no_other (c ∷ cs) a,
      only_wild (suc k),
      take-append (c ∷ cs) (replicate (suc k) b'x'),
      drop-append (c ∷ cs) (replicate (suc k) b'x'),
      length-append cs (replicate (suc k) b'x'),
    )

factor-le : (a f m : ℕ) → 0 < a → a * f ≤ m → f ≤ m
factor-le a f m pos h = grind arith

range_display :
    (p : VmidPattern) (ds : Text)
    → IsValid p
    → parse_unsigned u64_max ds ≡ some p.prefix
    → range_of ds p.wildcard_digits ≡ ok p
unfolding range_of checked
range_display p ds v read =
    let f = 10 ^ p.wildcard_digits in
    let b : p.prefix * f ≤ u64_max = omega arith in
    let fits = factor-le p.prefix f u64_max v.positive b in ground arith

prefix-le : (p : VmidPattern) → IsValid p → p.prefix ≤ u64_max
prefix-le p v = grind (arith, pow-pos p.wildcard_digits)

parse_of_split :
    (t ds : Text) (n k : ℕ)
    → split_pattern t ≡ ok n
    → take n t ≡ ds
    → length t - n ≡ k
    → parse t ≡ range_of ds k
unfolding parse
parse_of_split t ds n k split e e' = rw (split, parse, e, e')

read_show :
    (p : VmidPattern) (c : ℕ) (cs : Text)
    → IsValid p
    → show_digits 20 p.prefix ≡ c ∷ cs
    → is_digit c ≡ true
    → parse_unsigned u64_max (c ∷ cs) ≡ some p.prefix
read_show p c cs v e d =
    let b = prefix-le p v in
    parse_unsigned-digits u64_max c cs d
    ∙ ap (parse_digits u64_max 0) (sym (append-nil (show_digits 20 p.prefix) ∙ e))
    ∙ parse_digits-show_digits 19 u64_max p.prefix [] (omega arith) b
    ∙ parse_digits-nil u64_max p.prefix

-- A valid pattern is read back from its text.
pub parse-display : (p : VmidPattern) → IsValid p → parse (display p) ≡ ok p
unfolding display
parse-display p v =
    let b = prefix-le p v in
    let (c, cs, e, d, ne) = show_digits-head 19 p.prefix (omega arith) v.positive in
    let w : Text = replicate p.wildcard_digits b'x' in
    let a = subst (All (λ b. is_digit b ≡ true)) e (show_digits-All 20 p.prefix) in
    let some_wild : suc (p.wildcard_digits - 1) ≡ p.wildcard_digits = omega arith in
    let split =
      subst (λ k. split_pattern ((c ∷ cs) ++ replicate k b'x') ≡ ok (length (c ∷ cs))) some_wild
        (split_display c cs (p.wildcard_digits - 1) a ne) in
    ap (λ s. parse (s ++ w)) (show_lem p.prefix ∙ e)
    ∙ parse_of_split ((c ∷ cs) ++ w) (c ∷ cs) (length (c ∷ cs)) p.wildcard_digits split
        (take-append (c ∷ cs) w)
        (omega (arith, length-append (c ∷ cs) w, length-replicate {A = ℕ} p.wildcard_digits b'x'))
    ∙ range_display p (c ∷ cs) v (read_show p c cs v e d)
