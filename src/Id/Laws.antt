-- ===== src/Id/Laws.antt =====
-- Which texts `parse` accepts, which errors it reports, and that generated ids are accepted.
use pbox.Base.{
  ℕ, ◌%◌, ◌≤◌, ◌<◌, ◌≡◌, ◌↔◌, refl, ap, sym, ◌∙◌, true, false, List, [], ◌∷◌, ◌++◌, map, Text,
  starts_with, starts_with_sound, length, get_or, drop, replicate, All, ok, holds_under,
  holds_under_sound, length-map, Result-cases, starts_with-append, arith,
}
use pbox.Id.{
  PboxId, prefix, id_length, alphabet, in_alphabet, as_u8, check_characters, parse, generate,
}

-- The characters that the parser lets through.
abbrev pub Passes : ℕ → Type 0
Passes c = in_alphabet (as_u8 c) ≡ true

check_characters-All : (t : Text) → check_characters t ≡ ok tt → All Passes t
unfolding check_characters
check_characters-All [] h = tt
check_characters-All (c ∷ t) h = ground (arith, check_characters-All t)

All-check_characters : (t : Text) → All Passes t → check_characters t ≡ ok tt
unfolding check_characters
All-check_characters [] h = refl
All-check_characters (c ∷ t) (p, h) = ground (arith, All-check_characters t h)

prefix_drop : (t : Text) → drop 4 (prefix ++ t) ≡ t
prefix_drop t = refl

-- An accepted text is the prefix and eight characters, each with its low byte in the alphabet.
abbrev pub Shape : Text → Type 0
Shape t = (s : Text) × (t ≡ prefix ++ s) × (length s ≡ id_length) × All Passes s

-- A text is accepted exactly if it is `pbx_` followed by eight characters whose low bytes are in the
-- alphabet, and the id that comes back holds that text.
pub parse_iff : (t : Text) (i : PboxId) → (parse t ≡ ok i) ↔ (Shape t × (i ≡ record { value = t }))
unfolding parse
parse_iff t i = (to, from)
  where
    to : parse t ≡ ok i → Shape t × (i ≡ record { value = t })
    to h =
        let (s, e) = starts_with_sound prefix t (ground arith) in
        let e' : drop 4 t ≡ s = ap (drop 4) e in
        let long : length (drop 4 t) ≡ 8 = ground arith in
        let checked : check_characters (drop 4 t) ≡ ok tt =
          ground (arith, Result-cases (check_characters (drop 4 t))) in
        (
          (
            s,
            e,
            ap length (sym e') ∙ long,
            check_characters-All s (ap check_characters (sym e') ∙ checked),
          ),
          ground arith,
        )

    from : Shape t × (i ≡ record { value = t }) → parse t ≡ ok i
    from ((s, e, long, passes), same) =
        let e' : drop 4 t ≡ s = ap (drop 4) e in
        let starts : starts_with prefix t ≡ true =
          ap (starts_with prefix) e ∙ starts_with-append prefix s in
        let long' = ap length e' ∙ long in
        let checked = ap check_characters e' ∙ All-check_characters s passes in ground arith

index_table : holds_under (λ i. in_alphabet (as_u8 (get_or alphabet i 0))) 32 ≡ true
unfolding holds_under in_alphabet
index_table = refl

index-All :
    (indices : List ℕ)
    → All (λ i. i < length alphabet) indices
    → All Passes (map (λ i. get_or alphabet i 0) indices)
index-All [] h = tt
index-All (i ∷ is) (b, h) = (holds_under_sound _ 32 i b index_table, index-All is h)

above_alphabet : (c : ℕ) → 256 ≤ c → in_alphabet c ≡ false
unfolding in_alphabet
above_alphabet c h = ground arith

-- The id that `generate` makes from eight indices into the alphabet is one that `parse` accepts.
pub parse-generate :
    (indices : List ℕ)
    → length indices ≡ id_length
    → All (λ i. i < length alphabet) indices
    → parse (generate indices).value ≡ ok (generate indices)
unfolding generate
parse-generate indices n h =
    (parse_iff _ _).1 ((_, refl, length-map _ indices ∙ n, index-All indices h), refl)

-- A character beyond U+00FF is accepted whenever its low byte is in the alphabet: the id that
-- consists of eight of them parses, although no such character is in the alphabet.
pub parse_wide_character :
    (c : ℕ)
    → 256 ≤ c
    → in_alphabet (c % 256) ≡ true
    → (in_alphabet c ≡ false)
      × (parse (prefix ++ replicate 8 c) ≡ ok (record { value = prefix ++ replicate 8 c }))
parse_wide_character c wide low = (
  above_alphabet c wide,
  (parse_iff _ _).1 (
    (replicate 8 c, refl, refl, (low, (low, (low, (low, (low, (low, (low, (low, tt))))))))),
    refl,
  ),
)
