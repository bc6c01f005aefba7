-- ===== src/Metadata/Outside.antt =====
-- The text outside the markers, and what `replace_from` leaves of it.
use pbox.Base.{
  ℕ, zero, suc, ◌+◌, ◌-◌, ◌≤◌, ◌<◌, ◌≡◌, refl, ap, sym, ◌∙◌, ap₂, Bool, true, false, ◌&&◌, List, [],
  ◌∷◌, ◌++◌, Text, leb, ltb, ◌==◌, if◌then◌else◌, any, take, drop, drop-drop, arith,
}
use pbox.Metadata.{replace_from}
use pbox.Metadata.Spans.{Placed}

-- Whether an offset lies in a span, the end not included.
abbrev covered : List (ℕ × ℕ) → ℕ → Bool
covered spans i = any (λ span. leb span.0 i && ltb i span.1) spans

-- A text without the characters that the spans cover, from the offset of its first one on.
unfoldable pub outside : List (ℕ × ℕ) → ℕ → Text → Text
outside spans i [] = []
outside spans i (ch ∷ t) =
    let rest = outside spans (suc i) t in if covered spans i then rest else ch ∷ rest

outside_free :
    (spans : List (ℕ × ℕ)) (n a b : ℕ) (t : Text)
    → a + n ≡ b
    → ((i : ℕ) → a ≤ i → i < b → covered spans i ≡ false)
    → outside spans a t ≡ take n t ++ outside spans b (drop n t)
unfolding outside
outside_free spans zero a b t e h = let e' : a ≡ b = omega arith in ap (λ i. outside spans i t) e'
outside_free spans (suc n) a b [] e h = refl
outside_free spans (suc n) a b (ch ∷ t) e h =
    let free = h a (omega arith) (omega arith) in
    rw free (
      ap (◌∷◌ ch)
        (outside_free spans n (suc a) b t (omega arith) (λ i lo hi. h i (omega arith) hi)))

outside-covered :
    (spans : List (ℕ × ℕ)) (n a b : ℕ) (t : Text)
    → a + n ≡ b
    → ((i : ℕ) → a ≤ i → i < b → covered spans i ≡ true)
    → outside spans a t ≡ outside spans b (drop n t)
unfolding outside
outside-covered spans zero a b t e h =
    let e' : a ≡ b = omega arith in ap (λ i. outside spans i t) e'
outside-covered spans (suc n) a b [] e h = refl
outside-covered spans (suc n) a b (ch ∷ t) e h =
    let inside = h a (omega arith) (omega arith) in
    rw inside (outside-covered spans n (suc a) b t (omega arith) (λ i lo hi. h i (omega arith) hi))

outside_same :
    (spans spans' : List (ℕ × ℕ)) (a : ℕ) (t : Text)
    → ((i : ℕ) → a ≤ i → covered spans i ≡ covered spans' i)
    → outside spans a t ≡ outside spans' a t
unfolding outside
outside_same spans spans' a [] h = refl
outside_same spans spans' a (ch ∷ t) h =
    ground (arith, h a, outside_same spans spans' (suc a) t (λ i lo. h i (omega arith)))

-- The spans lie behind the offset, one behind the other.
abbrev Ordered : ℕ → List (ℕ × ℕ) → Type 0
Ordered from [] = Unit
Ordered from ((start, end) ∷ rest) = (from ≤ start) × (start < end) × Ordered end rest

Placed-Ordered :
    (md : Text) (from : ℕ) (spans : List (ℕ × ℕ)) → Placed md from spans → Ordered from spans
Placed-Ordered md from [] p = tt
Placed-Ordered md from ((start, end) ∷ rest) (r, n, f, s, e, e', far, within, more) =
    (omega arith, omega arith, Placed-Ordered md end rest more)

-- Nothing in front of the spans is covered.
covered_before :
    (spans : List (ℕ × ℕ)) (from i : ℕ) → Ordered from spans → i < from → covered spans i ≡ false
covered_before [] from i o h = refl
covered_before ((start, end) ∷ rest) from i (a, b, o) h =
    ground (arith, covered_before rest end i o)

pub outside_all : (a : ℕ) (t : Text) → outside [] a t ≡ t
unfolding outside
outside_all a [] = refl
outside_all a (ch ∷ t) = ap (◌∷◌ ch) (outside_all (suc a) t)

-- Up to the end of the first span.
outside_span :
    (start end a : ℕ) (rest : List (ℕ × ℕ)) (md : Text)
    → Ordered a ((start, end) ∷ rest)
    → outside ((start, end) ∷ rest) a (drop a md)
      ≡ take (start - a) (drop a md) ++ outside rest end (drop end md)
outside_span start end a rest md (lo, pos, o) =
    let spans = (start, end) ∷ rest in
    outside_free spans (start - a) a start (drop a md) (omega arith)
      (λ i from to. ground (arith, covered_before rest end i o))
    ∙ ap (λ t. take (start - a) (drop a md) ++ t)
        (ap (outside spans start) (drop-drop a (start - a) start md (omega arith))
          ∙ outside-covered spans (end - start) start end (drop start md) (omega arith)
              (λ i from to. ground arith)
          ∙ ap (outside spans end) (drop-drop start (end - start) end md (omega arith))
          ∙ outside_same spans rest end (drop end md) (λ i from. ground arith))

later_marker : (index : ℕ) (marker : Text) → 0 < index → (if index == 0 then marker else []) ≡ []
later_marker index marker pos = ground arith

-- Behind the first marker, `preserve_metadata` only takes markers out.
replace_from-outside :
    (md marker : Text) (index cursor : ℕ) (spans : List (ℕ × ℕ))
    → 0 < index
    → Ordered cursor spans
    → replace_from md marker index cursor spans ≡ outside spans cursor (drop cursor md)
unfolding replace_from
replace_from-outside md marker index cursor [] pos o = sym (outside_all cursor (drop cursor md))
replace_from-outside md marker index cursor ((start, end) ∷ rest) pos o =
    ap (λ t. take (start - cursor) (drop cursor md) ++ t)
      (ap₂ (◌++◌) (later_marker index marker pos)
        (replace_from-outside md marker (index + 1) end rest (omega arith) o.2))
    ∙ sym (outside_span start end cursor rest md o)

-- With a marker in the text, the new one stands where the first stood, between the parts of the rest.
pub replace_from-first :
    (md marker : Text) (start end : ℕ) (rest : List (ℕ × ℕ))
    → Placed md 0 ((start, end) ∷ rest)
    → (replace_from md marker 0 0 ((start, end) ∷ rest)
        ≡ take (start - 0) md ++ (marker ++ outside rest end (drop end md)))
      × (outside ((start, end) ∷ rest) 0 md ≡ take (start - 0) md ++ outside rest end (drop end md))
unfolding replace_from
replace_from-first md marker start end rest p =
    let o = Placed-Ordered md 0 ((start, end) ∷ rest) p in
    (
      ap (λ t. take (start - 0) md ++ (marker ++ t))
          (replace_from-outside md marker (0 + 1) end rest (omega arith) o.2),
      outside_span start end 0 rest md o,
    )
