-- ===== src/Metadata/Spans.antt =====
-- `marker_spans`: that its loop ends, and where the spans lie that it returns.
use pbox.Base.{
  ℕ, zero, suc, ◌+◌, ◌≤◌, ◌<◌, ◌≡◌, refl, ap, sym, ◌∙◌, subst, inl, inr, true, none, some, List, [],
  ◌∷◌, ◌++◌, Text, find, find_sound, starts_with, starts_with_sound, length, drop, length-drop,
  drop-drop, length-append, Option-cases, Result, ok, err, ◌>>=◌, arith, strip_prefix,
}
use pbox.Metadata.{
  Codec, MetadataError, unterminated_marker, marker_prefix, marker_suffix, spans_from, marker_spans,
}

length-starts_with : (p t : Text) → starts_with p t ≡ true → length p ≤ length t
length-starts_with p t h =
    let (r, e) = starts_with_sound p t h in omega (arith, ap length e, length-append p r)

-- The closing marker lies behind the opening one.
suffix-prefix : (r : Text) (n : ℕ) → find marker_suffix (marker_prefix ++ r) ≡ some n → 17 ≤ n
unfolding find starts_with strip_prefix
suffix-prefix r n h = elim (Option-cases (find marker_suffix r)) [
  | inl e ↦ ground (arith, e)
  | inr (m, e) ↦ ground (arith, e)
]

-- A span in front of those that the rest of the loop finds.
abbrev pub prepend {ℓ} : {E : Type ℓ} → ℕ × ℕ → Result E (List (ℕ × ℕ)) → Result E (List (ℕ × ℕ))
prepend span r = r >>= λ rest. ok (span ∷ rest)

module _ (c : Codec) where
  -- The two ways in which a round of the loop goes on, once an opening marker is found.
  pub spans_stop :
      (f : ℕ) (md : Text) (from : ℕ)
      → find marker_prefix (drop from md) ≡ none
      → spans_from c (suc f) md from ≡ ok []
  unfolding spans_from
  spans_stop f md from e = rw (e, spans_from)

  pub spans_open :
      (f : ℕ) (md : Text) (from r : ℕ)
      → find marker_prefix (drop from md) ≡ some r
      → find marker_suffix (drop (from + r) md) ≡ none
      → spans_from c (suc f) md from ≡ err unterminated_marker
  unfolding spans_from
  spans_open f md from r e e' = rw (e, spans_from, e')

  pub spans_step :
      (f : ℕ) (md : Text) (from r n : ℕ)
      → find marker_prefix (drop from md) ≡ some r
      → find marker_suffix (drop (from + r) md) ≡ some n
      → spans_from c (suc f) md from
        ≡ prepend (from + r, from + r + n + 3) (spans_from c f md (from + r + n + 3))
  unfolding spans_from
  spans_step f md from r n e e' = rw (e, spans_from, e')

-- Where a found marker ends.
marker_within :
    (md : Text) (from r n : ℕ)
    → find marker_prefix (drop from md) ≡ some r
    → find marker_suffix (drop (from + r) md) ≡ some n
    → (17 ≤ n) × (from + r + n + 3 ≤ length md)
marker_within md from r n e e' =
    let (opens, within) = find_sound marker_prefix (drop from md) r e in
    let (rest, e'') = starts_with_sound marker_prefix (drop r (drop from md)) opens in
    let here = sym (drop-drop from r (from + r) md refl) ∙ e'' in
    let far = suffix-prefix rest n (ap (find marker_suffix) (sym here) ∙ e') in
    let (closes, _) = find_sound marker_suffix (drop (from + r) md) n e' in
    let long = length-starts_with marker_suffix (drop n (drop (from + r) md)) closes in
    (far, omega (arith, length-drop n (drop (from + r) md), length-drop (from + r) md, long))

-- Below, a span stands for the offsets of its two ends.
-- The spans, from an offset on: each starts behind the last one's end, at the first opening marker
-- that follows, and ends with the first closing marker behind that; after the last no opening
-- marker follows.
abbrev pub Placed : Text → ℕ → List (ℕ × ℕ) → Type 0
Placed md from [] = find marker_prefix (drop from md) ≡ none
Placed md from ((start, end) ∷ rest) =
    (r : ℕ) × (n : ℕ) × (find marker_prefix (drop from md) ≡ some r)
    × (find marker_suffix (drop start md) ≡ some n)
    × (start ≡ from + r)
    × (end ≡ start + n + 3)
    × (17 ≤ n)
    × (end ≤ length md)
    × Placed md end rest

-- How `marker_spans` may end, from an offset on.
abbrev pub Scanned : (c : Codec) → Text → ℕ → Result (MetadataError c) (List (ℕ × ℕ)) → Type 0
Scanned c md from (ok spans) = Placed md from spans
Scanned c md from (err e) = e ≡ unterminated_marker

prepend-Scanned :
    (c : Codec) (md : Text) (from r n : ℕ) (tail : Result (MetadataError c) (List (ℕ × ℕ)))
    → find marker_prefix (drop from md) ≡ some r
    → find marker_suffix (drop (from + r) md) ≡ some n
    → Scanned c md (from + r + n + 3) tail
    → Scanned c md from (prepend (from + r, from + r + n + 3) tail)
prepend-Scanned c md from r n (err e) found closed s = s
prepend-Scanned c md from r n (ok rest) found closed s =
    let (far, within) = marker_within md from r n found closed in
    (r, n, found, closed, refl, refl, far, within, s)

module _ (c : Codec) where
  spans_from-Scanned :
      (f : ℕ) (md : Text) (from : ℕ)
      → from ≤ length md
      → length md < from + f
      → Scanned c md from (spans_from c f md from)
  spans_from-Scanned zero md from lo enough = absurd (omega arith)
  spans_from-Scanned (suc f) md from lo enough =
      elim (Option-cases (find marker_prefix (drop from md))) [
        | inl e ↦ subst (Scanned c md from) (sym (spans_stop c f md from e)) e
        | inr (r, e) ↦ elim (Option-cases (find marker_suffix (drop (from + r) md))) [
          | inl e' ↦ subst (Scanned c md from) (sym (spans_open c f md from r e e')) refl
          | inr (n, e') ↦ subst (Scanned c md from) (sym (spans_step c f md from r n e e')) (
              prepend-Scanned c md from r n (spans_from c f md (from + r + n + 3)) e e' (
                spans_from-Scanned f md (from + r + n + 3) (marker_within md from r n e e').1
                  (omega (arith, marker_within md from r n e e'))))
        ]
      ]

  -- The loop ends before its bound: the only error of `marker_spans` is a marker that is not closed.
  -- The spans that it returns are the markers of the text in their order: each starts at the first
  -- opening marker behind the one before and ends with the first closing marker that follows (so it
  -- holds both), within the text, and no opening marker follows the last.
  pub marker_spans-Scanned : (md : Text) → Scanned c md 0 (marker_spans c md)
  unfolding marker_spans
  marker_spans-Scanned md = spans_from-Scanned (length md + 1) md 0 (omega arith) (omega arith)
