-- ===== src/Metadata/Notes.antt =====
-- `preserve_metadata`: the marker that it writes is read back, and the user's text stays.
use pbox.Base.{
  ℕ, ◌-◌, ◌≤◌, ◌≡◌, ◌≢◌, refl, ap, sym, ◌∙◌, subst, inl, inr, none, some, List, [], ◌∷◌, ◌++◌,
  append_assoc, append-nil, Text, codes, find, find_sound, find_separated, find_independent,
  starts_with, strip_prefix, starts_with_sound, ends_with, Bool-cases, length, take, drop,
  take-append-drop, length-take, length-append, All, ok, Result-cases, ok-injective, arith,
}
use pbox.Metadata.{
  Codec, IsCodec, PboxMetadata, marker_prefix, marker_of, marker_spans, append_marker, replace_from,
  place_marker, preserve_metadata, parse_metadata, encode_metadata,
}
use pbox.Metadata.Spans.{Placed, Scanned, marker_spans-Scanned}
use pbox.Metadata.Outside.{outside, outside_all, replace_from-first}
use pbox.Metadata.Roundtrip.{parse_noted}

-- A successful call in its parts.
preserve_parts :
    (c : Codec) (md : Text) (m : PboxMetadata) (out : Text) (spans : List (ℕ × ℕ))
    → preserve_metadata c md m ≡ ok out
    → marker_spans c md ≡ ok spans
    → (bytes : Text) × (c.to_vec m ≡ ok bytes)
      × (place_marker md (marker_of (c.encode bytes)) spans ≡ out)
unfolding preserve_metadata encode_metadata
preserve_parts c md m out spans h e = elim (Result-cases (c.to_vec m)) [
  | inl (bytes, w) ↦ (bytes, w, ok-injective (rw (w, e, preserve_metadata, encode_metadata) at h))
  | inr (x, w) ↦ absurd (ground arith)
]

abbrev pub IsNewline : ℕ → Type 0
IsNewline ch = ch ≡ b'\n'

-- Notes without a marker: the new one follows them, behind newlines.
append_marker-newlines :
    (md marker : Text)
    → (blank : Text) × All IsNewline blank × (append_marker md marker ≡ md ++ (blank ++ marker))
unfolding append_marker
append_marker-newlines [] marker = ([], tt, refl)
append_marker-newlines (ch ∷ md) marker = elim (Bool-cases (ends_with b'\n' (ch ∷ md))) [
  | inl e ↦ (codes "\n", (refl, tt), rw e)
  | inr e ↦ (codes "\n\n", (refl, (refl, tt)), rw e)
]

-- The notes with the marker written, for the spans that were found in them.
abbrev pub Kept : Text → Text → List (ℕ × ℕ) → Text → Type 0
Kept md marker [] out = (blank : Text) × All IsNewline blank × (out ≡ md ++ (blank ++ marker))
Kept md marker (span ∷ rest) out =
    (before : Text) × (after : Text) × (out ≡ before ++ (marker ++ after))
    × (outside (span ∷ rest) 0 md ≡ before ++ after)

place_marker-Kept :
    (md marker : Text) (spans : List (ℕ × ℕ))
    → Placed md 0 spans
    → Kept md marker spans (place_marker md marker spans)
unfolding place_marker
place_marker-Kept md marker [] p = append_marker-newlines md marker
place_marker-Kept md marker ((start, end) ∷ rest) p =
    let (written, left) = replace_from-first md marker start end rest p in
    (take (start - 0) md, outside rest end (drop end md), written, left)

spans-Placed :
    (c : Codec) (md : Text) (spans : List (ℕ × ℕ))
    → marker_spans c md ≡ ok spans
    → Placed md 0 spans
spans-Placed c md spans e = subst (Scanned c md 0) e (marker_spans-Scanned c md)

-- Writing a box's metadata into notes keeps the user's text. In notes without a marker the new
-- marker is appended behind newlines. In notes with markers the new marker is written once, and the
-- text before and behind it is together the text that stood outside the old markers.
pub preserve_metadata-Kept :
    (c : Codec) (md : Text) (m : PboxMetadata) (out : Text) (spans : List (ℕ × ℕ))
    → marker_spans c md ≡ ok spans
    → preserve_metadata c md m ≡ ok out
    → (bytes : Text) × (c.to_vec m ≡ ok bytes) × Kept md (marker_of (c.encode bytes)) spans out
preserve_metadata-Kept c md m out spans e h =
    let (bytes, w, placed) = preserve_parts c md m out spans h e in
    (
      bytes,
      w,
      subst (Kept md (marker_of (c.encode bytes)) spans) placed
          (place_marker-Kept md (marker_of (c.encode bytes)) spans (spans-Placed c md spans e)),
    )

no_newline : All (λ ch. ch ≢ b'\n') marker_prefix
no_newline = omega arith

marker_at_start : (t : Text) → find marker_prefix (marker_prefix ++ t) ≡ some 0
unfolding find starts_with strip_prefix
marker_at_start t = refl

nothing_in_empty : find marker_prefix [] ≡ none
unfolding find starts_with strip_prefix
nothing_in_empty = refl

newlines_only :
    (blank t : Text)
    → All IsNewline blank
    → find marker_prefix (blank ++ (marker_prefix ++ t)) ≡ some (length blank)
newlines_only [] t a = marker_at_start t
newlines_only (x ∷ blank) t (e, a) =
    find_separated marker_prefix [] (blank ++ (marker_prefix ++ t)) x (length blank)
      (rw e no_newline) nothing_in_empty (newlines_only blank t a)
    ∙ ap some (omega arith)

-- Behind text that holds no marker, and at least one newline, a marker is the first one.
newlines_find :
    (md : Text) (x : ℕ) (blank t : Text)
    → All IsNewline (x ∷ blank)
    → find marker_prefix md ≡ none
    → find marker_prefix ((md ++ (x ∷ blank)) ++ (marker_prefix ++ t))
      ≡ some (length (md ++ (x ∷ blank)))
newlines_find md x blank t (e, a) f =
    ap (find marker_prefix) (append_assoc md (x ∷ blank) (marker_prefix ++ t))
    ∙ find_separated marker_prefix md (blank ++ (marker_prefix ++ t)) x (length blank)
        (rw e no_newline) f (newlines_only blank t a)
    ∙ ap some (sym (length-append md (x ∷ blank)))

-- Where the marker stands in the notes that are written.
abbrev Found : Text → Text → Text → Type 0
Found payload out after =
    (before : Text) × (out ≡ before ++ (marker_of payload ++ after))
    × (find marker_prefix (before ++ (marker_of payload ++ after)) ≡ some (length before))
    × (find marker_prefix after ≡ none)

regroup : (a s m : Text) → a ++ (s ++ m) ≡ (a ++ s) ++ (m ++ [])
regroup a s m = sym (append_assoc a s m) ∙ ap (λ t. (a ++ s) ++ t) (sym (append-nil m))

append_marker-Found :
    (md payload : Text)
    → find marker_prefix md ≡ none
    → Found payload (append_marker md (marker_of payload)) []
unfolding append_marker
append_marker-Found [] payload f =
    ([], sym (append-nil (marker_of payload)), marker_at_start _, nothing_in_empty)
append_marker-Found (ch ∷ md) payload f = elim (Bool-cases (ends_with b'\n' (ch ∷ md))) [
  | inl e ↦ (
    (ch ∷ md) ++ codes "\n",
    rw e (regroup (ch ∷ md) (codes "\n") (marker_of payload)),
    newlines_find (ch ∷ md) b'\n' [] _ (refl, tt) f,
    nothing_in_empty,
  )
  | inr e ↦ (
    (ch ∷ md) ++ codes "\n\n",
    rw e (regroup (ch ∷ md) (codes "\n\n") (marker_of payload)),
    newlines_find (ch ∷ md) b'\n' (b'\n' ∷ []) _ (refl, (refl, tt)) f,
    nothing_in_empty,
  )
]

-- A new marker at the place of the first old one is found there.
renew_first :
    (md t : Text) (r : ℕ)
    → find marker_prefix md ≡ some r
    → find marker_prefix (take r md ++ (marker_prefix ++ t)) ≡ some (length (take r md))
renew_first md t r f =
    let (opens, within) = find_sound marker_prefix md r f in
    let (z, e) = starts_with_sound marker_prefix (drop r md) opens in
    let split = ap (λ s. take r md ++ s) (sym e) ∙ take-append-drop r md in
    find_independent marker_prefix (take r md) z t
      (ap (find marker_prefix) split ∙ f ∙ ap some (sym (length-take r md within)))

replace_from-Found :
    (md payload : Text) (start end : ℕ)
    → Placed md 0 ((start, end) ∷ [])
    → Found payload (replace_from md (marker_of payload) 0 0 ((start, end) ∷ [])) (drop end md)
replace_from-Found md payload start end (r, n, f, s, e, e', far, within, last) =
    let here : r ≡ start - 0 = omega arith in
    (
      take (start - 0) md,
      (replace_from-first md (marker_of payload) start end []
            (r, n, f, s, e, e', far, within, last)).0
          ∙ ap (λ t. take (start - 0) md ++ (marker_of payload ++ t))
              (outside_all end (drop end md)),
      renew_first md _ (start - 0) (f ∙ ap some here),
      last,
    )

place_marker-Found :
    (md payload : Text) (spans : List (ℕ × ℕ))
    → length spans ≤ 1
    → Placed md 0 spans
    → (after : Text) × Found payload (place_marker md (marker_of payload) spans) after
unfolding place_marker
place_marker-Found md payload [] h p = ([], append_marker-Found md payload p)
place_marker-Found md payload ((start, end) ∷ []) h p =
    (drop end md, replace_from-Found md payload start end p)
place_marker-Found md payload (_ ∷ _ ∷ _) h p = absurd (omega arith)

-- With one closed marker in the notes, or none, the metadata that is written is the metadata that is
-- read back, given that JSON and base64 are.
pub parse-preserve :
    (c : Codec) (md : Text) (m : PboxMetadata) (out : Text) (spans : List (ℕ × ℕ))
    → IsCodec c
    → marker_spans c md ≡ ok spans
    → length spans ≤ 1
    → preserve_metadata c md m ≡ ok out
    → parse_metadata c out ≡ ok (some m)
parse-preserve c md m out spans k e few h =
    let (bytes, w, placed) = preserve_parts c md m out spans h e in
    let (after, found) =
      place_marker-Found md (c.encode bytes) spans few (spans-Placed c md spans e) in
    let (before, same, first, last) = found in
    ap (parse_metadata c) (sym placed ∙ same) ∙ parse_noted c k before after bytes m w first last
