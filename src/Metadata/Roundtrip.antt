-- ===== src/Metadata/Roundtrip.antt =====
-- A marker that `encode_metadata` wrote is found whole and read back.
use pbox.Base.{
  ℕ, suc, ◌+◌, ◌-◌, ◌≡◌, ◌≢◌, refl, ap, sym, ◌∙◌, Bool, true, false, ◌||◌, none, some, [], ◌∷◌,
  ◌++◌, append_assoc, Text, codes, find, starts_with, strip_prefix, strip_prefix-append,
  strip_suffix, strip_suffix-append, trim, trim-Solid, Solid, is_whitespace, is_alphanumeric, ◌==◌,
  length, take, drop, drop-append, drop-parts, take-parts, length-append, All, All-append, ok,
  arith,
}
use pbox.Metadata.{
  Codec, IsCodec, PboxMetadata, marker_prefix, marker_suffix, marker_of, spans_from, marker_spans,
  payload_of, parse_span, parse_metadata,
}
use pbox.Metadata.Spans.{prepend, spans_stop, spans_step}

abbrev pub Unclosed : Text → Type 0
Unclosed = All (λ x. x ≢ b'>')

abbrev is_url_safe : ℕ → Bool
is_url_safe x = is_alphanumeric x || x == b'-' || x == b'_'

unclosed_char : (x : ℕ) → is_url_safe x ≡ true → x ≢ b'>'
unclosed_char x h e = ground arith

solid_char : (x : ℕ) → is_url_safe x ≡ true → is_whitespace x ≡ false
unfolding is_whitespace
solid_char x h = ground arith

All-map {κ μ} :
    {P : ℕ → Type κ} {Q : ℕ → Type μ} (f : (x : ℕ) → P x → Q x) (t : Text) → All P t → All Q t
All-map f [] a = tt
All-map f (x ∷ t) (h, a) = (f x h, All-map f t a)

-- The first closing marker, behind text that does not hold its last character.
find_suffix :
    (w r : Text) → Unclosed w → find marker_suffix (w ++ (marker_suffix ++ r)) ≡ some (length w)
unfolding find starts_with strip_prefix
find_suffix [] r a = refl
find_suffix (x ∷ []) r a = ground arith
find_suffix (x ∷ y ∷ []) r a = ground (arith, find_suffix (y ∷ []) r a.1)
find_suffix (x ∷ y ∷ z ∷ w) r a = ground (arith, find_suffix (y ∷ z ∷ w) r a.1)

-- The part of a marker between its two ends.
abbrev body : Text → Text
body payload = codes " " ++ (payload ++ codes " ")

marker_lem : (payload : Text) → marker_of payload ≡ marker_prefix ++ (body payload ++ marker_suffix)
marker_lem payload =
    ap (λ t. marker_prefix ++ (b' ' ∷ t)) (sym (append_assoc payload (codes " ") marker_suffix))

payload_of_parts :
    (m v w : Text)
    → strip_prefix marker_prefix m ≡ some v
    → strip_suffix marker_suffix v ≡ some w
    → payload_of m ≡ trim w
unfolding payload_of
payload_of_parts m v w e e' = rw (e, payload_of, e')

payload_of-marker_of : (payload : Text) → Solid payload → payload_of (marker_of payload) ≡ payload
payload_of-marker_of payload s =
    ap payload_of (marker_lem payload)
    ∙ payload_of_parts _ (body payload ++ marker_suffix) (body payload)
        (strip_prefix-append marker_prefix (body payload ++ marker_suffix))
        (strip_suffix-append marker_suffix (body payload))
    ∙ trim-Solid payload s

-- Up to its closing marker, a marker with an unclosed payload is unclosed.
marker-Unclosed : (payload : Text) → Unclosed payload → Unclosed (marker_prefix ++ body payload)
marker-Unclosed payload u =
    All-append (λ x. x ≢ b'>') marker_prefix (body payload) (omega arith)
      (omega arith, All-append (λ x. x ≢ b'>') payload (codes " ") u (omega arith))

module _ (a payload b : Text) where
  abbrev noted : Text
  noted = a ++ (marker_of payload ++ b)

  noted_tail : drop (length a) noted ≡ marker_of payload ++ b
  noted_tail = drop-append a (marker_of payload ++ b)

  -- The marker's length, without its last three characters.
  abbrev opening : Text
  opening = marker_prefix ++ body payload

  closed_form : marker_of payload ++ b ≡ opening ++ (marker_suffix ++ b)
  closed_form =
      ap (λ t. t ++ b)
        (marker_lem payload ∙ sym (append_assoc marker_prefix (body payload) marker_suffix))
      ∙ append_assoc opening marker_suffix b

  closes : Unclosed payload → find marker_suffix (drop (0 + length a) noted) ≡ some (length opening)
  closes u =
      let e : 0 + length a ≡ length a = omega arith in
      ap (λ i. find marker_suffix (drop i noted)) e
      ∙ ap (find marker_suffix) (noted_tail ∙ closed_form)
      ∙ find_suffix opening b (marker-Unclosed payload u)

  length-marker : length (marker_of payload) ≡ length opening + 3
  length-marker =
      ap length (marker_lem payload ∙ sym (append_assoc marker_prefix (body payload) marker_suffix))
      ∙ length-append opening marker_suffix

  behind : drop (0 + length a + length opening + 3) noted ≡ b
  behind = drop-parts a (marker_of payload) b _ (omega (arith, length-marker))

  cut :
      take (0 + length a + length opening + 3 - (0 + length a)) (drop (0 + length a) noted)
      ≡ marker_of payload
  cut =
      take-parts a (marker_of payload) b (0 + length a) _ (omega arith)
        (omega (arith, length-marker))

parse_span_of :
    (c : Codec) (md : Text) (start end : ℕ) (p d : Text) (m : PboxMetadata)
    → payload_of (take (end - start) (drop start md)) ≡ p
    → c.decode p ≡ some d
    → c.from_slice d ≡ ok m
    → parse_span c md (start, end) ≡ ok m
unfolding parse_span
parse_span_of c md start end p d m e e' e'' = rw (e, parse_span, e', e'')

parse_metadata_of :
    (c : Codec) (md : Text) (span : ℕ × ℕ) (m : PboxMetadata)
    → marker_spans c md ≡ ok (span ∷ [])
    → parse_span c md span ≡ ok m
    → parse_metadata c md ≡ ok (some m)
unfolding parse_metadata
parse_metadata_of c md span m e e' = rw (e, parse_metadata, e')

-- A text has room for two rounds of the loop, if it is not empty.
marker_spans_fuel :
    (c : Codec) (md : Text) (n : ℕ)
    → length md ≡ suc n
    → marker_spans c md ≡ spans_from c (suc (suc n)) md 0
unfolding marker_spans
marker_spans_fuel c md n e =
    let e' : length md + 1 ≡ suc (suc n) = omega arith in ap (λ f. spans_from c f md 0) e'

module _ (c : Codec) (k : IsCodec c) (a b : Text) (bytes : Text) (m : PboxMetadata) where
  abbrev payload : Text
  payload = c.encode bytes

  one_span :
      (f : ℕ)
      → find marker_prefix (noted a payload b) ≡ some (length a)
      → find marker_prefix b ≡ none
      → spans_from c (suc (suc f)) (noted a payload b) 0
        ≡ ok ((0 + length a, 0 + length a + length (opening a payload b) + 3) ∷ [])
  one_span f found last =
      spans_step c (suc f) (noted a payload b) 0 (length a) (length (opening a payload b)) found
        (closes a payload b (All-map unclosed_char payload (k.url_safe bytes)))
      ∙ ap (prepend _) (
          spans_stop c f (noted a payload b) _
            (ap (find marker_prefix) (behind a payload b) ∙ last))

  read_span :
      c.to_vec m ≡ ok bytes
      → parse_span c
          (noted a payload b)
          (0 + length a, 0 + length a + length (opening a payload b) + 3)
        ≡ ok m
  read_span e =
      parse_span_of c (noted a payload b) _ _ payload bytes m
        (ap payload_of (cut a payload b)
          ∙ payload_of-marker_of payload (All-map solid_char payload (k.url_safe bytes)))
        (k.decode-encode bytes) (k.json_read m bytes e)

  pub parse_noted :
      c.to_vec m ≡ ok bytes
      → find marker_prefix (a ++ (marker_of payload ++ b)) ≡ some (length a)
      → find marker_prefix b ≡ none
      → parse_metadata c (a ++ (marker_of payload ++ b)) ≡ ok (some m)
  parse_noted e found last =
      let long : suc (length (noted a payload b) - 1) ≡ length (noted a payload b) =
        omega (arith, length-append a (marker_of payload ++ b)) in
      parse_metadata_of c (noted a payload b) _ m
        (marker_spans_fuel c (noted a payload b) (length (noted a payload b) - 1) (sym long)
          ∙ one_span (length (noted a payload b) - 1) found last)
        (read_span e)
