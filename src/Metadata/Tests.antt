-- ===== src/Metadata/Tests.antt =====
-- Runs of metadata.rs with a codec of a few lines: JSON of one record, and a unary base64.
use mathlib.Core.Logic.{ite, if_pos, if_neg}
use native.Mathlib.Decide.{ℕ_discrete}
use pbox.Base.{
  ℕ, zero, suc, ◌+◌, ◌≡◌, refl, ap, sym, ◌∙◌, true, false, ◌||◌, Option, none, some, [], ◌∷◌, ◌++◌,
  Text, codes, ◌==◌, if◌then◌else◌, replicate, All, All-append, is_alphanumeric, ok, err, find,
  ok-ne-err, starts_with, arith,
}
use pbox.Metadata.{
  PboxMetadata, PboxRecipeProvenance, Codec, IsCodec, marker_of, marker_spans, encode_metadata,
  preserve_metadata, parse_metadata, place_marker, replace_from, spans_from, multiple_markers,
  unterminated_marker,
}
use pbox.Metadata.Spans.{Scanned, marker_spans-Scanned}
use pbox.Metadata.Notes.{Kept, preserve_metadata-Kept, parse-preserve}

abbrev box : PboxMetadata
box = record {
  id = record { value = codes "pbx_t3yzd9y3" };
  vmid = 9000;
  image = none;
  snapshot = none;
  node = some (codes "pve-a");
  recipes = [];
  capabilities = [];
}

PboxRecipeProvenance-discrete : Discrete PboxRecipeProvenance
PboxRecipeProvenance-discrete = hlevel ℕ_discrete

PboxMetadata-discrete : Discrete PboxMetadata
PboxMetadata-discrete = hlevel (ℕ_discrete, PboxRecipeProvenance-discrete)

-- Each byte as as many letters `a` as it says, and a letter `b`.
unary : Text → Text
unary [] = []
unary (n ∷ b) = replicate n b'a' ++ b'b' ∷ unary b

cons? : ℕ → Option Text → Option Text
cons? n none = none
cons? n (some b) = some (n ∷ b)

read_unary : ℕ → Text → Option Text
read_unary n [] = if n == 0 then some [] else none
read_unary n (ch ∷ t) = elim (ch == b'b') [
  | true ↦ cons? n (read_unary 0 t)
  | false ↦ read_unary (n + 1) t
]

abbrev codec : Codec
codec = record {
  JsonError = Unit;
  to_vec = λ m. ite (PboxMetadata-discrete m box) (ok (2 ∷ 0 ∷ [])) (err tt);
  from_slice = λ b. ok box;
  from_str = λ t. err tt;
  encode = unary;
  decode = read_unary 0;
}

read_letters :
    (k n : ℕ) (t : Text) (m : ℕ)
    → n + k ≡ m
    → read_unary n (replicate k b'a' ++ b'b' ∷ t) ≡ cons? m (read_unary 0 t)
unfolding read_unary
read_letters zero n t m e = let e' : n ≡ m = omega arith in ap (λ i. cons? i (read_unary 0 t)) e'
read_letters (suc k) n t m e = read_letters k (n + 1) t m (omega arith)

read_unary-unary : (b : Text) → read_unary 0 (unary b) ≡ some b
unfolding unary cons? read_unary
read_unary-unary [] = refl
read_unary-unary (n ∷ b) =
    read_letters n 0 (unary b) n (omega arith) ∙ ap (cons? n) (read_unary-unary b)

abbrev IsUrlSafe : ℕ → Type 0
IsUrlSafe x = (is_alphanumeric x || x == b'-' || x == b'_') ≡ true

letters_safe : (n : ℕ) → All IsUrlSafe (replicate n b'a')
letters_safe zero = tt
letters_safe (suc n) = (refl, letters_safe n)

unary_safe : (b : Text) → All IsUrlSafe (unary b)
unfolding unary
unary_safe [] = tt
unary_safe (n ∷ b) =
    All-append IsUrlSafe (replicate n b'a') (b'b' ∷ unary b) (letters_safe n) (refl, unary_safe b)

to_vec_box : codec.to_vec box ≡ ok (2 ∷ 0 ∷ [])
to_vec_box = if_pos (PboxMetadata-discrete box box) refl (ok (2 ∷ 0 ∷ [])) (err tt)

json_reads : (m : PboxMetadata) (b : Text) → codec.to_vec m ≡ ok b → codec.from_slice b ≡ ok m
json_reads m b h = elim (PboxMetadata-discrete m box) [
  | yes same ↦ ap ok (sym same)
  | no other ↦
      absurd
        (ok-ne-err (sym h ∙ if_neg (PboxMetadata-discrete m box) other (ok (2 ∷ 0 ∷ [])) (err tt)))
]

codec-IsCodec : IsCodec codec
codec-IsCodec = record {
  json_read = json_reads;
  decode-encode = read_unary-unary;
  url_safe = unary_safe;
}

abbrev notes : Text
notes = codes "User note\n<!-- pbox-meta-v1 ab -->\nmore"

abbrev written : Text
written = codes "User note\n<!-- pbox-meta-v1 aabb -->\nmore"

notes_spans : marker_spans codec notes ≡ ok ((10, 34) ∷ [])
unfolding marker_spans spans_from find starts_with
notes_spans = refl

preserve_notes : preserve_metadata codec notes box ≡ ok written
unfolding preserve_metadata encode_metadata marker_spans spans_from find starts_with place_marker
    replace_from unary
preserve_notes = rw (to_vec_box, preserve_metadata, encode_metadata)

open_notes : marker_spans codec (codes "a <!-- pbox-meta-v1 b") ≡ err unterminated_marker
unfolding marker_spans spans_from find starts_with
open_notes = refl

marker_spans-Scanned_example : Scanned codec notes 0 (marker_spans codec notes)
marker_spans-Scanned_example = marker_spans-Scanned codec notes

preserve_metadata-Kept_example :
    (bytes : Text) × (codec.to_vec box ≡ ok bytes)
    × Kept notes (marker_of (codec.encode bytes)) ((10, 34) ∷ []) written
preserve_metadata-Kept_example =
    preserve_metadata-Kept codec notes box written ((10, 34) ∷ []) notes_spans preserve_notes

parse-preserve_example : parse_metadata codec written ≡ ok (some box)
parse-preserve_example =
    parse-preserve codec notes box written ((10, 34) ∷ []) codec-IsCodec notes_spans (omega arith)
      preserve_notes

-- Two old markers with the halves of an opening marker around the second: once that is taken out the
-- halves meet, and the notes that were written hold two markers.
abbrev split_notes : Text
split_notes = codes "<!-- pbox-meta-v1 ab --><!-- pbox-<!-- pbox-meta-v1 ab -->meta-v1 -->"

split_written : Text
split_written = codes "<!-- pbox-meta-v1 aabb --><!-- pbox-meta-v1 -->"

preserve_split : preserve_metadata codec split_notes box ≡ ok split_written
unfolding preserve_metadata encode_metadata marker_spans spans_from find starts_with place_marker
    replace_from unary split_written
preserve_split = rw (to_vec_box, preserve_metadata, encode_metadata)

parse_split : parse_metadata codec split_written ≡ err multiple_markers
unfolding parse_metadata marker_spans spans_from find starts_with split_written
parse_split = refl
