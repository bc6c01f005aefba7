-- ===== src/Metadata.antt =====
-- crates/pbox-core/src/metadata.rs: the record that pbox keeps of a box in the Markdown notes of its
-- container, between `<!-- pbox-meta-v1` and `-->`. A text is its characters, and offsets count them
-- (the source's count bytes; they serve only to cut the text at the markers, which are ASCII).
-- The crates base64 and serde_json are the section parameter `c : Codec`.
pub mod Spans
pub mod Outside
pub mod Roundtrip
pub mod Notes
mod Tests
use pbox.Base.{
  ℕ, zero, suc, ◌+◌, ◌-◌, ◌≡◌, Bool, true, false, Option, none, some, List, [], ◌∷◌, ◌++◌, Text,
  codes, find, strip_prefix, strip_suffix, trim, if◌then◌else◌, length, take, drop, All, Result, ok,
  err, ◌>>=◌, ◌>>◌, ok_or, ends_with, is_empty, is_alphanumeric, ◌==◌, ◌||◌, is_whitespace,
}
use pbox.Id.{PboxId}

abbrev pub marker_prefix : Text
marker_prefix = codes "<!-- pbox-meta-v1"

abbrev pub marker_suffix : Text
marker_suffix = codes "-->"

pub record PboxRecipeProvenance : Type 0 where
  pub id : Text
  pub repository : Text
  pub revision : Text
  pub applied_at : Option Text
  pub result : Option Text

pub record PboxMetadata : Type 0 where
  pub id : PboxId
  pub vmid : ℕ
  pub image : Option Text
  pub snapshot : Option Text
  pub node : Option Text
  pub recipes : List PboxRecipeProvenance
  pub capabilities : List Text

-- `PboxMetadata::new` and `with_node`.
pub new : PboxId → ℕ → PboxMetadata
new id vmid = record {
  id = id;
  vmid = vmid;
  image = none;
  snapshot = none;
  node = none;
  recipes = [];
  capabilities = [];
}

pub with_node : PboxMetadata → Text → PboxMetadata
with_node m node = record m { node = some node }

-- `serde_json::to_vec`, `from_slice`, `from_str`, and `URL_SAFE_NO_PAD`'s `encode` and `decode`.
pub record Codec : Type 1 where
  pub JsonError : Type 0
  pub to_vec : PboxMetadata → Result JsonError Text
  pub from_slice : Text → Result JsonError PboxMetadata
  pub from_str : Text → Result JsonError PboxMetadata
  pub encode : Text → Text
  pub decode : Text → Option Text

-- The last error is the model's: the bound on the rounds of a loop was too low.
pub data MetadataError (c : Codec) : Type 0 where
  unterminated_marker multiple_markers out_of_fuel : MetadataError c
  invalid_json : c.JsonError → MetadataError c

abbrev pub marker_of : Text → Text
marker_of payload = marker_prefix ++ (codes " " ++ (payload ++ (codes " " ++ marker_suffix)))

-- `strip_prefix(…).and_then(strip_suffix).map(trim).unwrap_or_default()`.
payload_of : Text → Text
payload_of marker = elim (strip_prefix marker_prefix marker) [
  | none ↦ []
  | some value ↦ elim (strip_suffix marker_suffix value) [ none ↦ [] | some inner ↦ trim inner ]
]

-- The notes end in a blank line, then the marker.
append_marker : Text → Text → Text
append_marker markdown marker =
    if is_empty markdown
    then marker
    else if ends_with b'\n' markdown
    then markdown ++ (codes "\n" ++ marker)
    else markdown ++ (codes "\n\n" ++ marker)

-- The loop of `preserve_metadata`, from the index and the cursor on.
pub replace_from : Text → Text → ℕ → ℕ → List (ℕ × ℕ) → Text
replace_from markdown marker index cursor [] = drop cursor markdown
replace_from markdown marker index cursor ((start, end) ∷ rest) =
    take (start - cursor) (drop cursor markdown)
    ++ ((if index == 0 then marker else []) ++ replace_from markdown marker (index + 1) end rest)

place_marker : Text → Text → List (ℕ × ℕ) → Text
place_marker markdown marker [] = append_marker markdown marker
place_marker markdown marker (span ∷ spans) = replace_from markdown marker 0 0 (span ∷ spans)

module _ (c : Codec) where
  abbrev json {ℓ} : {A : Type ℓ} → Result c.JsonError A → Result (MetadataError c) A
  json (ok a) = ok a
  json (err e) = err (invalid_json e)

  pub encode_metadata : PboxMetadata → Result (MetadataError c) Text
  encode_metadata metadata = do bytes ← json (c.to_vec metadata); ok (marker_of (c.encode bytes))

  -- The loop of `marker_spans`.
  pub spans_from : ℕ → Text → ℕ → Result (MetadataError c) (List (ℕ × ℕ))
  spans_from zero markdown search_from = err out_of_fuel
  spans_from (suc fuel) markdown search_from =
      elim (find marker_prefix (drop search_from markdown)) [
        | none ↦ ok []
        | some relative_start ↦ do
          let start = search_from + relative_start
          relative_end ← ok_or (find marker_suffix (drop start markdown)) unterminated_marker
          let end = start + relative_end + length marker_suffix
          rest ← spans_from fuel markdown end
          ok ((start, end) ∷ rest)
      ]

  pub marker_spans : Text → Result (MetadataError c) (List (ℕ × ℕ))
  marker_spans markdown = spans_from (length markdown + 1) markdown 0

  pub parse_span : Text → ℕ × ℕ → Result (MetadataError c) PboxMetadata
  parse_span markdown (start, end) =
      let payload = payload_of (take (end - start) (drop start markdown)) in
      elim (c.decode payload) [
        | some decoded ↦ json (c.from_slice decoded)
        | none ↦ json (c.from_str payload)
      ]

  abbrev parse_spans : Text → List (ℕ × ℕ) → Result (MetadataError c) (Option PboxMetadata)
  parse_spans markdown [] = ok none
  parse_spans markdown (span ∷ []) = do m ← parse_span markdown span; ok (some m)
  parse_spans markdown (_ ∷ _ ∷ _) = err multiple_markers

  pub parse_metadata : Text → Result (MetadataError c) (Option PboxMetadata)
  parse_metadata markdown = do spans ← marker_spans markdown; parse_spans markdown spans

  pub preserve_metadata : Text → PboxMetadata → Result (MetadataError c) Text
  preserve_metadata markdown metadata = do
    marker ← encode_metadata metadata
    spans ← marker_spans markdown
    ok (place_marker markdown marker spans)

  -- What the two crates document: JSON and base64 are read back as they were written, and URL-safe
  -- base64 without padding is written in letters, digits, hyphens and underscores.
  pub record IsCodec : Type 0 where
    pub json_read : (m : PboxMetadata) (b : Text) → c.to_vec m ≡ ok b → c.from_slice b ≡ ok m
    pub decode-encode : (b : Text) → c.decode (c.encode b) ≡ some b
    pub url_safe :
        (b : Text) → All (λ x. (is_alphanumeric x || x == b'-' || x == b'_') ≡ true) (c.encode b)
