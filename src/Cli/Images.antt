-- ===== src/Cli/Images.antt =====
-- crates/pbox-cli/src/images.rs: references of OCI images, search terms and lists of tags. Hashing and
-- JSON are parameters; running podman and skopeo and the requests to PVE are left out.
pub mod Characters
pub mod Valid
pub mod Terms
pub mod Search
pub mod Tags
mod Tests
use pbox.Base.{
  ℕ, ◌+◌, ◌-◌, ◌/◌, ◌%◌, ◌≡◌, Bool, true, false, not, ◌&&◌, ◌||◌, ◌==◌, ltb, leb, if◌then◌else◌,
  Option, none, some, List, [], ◌∷◌, ◌++◌, map, Text, codes, text_eq, text_lt, starts_with,
  strip_prefix, ends_with, find, trim, is_empty, is_digit, is_lowercase, is_alphanumeric,
  is_whitespace, is_ascii_control, is_control, to_ascii_lowercase, all, any, take, drop, length,
  split, split_once, rfind, rsplit_once, join, parse_unsigned, Result, ok, err, ◌>>=◌, ◌>>◌,
  fail_if, ok_or,
}

pub record ImageReference : Type 0 where
  pub registry : Text
  pub repository : Text
  pub tag : Option Text
  pub digest : Option Text

pub data ImageError : Type 0 where
  empty_reference invalid_reference tag_and_digest invalid_component invalid_port : ImageError
  invalid_repository invalid_tag not_sha256 invalid_digest : ImageError
  bad_query bad_registry bad_tags : ImageError

abbrev pub has_character : ℕ → Text → Bool
has_character c = any (λ d. d == c)

unfoldable pub is_registry_host : Text → Bool
is_registry_host value =
    text_eq value (codes "localhost") || (has_character b'.' value || has_character b':' value)

-- The first and the last byte of a part are letters or digits, and the others may be hyphens.
abbrev pub ends_well : Text → Bool
ends_well [] = false
ends_well (c ∷ []) = is_alphanumeric c
ends_well (c ∷ d ∷ t) = ends_well (d ∷ t)

unfoldable pub is_host_part : Text → Bool
is_host_part [] = false
is_host_part (c ∷ t) =
    is_alphanumeric c && (ends_well (c ∷ t) && all (λ d. is_alphanumeric d || d == b'-') (c ∷ t))

abbrev pub cut_or_whole : Text → Option (Text × Text) → Text × Option Text
cut_or_whole value none = (value, none)
cut_or_whole value (some (host, port)) = (host, some port)

unfoldable pub host_and_port : Text → Text × Option Text
host_and_port value = cut_or_whole value (rsplit_once b':' value)

unfoldable pub is_bad_host : Text → Bool
is_bad_host host = is_empty host || any (λ part. not (is_host_part part)) (split b'.' host)

abbrev positive : Option ℕ → Bool
positive none = false
positive (some n) = ltb 0 n

unfoldable pub is_bad_port : Option Text → Bool
is_bad_port none = false
is_bad_port (some port) = not (positive (parse_unsigned 65535 port))

unfoldable pub validate_name_component : Text → Result ImageError Text
validate_name_component value = do
  fail_if (is_bad_host ((host_and_port value).0)) invalid_component
  fail_if (is_bad_port ((host_and_port value).1)) invalid_port
  ok (to_ascii_lowercase value)

-- Where the loop of `valid_repository_component` is: behind a letter or a digit, behind one underscore,
-- behind hyphens, or behind a separator that a letter or a digit must follow.
pub data Place : Type 0 where
  letter underscore hyphens separator : Place

abbrev pub to_letter : ℕ → Option Place
to_letter c = if is_alphanumeric c then some letter else none

unfoldable pub next_place : Place → ℕ → Option Place
next_place letter c =
    if is_alphanumeric c
    then some letter
    else if c == b'.'
    then some separator
    else if c == b'_'
    then some underscore
    else if c == b'-'
    then some hyphens
    else none
next_place underscore c = if c == b'_' then some separator else to_letter c
next_place hyphens c = if c == b'-' then some hyphens else to_letter c
next_place separator c = to_letter c

abbrev pub is_letter : Place → Bool
is_letter letter = true
is_letter underscore = false
is_letter hyphens = false
is_letter separator = false

unfoldable pub valid_from : Place → Text → Bool
valid_from place [] = is_letter place
valid_from place (c ∷ t) = elim (next_place place c) [
  | none ↦ false
  | some place ↦ valid_from place t
]

unfoldable pub valid_repository_component : Text → Bool
valid_repository_component [] = false
valid_repository_component (c ∷ t) = is_alphanumeric c && valid_from letter t

unfoldable pub validate_repository : Text → Result ImageError Text
validate_repository value = do
  fail_if (is_empty value || any (λ part. not (valid_repository_component part)) (split b'/' value))
      invalid_repository
  ok value

abbrev pub is_tag_character : ℕ → Bool
is_tag_character c = is_alphanumeric c || (c == b'.' || (c == b'-' || c == b'_'))

abbrev pub starts_tag : Text → Bool
starts_tag [] = false
starts_tag (c ∷ t) = is_alphanumeric c || c == b'_'

unfoldable pub is_tag : Text → Bool
is_tag value =
    not (is_empty value)
    && (leb (length value) 128 && (all is_tag_character value && starts_tag value))

unfoldable pub validate_tag : Text → Result ImageError Text
validate_tag value = do fail_if (not (is_tag value)) invalid_tag; ok value

abbrev pub is_hex : ℕ → Bool
is_hex c = is_digit c || ((leb b'a' c && leb c b'f') || (leb b'A' c && leb c b'F'))

unfoldable pub validate_digest : Text → Result ImageError Text
validate_digest value = do
  hex ← ok_or (strip_prefix (codes "sha256:") value) not_sha256
  fail_if (not (length hex == 64 && all is_hex hex)) invalid_digest
  ok (codes "sha256:" ++ hex)

abbrev after_slash : Option ℕ → Option ℕ → Bool
after_slash none slash = false
after_slash (some colon) none = ltb 0 colon
after_slash (some colon) (some slash) = ltb slash colon

-- Whether a colon stands behind the last slash; without a slash the first byte does not count.
unfoldable pub has_tag : Text → Bool
has_tag name = after_slash (rfind b':' name) (rfind b'/' name)

-- The name of a reference, its tag and its digest.
pub record Parts : Type 0 where
  pub name : Text
  pub tag : Option Text
  pub digest : Option Text

unfoldable pub digest_parts : Text → Text → Result ImageError Parts
digest_parts name digest = do
  fail_if (is_empty digest || has_character b'@' digest) invalid_reference
  fail_if (has_tag name) tag_and_digest
  digest ← validate_digest digest
  ok (record { name = name; tag = none; digest = some digest })

abbrev pub tagged_parts : Text → Bool → Result ImageError Parts
tagged_parts value false = ok (record { name = value; tag = some (codes "latest"); digest = none })
tagged_parts value true = do
  (name, tag) ← ok_or (rsplit_once b':' value) invalid_reference
  tag ← validate_tag tag
  ok (record { name = name; tag = some tag; digest = none })

unfoldable pub tag_parts : Text → Result ImageError Parts
tag_parts value = tagged_parts value (has_tag value)

abbrev pub cut_parts : Text → Option (Text × Text) → Result ImageError Parts
cut_parts value none = tag_parts value
cut_parts value (some (name, digest)) = digest_parts name digest

unfoldable pub parts_of : Text → Result ImageError Parts
parts_of value = cut_parts value (split_once b'@' value)

abbrev pub docker_io : Text
docker_io = codes "docker.io"

abbrev in_library : Text → Text
in_library name = codes "library/" ++ name

unfoldable pub locate : Text → List Text → Text × Text
locate name [] = (docker_io, in_library name)
locate name (first ∷ []) = (docker_io, in_library name)
locate name (first ∷ next ∷ parts) =
    let repository = join (b'/' ∷ []) (next ∷ parts) in
    if is_registry_host first
    then (
      first,
      if text_eq (to_ascii_lowercase first) docker_io && not (has_character b'/' repository)
          then in_library repository
          else repository,
    )
    else (docker_io, name)

abbrev pub without_scheme : Text → Text
without_scheme trimmed = elim (strip_prefix (codes "docker://") trimmed) [
  | none ↦ trimmed
  | some value ↦ value
]

unfoldable pub parse : Text → Result ImageError ImageReference
parse input =
    let value = without_scheme (trim input) in
    do
      fail_if (is_empty value || any is_ascii_control value) empty_reference
      parts ← parts_of value
      registry ← validate_name_component ((locate parts.name (split b'/' parts.name)).0)
      repository ←
          validate_repository (to_ascii_lowercase ((locate parts.name (split b'/' parts.name)).1))
      ok (record {
        registry = registry;
        repository = repository;
        tag = parts.tag;
        digest = parts.digest;
      })

unfoldable pub full_repository : ImageReference → Text
full_repository reference = reference.registry ++ (b'/' ∷ reference.repository)

abbrev pub ending : Option Text → Option Text → Text
ending tag (some digest) = b'@' ∷ digest
ending (some tag) none = b':' ∷ tag
ending none none = codes ":latest"

unfoldable pub canonical : ImageReference → Text
canonical reference = full_repository reference ++ ending reference.tag reference.digest

abbrev lower_digit : ℕ → ℕ
lower_digit n = if ltb n 10 then b'0' + n else b'a' + (n - 10)

abbrev pub hex_lower : Text → Text
hex_lower [] = []
hex_lower (byte ∷ bytes) = lower_digit (byte / 16) ∷ lower_digit (byte % 16) ∷ hex_lower bytes

unfoldable pub filename : (Text → Text) → ImageReference → Text
filename sha256 reference = codes "pbox-oci-" ++ hex_lower (sha256 (canonical reference))

unfoldable pub is_oci_reference : Text → Bool
is_oci_reference input =
    let value = trim input in
    starts_with (codes "docker://") value
    || (has_character b'/' value
        || (has_character b'@' value
            || (has_tag value && elim (rfind b':' value) [
              | none ↦ false
              | some at ↦ ltb (at + 1) (length value)
            ])))

abbrev is_version : Text → Bool
is_version tag = not (is_empty tag) && all (λ c. is_digit c || c == b'.') tag

unfoldable pub oci_reference_for_image : Text → Text
oci_reference_for_image input =
    let value = trim input in
    if is_oci_reference value then value else elim (rsplit_once b'-' value) [
      | none ↦ value
      | some (repository, tag) ↦
          if not (is_empty repository) && is_version tag then repository ++ (b':' ∷ tag) else value
    ]
