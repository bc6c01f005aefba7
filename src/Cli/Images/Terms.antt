-- ===== src/Cli/Images/Terms.antt =====
-- crates/pbox-cli/src/images.rs: the terms of an image search, and the lists of tags.
use pbox.Base.{
  ℕ, Bool, true, false, not, ◌&&◌, ◌||◌, ◌==◌, if◌then◌else◌, Option, none, some, List, [], ◌∷◌,
  ◌++◌, Text, codes, text_eq, text_lt, starts_with, find, trim, is_empty, is_whitespace, is_control,
  any, take, split_once, Result, ok, ◌>>=◌, ◌>>◌, fail_if, ok_or,
}
use pbox.Cli.Images.{ImageError, bad_query, bad_registry, bad_tags, has_character, is_registry_host}

-- What a search may not start with or hold.
abbrev pub is_unfit : Text → Bool
is_unfit value =
    is_empty value
    || (starts_with (codes "-") value || (any is_whitespace value || any is_control value))

abbrev pub trim_slashes : Text → Text
trim_slashes [] = []
trim_slashes (c ∷ t) =
    let rest = trim_slashes t in if is_empty rest && c == b'/' then [] else c ∷ rest

unfoldable pub is_registry_search : Text → Bool
is_registry_search value =
    not (has_character b'/' (trim_slashes value)) && is_registry_host (trim_slashes value)

abbrev pub before_slash : Text → Text
before_slash query = elim (split_once b'/' query) [ none ↦ query | some (first, rest) ↦ first ]

abbrev pub contains_scheme : Text → Bool
contains_scheme query = elim (find (codes "://") query) [ none ↦ false | some at ↦ true ]

abbrev pub qualified : Bool → Text → Text → Result ImageError Text
qualified true registry query = ok query
qualified false registry query = do
  fail_if (is_unfit registry || has_character b'/' registry) bad_registry
  ok (registry ++ (b'/' ∷ query))

unfoldable pub image_search_term : Text → Text → Result ImageError Text
image_search_term query registry =
    let query = trim query in
    let registry = trim_slashes registry in
    do
      fail_if (is_unfit query || contains_scheme query) bad_query
      qualified (has_character b'/' query && is_registry_host (before_slash query)) registry query

abbrev pub insert_sorted : Text → List Text → List Text
insert_sorted tag [] = tag ∷ []
insert_sorted tag (other ∷ tags) =
    let rest = insert_sorted tag tags in
    if text_lt other tag then other ∷ rest else tag ∷ other ∷ tags

abbrev pub sort : List Text → List Text
sort [] = []
sort (tag ∷ tags) = insert_sorted tag (sort tags)

-- Of equal tags that follow one another, the first stays.
unfoldable pub dedup : List Text → List Text
dedup [] = []
dedup (tag ∷ []) = tag ∷ []
dedup (tag ∷ next ∷ tags) =
    let rest = dedup (next ∷ tags) in if text_eq tag next then rest else tag ∷ rest

unfoldable pub listed_tags : ℕ → List Text → List Text
listed_tags limit tags = take limit (dedup (sort tags))

-- The JSON of the reply is a parameter.
unfoldable pub parse_local_oci_tags :
    (Text → Option (List Text)) → Text → ℕ → Result ImageError (List Text)
parse_local_oci_tags from_str value limit = do
  tags ← ok_or (from_str value) bad_tags
  ok (listed_tags limit tags)
