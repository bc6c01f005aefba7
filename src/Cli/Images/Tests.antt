-- ===== src/Cli/Images/Tests.antt =====
-- Image references, search terms and tags.
use pbox.Base.{
  Option, ◌≡◌, refl, true, none, some, List, [], ◌∷◌, Text, codes, text_eq, trim, trim_start,
  trim_end, starts_with, strip_prefix, find, is_whitespace, is_control, is_ascii_control, take,
  split, split_once, rfind, rsplit_once, parse_unsigned, parse_digits, ok, err, All,
}
use pbox.Pve.{validate_oci_reference}
use pbox.Cli.Images.{
  ImageReference, tag_and_digest, bad_query, is_registry_host, is_host_part, host_and_port,
  is_bad_host, is_bad_port, validate_name_component, next_place, valid_from,
  valid_repository_component, validate_repository, is_tag, validate_tag, has_tag, digest_parts,
  tag_parts, parts_of, locate, parse, canonical, is_oci_reference, oci_reference_for_image,
}
use pbox.Cli.Images.Terms.{image_search_term, parse_local_oci_tags}
use pbox.Cli.Images.Characters.{is_safe}
use pbox.Cli.Images.Valid.{IsPinned, parse-validate_oci_reference}
use pbox.Cli.Images.Tags.{Increasing, has_tag_in, parse_local_oci_tags-listed}

abbrev debian : ImageReference
debian = record {
  registry = codes "docker.io";
  repository = codes "library/debian";
  tag = some (codes "12");
  digest = none;
}

debian_parsed : parse (codes " docker://debian:12 ") ≡ ok debian
unfolding parse trim trim_start trim_end is_whitespace strip_prefix is_ascii_control parts_of
    split_once tag_parts has_tag rfind rsplit_once validate_tag is_tag split locate
    validate_name_component host_and_port is_bad_host is_host_part is_bad_port validate_repository
    valid_repository_component valid_from next_place
debian_parsed = refl

with_port :
    parse (codes "localhost:5000/team/app")
    ≡ ok (record {
      registry = codes "localhost:5000";
      repository = codes "team/app";
      tag = some (codes "latest");
      digest = none;
    })
unfolding parse trim trim_start trim_end is_whitespace strip_prefix is_ascii_control parts_of
    split_once tag_parts has_tag rfind split locate is_registry_host text_eq validate_name_component
    host_and_port rsplit_once is_bad_host is_host_part is_bad_port parse_unsigned parse_digits
    validate_repository valid_repository_component valid_from next_place
with_port = refl

both : parse (codes "debian:12@sha256:00") ≡ err tag_and_digest
unfolding parse trim trim_start trim_end is_whitespace strip_prefix is_ascii_control parts_of
    split_once digest_parts has_tag rfind
both = refl

template_name : oci_reference_for_image (codes "debian-12") ≡ codes "debian:12"
unfolding oci_reference_for_image trim trim_start trim_end is_whitespace is_oci_reference
    starts_with strip_prefix has_tag rfind rsplit_once
template_name = refl

option_refused : image_search_term (codes "--help") (codes "docker.io") ≡ err bad_query
unfolding image_search_term trim trim_start trim_end is_whitespace starts_with strip_prefix
option_refused = refl

term : image_search_term (codes " debian ") (codes "docker.io/") ≡ ok (codes "docker.io/debian")
unfolding image_search_term trim trim_start trim_end is_whitespace is_control starts_with
    strip_prefix find
term = refl

abbrev reply : Text → Option (List Text)
reply value = some (codes "12" ∷ codes "11" ∷ codes "12" ∷ [])

parse-validate_oci_reference_example :
    IsPinned (some (codes "12")) none
    × All (λ c. is_safe c ≡ true) (canonical debian)
    × (validate_oci_reference (canonical debian) ≡ ok tt)
parse-validate_oci_reference_example =
    parse-validate_oci_reference (codes " docker://debian:12 ") debian debian_parsed

parse_local_oci_tags-listed_example :
    (whole : List Text) × Increasing whole
    × ((x : Text) → has_tag_in whole x ≡ has_tag_in (codes "12" ∷ codes "11" ∷ codes "12" ∷ []) x)
    × (parse_local_oci_tags reply [] 5 ≡ ok (take 5 whole))
parse_local_oci_tags-listed_example =
    parse_local_oci_tags-listed reply [] 5 (codes "12" ∷ codes "11" ∷ codes "12" ∷ []) refl
