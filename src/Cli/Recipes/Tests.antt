-- ===== src/Cli/Recipes/Tests.antt =====
-- Recipe repositories, paths and capabilities.
use pbox.Base.{
  ◌≡◌, refl, true, some, [], ◌∷◌, ◌++◌, codes, text_eq, starts_with, strip_prefix, strip_suffix,
  ends_with, find, trim, trim_start, trim_end, is_whitespace, is_control, split, ok, err,
}
use pbox.Config.Checks.{contains, authority_of, is_transport}
use pbox.Cli.Recipes.{
  other_transport, embedded_credentials, outside_repository, bad_capability, without_suffix,
  playbook_id, normalise_relative_path, is_capability, check_capabilities,
  validate_recipe_capabilities, has_unsafe_git_index_flags, check_authority,
  validate_repository_reference, is_bad_reference, validate_recipe_reference, is_short, expanded,
  normalise_repository, RecipeRepository, new_repository,
}
use pbox.Cli.Recipes.Sources.Accepted.{IsAccepted, new_repository-IsAccepted}

abbrev short : RecipeRepository
short = record { repository = codes "https://github.com/me/recipes.git"; reference = codes "main" }

short_expanded : new_repository (some (codes " me/recipes ")) [] ≡ ok short
unfolding new_repository trim trim_start trim_end is_whitespace is_control
    validate_repository_reference contains find starts_with strip_prefix validate_recipe_reference
    is_bad_reference ends_with normalise_repository is_short expanded strip_suffix text_eq
short_expanded = refl

plain_http : validate_repository_reference (codes "http://example.org/r") ≡ err other_transport
unfolding validate_repository_reference contains find starts_with strip_prefix check_authority
    is_transport text_eq authority_of
plain_http = refl

with_password :
    validate_repository_reference (codes "https://me:pw@example.org/r") ≡ err embedded_credentials
unfolding validate_repository_reference contains find starts_with strip_prefix check_authority
    is_transport text_eq authority_of
with_password = refl

web_playbook :
    playbook_id (codes "playbooks" ∷ codes "web" ∷ codes "nginx.yml" ∷ []) ≡ ok (codes "web/nginx")
unfolding playbook_id without_suffix strip_suffix text_eq
web_playbook = refl

climbing : normalise_relative_path (codes "roles/../../etc") ≡ err outside_repository
unfolding normalise_relative_path starts_with strip_prefix split text_eq
climbing = refl

spaced :
    validate_recipe_capabilities (codes "gpu" ∷ codes "a b" ∷ [])
    ≡ err (bad_capability (codes "a b"))
unfolding validate_recipe_capabilities check_capabilities is_capability
spaced = refl

skipped_worktree : has_unsafe_git_index_flags (codes "H a" ++ (10 ∷ codes "S b")) ≡ true
unfolding has_unsafe_git_index_flags split
skipped_worktree = refl

new_repository-IsAccepted_example : IsAccepted short
new_repository-IsAccepted_example =
    new_repository-IsAccepted (some (codes " me/recipes ")) [] short short_expanded
