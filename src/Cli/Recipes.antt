-- ===== src/Cli/Recipes.antt =====
-- crates/pbox-cli/src/recipes.rs: the checks of a recipe repository and its paths. A relative path is
-- the list of its components; reading the repository and running Git are left out.
pub mod Sources
mod Tests
use pbox.Base.{
  ℕ, ◌+◌, ◌≡◌, Bool, true, false, not, ◌&&◌, ◌||◌, ◌==◌, ltb, leb, if◌then◌else◌, Option, none,
  some, List, [], ◌∷◌, ◌++◌, Text, codes, text_eq, starts_with, strip_prefix, strip_suffix,
  ends_with, find, trim, is_empty, is_alphanumeric, is_whitespace, is_control, to_ascii_lowercase,
  all, any, take, drop, length, split, rsplit_once, join, Result, ok, err, ◌>>=◌, ◌>>◌, fail_if,
}
use pbox.Config.Checks.{contains, authority_of, is_transport}

pub data RecipeError : Type 0 where
  unnamed_playbook outside_repository empty_path too_many_capabilities : RecipeError
  bad_capability : Text → RecipeError
  query_or_fragment external_transport other_transport embedded_credentials no_host : RecipeError
  bad_reference : RecipeError

abbrev pub path_string : List Text → Text
path_string = join (b'/' ∷ [])

-- The first of the two suffixes that fits is taken off, once.
unfoldable pub without_suffix : Text → Text
without_suffix value = elim (strip_suffix (codes ".yaml") value) [
  | some stripped ↦ stripped
  | none ↦ elim (strip_suffix (codes ".yml") value) [ some stripped ↦ stripped | none ↦ value ]
]

abbrev below_playbooks : List Text → List Text
below_playbooks [] = []
below_playbooks (first ∷ components) =
    if text_eq first (codes "playbooks") then components else first ∷ components

unfoldable pub playbook_id : List Text → Result RecipeError Text
playbook_id relative =
    let value = without_suffix (path_string (below_playbooks relative)) in
    do fail_if (is_empty value) unnamed_playbook; ok value

abbrev last_component : List Text → Option Text
last_component [] = none
last_component (name ∷ []) = some name
last_component (name ∷ next ∷ components) = last_component (next ∷ components)

abbrev one_of : List Text → Option Text → Bool
one_of names none = false
one_of names (some name) = any (λ other. text_eq name other) names

-- What follows the last dot of a name, where something stands before the dot.
abbrev extension : Option Text → Option Text
extension none = none
extension (some name) = elim (rsplit_once b'.' name) [
  | none ↦ none
  | some (stem, suffix) ↦ if is_empty stem then none else some suffix
]

unfoldable pub is_yaml_file : List Text → Bool
is_yaml_file path = one_of (codes "yml" ∷ codes "yaml" ∷ []) (extension (last_component path))

unfoldable pub is_metadata_file : List Text → Bool
is_metadata_file path = one_of (codes "pbox.yml" ∷ codes "pbox.yaml" ∷ []) (last_component path)

unfoldable pub is_ansible_support_file : List Text → Bool
is_ansible_support_file relative =
    one_of (codes "requirements.yml" ∷ codes "requirements.yaml" ∷ codes "galaxy.yml" ∷ [])
      (last_component relative)

-- The components of a path that the checks look at: no empty ones, and none that is a dot.
unfoldable pub normalise_relative_path : Text → Result RecipeError (List Text)
normalise_relative_path value = do
  fail_if
      (starts_with (codes "/") value
        || any (λ component. text_eq component (codes "..")) (split b'/' value))
      outside_repository
  fail_if (is_empty (trim value)) empty_path
  ok (components (split b'/' value))
  where
    components : List Text → List Text
    components [] = []
    components (part ∷ parts) =
        let rest = components parts in
        if is_empty part || text_eq part (codes ".") then rest else part ∷ rest

unfoldable pub is_capability : Text → Bool
is_capability capability =
    not (is_empty capability)
    && (leb (length capability) 64
        && all
            (λ byte.
              is_alphanumeric byte
              || (byte == b'-' || (byte == b'_' || (byte == b'.' || byte == b'/'))))
            capability)

unfoldable pub check_capabilities : List Text → Result RecipeError (Unit {0})
check_capabilities [] = ok tt
check_capabilities (capability ∷ capabilities) = do
  fail_if (not (is_capability capability)) (bad_capability capability)
  check_capabilities capabilities

unfoldable pub validate_recipe_capabilities : List Text → Result RecipeError (Unit {0})
validate_recipe_capabilities capabilities = do
  fail_if (ltb 32 (length capabilities)) too_many_capabilities
  check_capabilities capabilities

abbrev is_flagged : Text → Bool
is_flagged [] = false
is_flagged (flag ∷ line) = flag == b'h' || flag == b'S'

unfoldable pub has_unsafe_git_index_flags : Text → Bool
has_unsafe_git_index_flags output = any is_flagged (split 10 output)

unfoldable pub check_authority : Text → Text → Result RecipeError (Unit {0})
check_authority scheme authority = do
  fail_if (not (is_transport scheme)) other_transport
  fail_if (contains (codes "@") authority) embedded_credentials
  fail_if (not (text_eq scheme (codes "file")) && is_empty authority) no_host

abbrev pub check_scheme : Text → Option ℕ → Result RecipeError (Unit {0})
check_scheme repository none = ok tt
check_scheme repository (some at) =
    check_authority (to_ascii_lowercase (take at repository))
      (authority_of (drop (at + 3) repository))

unfoldable pub validate_repository_reference : Text → Result RecipeError (Unit {0})
validate_repository_reference repository = do
  fail_if (contains (codes "?") repository || contains (codes "#") repository) query_or_fragment
  fail_if (contains (codes "::") repository) external_transport
  check_scheme repository (find (codes "://") repository)

abbrev is_special : ℕ → Bool
is_special c =
    c == b'~' || (c == b'^' || (c == b':' || (c == b'?' || (c == b'*' || (c == b'[' || c == 92)))))

unfoldable pub is_bad_reference : Text → Bool
is_bad_reference reference =
    is_empty reference
    || (starts_with (codes "-") reference
        || (contains (codes "..") reference
            || (contains (codes "@{") reference
                || (ends_with b'/' reference
                    || (ends_with b'.' reference
                        || (any (λ c. is_control c || is_whitespace c) reference
                            || any is_special reference))))))

unfoldable pub validate_recipe_reference : Text → Result RecipeError (Unit {0})
validate_recipe_reference reference = fail_if (is_bad_reference reference) bad_reference

abbrev pub count : ℕ → Text → ℕ
count c [] = 0
count c (d ∷ t) = let rest = count c t in if d == c then rest + 1 else rest

-- An owner and a name of a repository on GitHub.
unfoldable pub is_short : Text → Bool
is_short trimmed =
    count b'/' trimmed == 1
    && (not (contains (codes "://") trimmed)
        && (not (starts_with (codes "git@") trimmed)
            && (not (starts_with (codes ".") trimmed) && not (starts_with (codes "/") trimmed))))

abbrev has_git_suffix : Text → Bool
has_git_suffix trimmed = elim (strip_suffix (codes ".git") trimmed) [
  | none ↦ false
  | some stem ↦ true
]

abbrev pub github : Text
github = codes "https://github.com/"

unfoldable pub expanded : Text → Text
expanded trimmed =
    if has_git_suffix trimmed then github ++ trimmed else github ++ (trimmed ++ codes ".git")

unfoldable pub normalise_repository : Text → Text
normalise_repository repository =
    if is_short (trim repository) then expanded (trim repository) else trim repository

-- The repository and the reference in it, without the directory of its cache.
pub record RecipeRepository : Type 0 where
  pub repository : Text
  pub reference : Text

abbrev default_repository : Text
default_repository = codes "https://github.com/kierandrewett/pbox-recipes.git"

abbrev given_or_default : Option Text → Text
given_or_default none = default_repository
given_or_default (some repository) = repository

abbrev reference_or_main : Text → Text
reference_or_main reference = if is_empty reference then codes "main" else reference

unfoldable pub new_repository : Option Text → Text → Result RecipeError RecipeRepository
new_repository repository reference =
    let repository = trim (given_or_default repository) in
    let reference = reference_or_main (trim reference) in
    do
      fail_if (is_empty repository) empty_path
      validate_repository_reference repository
      validate_recipe_reference reference
      ok (record { repository = normalise_repository repository; reference = reference })
