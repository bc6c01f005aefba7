-- ===== src/Agent/Service/Environment.antt =====
-- The environment of a command that the agent accepts: `validate_exec_request` of
-- crates/pbox-agent/src/main.rs.
use pbox.Base.{
  ℕ, ◌≡◌, ◌≢◌, ◌≤◌, ◌⊎◌, ◌∙◌, ap, inl, inr, ◌++◌, ◌||◌, all, is_alphanumeric, is_empty, starts_with,
  starts_with-append, text_eq_refl, text_eq_sound, Without, Bool-cases, &&_split, ||_split, refl,
  Bool, true, false, not, ◌==◌, List, [], ◌∷◌, Text, codes, text_eq, any, ok, fail_if, >>=-eq-ok,
  fail_if-eq-ok, not-true, All, arith,
}
use pbox.Agent.Sessions.{ExecRequest, protocol}
use pbox.Agent.Service.{
  bad_version, no_command, bad_name, nul_in_value, loader_variable, is_name,
  is_privileged_loader_environment, validate_environment_entry, validate_entries, no_program,
  validate_exec_request,
}

abbrev pub IsLetter : ℕ → Type 0
IsLetter c = ((65 ≤ c) × (c ≤ 90)) ⊎ ((97 ≤ c) × (c ≤ 122))

-- A letter, a digit or an underscore.
abbrev pub IsNameCharacter : ℕ → Type 0
IsNameCharacter c = IsLetter c ⊎ (((48 ≤ c) × (c ≤ 57)) ⊎ (c ≡ b'_'))

-- A variable that a command without privileges may get.
pub record IsHarmless (entry : Text × Text) : Type 0 where
  pub first : ℕ
  pub rest : Text
  pub starts : entry.0 ≡ first ∷ rest
  pub letter : IsLetter first ⊎ (first ≡ b'_')
  pub characters : All IsNameCharacter (entry.0)
  pub no_nul : Without 0 (entry.1)
  pub no_ld : (more : Text) → entry.0 ≢ codes "LD_" ++ more
  pub no_dyld : (more : Text) → entry.0 ≢ codes "DYLD_" ++ more
  pub no_gconv : entry.0 ≢ codes "GCONV_PATH"
  pub no_tunables : entry.0 ≢ codes "GLIBC_TUNABLES"
  pub no_locpath : entry.0 ≢ codes "LOCPATH"

name_start :
    (name : Text)
    → is_name name ≡ true
    → (c : ℕ) × (rest : Text) × (name ≡ c ∷ rest) × (IsLetter c ⊎ (c ≡ b'_'))
unfolding is_name
name_start [] h = absurd (ground arith)
name_start (c ∷ rest) h = (c, rest, refl, ground arith)

name_characters :
    (name : Text) → all (λ c. c == b'_' || is_alphanumeric c) name ≡ true → All IsNameCharacter name
name_characters [] h = tt
name_characters (c ∷ name) h =
    let (here, rest) = &&_split (c == b'_' || is_alphanumeric c) _ h in
    (ground arith, name_characters name rest)

name_all :
    (name : Text) → is_name name ≡ true → all (λ c. c == b'_' || is_alphanumeric c) name ≡ true
unfolding is_name
name_all name h = ground arith

no_character : (s : ℕ) (t : Text) → any (λ c. c == s) t ≡ false → Without s t
no_character s [] h = tt
no_character s (c ∷ t) h =
    let (here, rest) = ||_split (c == s) _ h in
    ((λ e. absurd (ground arith)), no_character s t rest)

not_prefix : (p t more : Text) → starts_with p t ≡ false → t ≢ p ++ more
not_prefix p t more h e =
    let yes_prefix : starts_with p t ≡ true = ap (starts_with p) e ∙ starts_with-append p more in
    absurd (ground arith)

differs : (s t : Text) → text_eq s t ≡ false → s ≢ t
differs s t h e =
    let same : text_eq s t ≡ true = ap (λ x. text_eq x t) e ∙ text_eq_refl t in
    absurd (ground arith)

harmless :
    (name value : Text)
    → is_name name ≡ true
    → any (λ c. c == 0) value ≡ false
    → is_privileged_loader_environment name ≡ false
    → IsHarmless (name, value)
unfolding is_privileged_loader_environment
harmless name value n v l =
    let (first, rest, same, letter) = name_start name n in
    let (ld, l1) = ||_split (starts_with (codes "LD_") name) _ l in
    let (dyld, l2) = ||_split (starts_with (codes "DYLD_") name) _ l1 in
    let (gconv, l3) = ||_split (text_eq name (codes "GCONV_PATH")) _ l2 in
    let (tunables, l4) = ||_split (text_eq name (codes "GLIBC_TUNABLES")) _ l3 in
    let (locpath, _) = ||_split (text_eq name (codes "LOCPATH")) _ l4 in
    record {
      first = first;
      rest = rest;
      starts = same;
      letter = letter;
      characters = name_characters name (name_all name n);
      no_nul = no_character 0 value v;
      no_ld = λ more. not_prefix (codes "LD_") name more ld;
      no_dyld = λ more. not_prefix (codes "DYLD_") name more dyld;
      no_gconv = differs name (codes "GCONV_PATH") gconv;
      no_tunables = differs name (codes "GLIBC_TUNABLES") tunables;
      no_locpath = differs name (codes "LOCPATH") locpath;
    }

passed : (b : Bool) (x : Unit {0}) → fail_if b loader_variable ≡ ok x → b ≡ false
passed true x h = absurd (ground arith)
passed false x h = refl

entry-IsHarmless :
    (name value : Text) (x : Unit {0})
    → validate_environment_entry name value false ≡ ok x
    → IsHarmless (name, value)
unfolding validate_environment_entry
entry-IsHarmless name value x h =
    let (h1, k1) = fail_if-eq-ok (not (is_name name)) bad_name _ h in
    let (h2, k2) = fail_if-eq-ok (any (λ c. c == 0) value) nul_in_value _ k1 in
    harmless name value (not-true (is_name name) h1) h2
      (passed (is_privileged_loader_environment name) x k2)

entries-IsHarmless :
    (env : List (Text × Text)) → validate_entries false env ≡ ok tt → All IsHarmless env
unfolding validate_entries
entries-IsHarmless [] h = tt
entries-IsHarmless ((name, value) ∷ env) h =
    let (x, e, k) = >>=-eq-ok (validate_environment_entry name value false) _ h in
    (entry-IsHarmless name value x e, entries-IsHarmless env k)

has_program :
    (argv : List Text)
    → no_program argv ≡ false
    → (program : Text) × (arguments : List Text) × (argv ≡ program ∷ arguments) × (program ≢ [])
has_program [] h = absurd (ground arith)
has_program (program ∷ arguments) h = (
  program,
  arguments,
  refl,
  λ e. let empty : is_empty program ≡ true = ap is_empty e in absurd (ground arith),
)

-- Where a request for a user other than root is accepted, in a container whose image has no
-- configuration: it has a program whose name is not empty; each variable of its environment has a name of
-- letters, digits and underscores that does not start with a digit, and a value without NUL; and no name
-- starts with LD_ or DYLD_ or is GCONV_PATH, GLIBC_TUNABLES or LOCPATH.
pub validate_exec_request-IsHarmless :
    (request : ExecRequest)
    → request.user ≢ codes "root"
    → validate_exec_request false request ≡ ok tt
    → ((program : Text) × (arguments : List Text) × (request.argv ≡ program ∷ arguments)
        × (program ≢ []))
      × All IsHarmless request.env
unfolding validate_exec_request
validate_exec_request-IsHarmless request other h =
    let u : text_eq request.user (codes "root") ≡ false =
      elim (Bool-cases (text_eq request.user (codes "root"))) [
        | inl e ↦ absurd (other (text_eq_sound request.user (codes "root") e))
        | inr e ↦ e
      ] in
    let (_, k1) = fail_if-eq-ok (not (request.protocol_version == protocol)) bad_version _ h in
    let (p, k2) = fail_if-eq-ok (no_program request.argv) no_command _ k1 in
    (has_program request.argv p, entries-IsHarmless request.env (rw u at k2))
