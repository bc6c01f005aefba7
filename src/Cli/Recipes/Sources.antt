-- ===== src/Cli/Recipes/Sources.antt =====
-- The repository that recipes are fetched from: `RecipeRepository::new` of
-- crates/pbox-cli/src/recipes.rs.
pub mod Accepted
use pbox.Base.{
  ℕ, ◌≡◌, refl, sym, ◌∙◌, subst, inl, inr, true, false, ◌||◌, ◌==◌, if◌then◌else◌, Option, [], ◌∷◌,
  ◌++◌, Text, codes, text_eq, starts_with, strip_prefix, find, trim, trim-twice, is_empty, ok, All,
  ok-injective, >>=-eq-ok, fail_if-eq-ok, Bool-cases, Option-cases, ||_split, arith,
}
use pbox.Config.Checks.{contains, authority_of, is_transport}
use pbox.Cli.Recipes.{
  empty_path, query_or_fragment, external_transport, check_authority, check_scheme,
  validate_repository_reference, is_bad_reference, bad_reference, validate_recipe_reference,
  is_short, has_git_suffix, github, expanded, normalise_repository, RecipeRepository,
  new_repository,
}

-- One character that is not in a text, and not in another, is not in both together.
single-append :
    (s : ℕ) (a b : Text)
    → contains (s ∷ []) a ≡ false
    → contains (s ∷ []) b ≡ false
    → contains (s ∷ []) (a ++ b) ≡ false
unfolding contains find starts_with strip_prefix
single-append s [] b h k = k
single-append s (c ∷ a) b h k = elim (Bool-cases (s == c)) [
  | inl e ↦ absurd (ground arith)
  | inr e ↦ ground (arith, single-append s a b)
]

true-ne-false : true ≡ false → ⊥
true-ne-false e = absurd (ground arith)

-- Two colons are found at the start of a text, or in the rest of it.
contains_cons :
    (c : ℕ) (t : Text)
    → contains (codes "::") (c ∷ t)
      ≡ (if starts_with (codes "::") (c ∷ t) then true else contains (codes "::") t)
unfolding contains find
contains_cons c t = elim (Bool-cases (starts_with (codes "::") (c ∷ t))) [
  | inl e ↦ rw e refl
  | inr e ↦ elim (Option-cases (find (codes "::") t)) [
    | inl f ↦ rw (e, f) refl
    | inr (n, f) ↦ rw (e, f) refl
  ]
]

pair_start :
    (c d : ℕ) (t u : Text)
    → starts_with (codes "::") (c ∷ d ∷ t) ≡ starts_with (codes "::") (c ∷ d ∷ u)
unfolding starts_with strip_prefix
pair_start c d t u = ground arith

no_pair : (c d : ℕ) (t : Text) → (d == b':') ≡ false → starts_with (codes "::") (c ∷ d ∷ t) ≡ false
unfolding starts_with strip_prefix
no_pair c d t h = ground arith

no_colon : (c : ℕ) (t : Text) → (c == b':') ≡ false → starts_with (codes "::") (c ∷ t) ≡ false
unfolding starts_with strip_prefix
no_colon c t h = ground arith

colons-git :
    (t : Text) → contains (codes "::") t ≡ false → contains (codes "::") (t ++ codes ".git") ≡ false
unfolding contains find starts_with strip_prefix
colons-git [] h = refl
colons-git (c ∷ []) h = contains_cons c (codes ".git") ∙ rw (no_pair c b'.' (codes "git") refl) refl
colons-git (c ∷ d ∷ t) h = elim (Bool-cases (starts_with (codes "::") (c ∷ d ∷ t))) [
  | inl e ↦ absurd (true-ne-false (sym (contains_cons c (d ∷ t) ∙ rw e refl) ∙ h))
  | inr e ↦
      let rest : contains (codes "::") (d ∷ t) ≡ false =
        sym (contains_cons c (d ∷ t) ∙ rw e refl) ∙ h in
      contains_cons c (d ∷ (t ++ codes ".git"))
      ∙ rw (pair_start c d (t ++ codes ".git") t, e) (colons-git (d ∷ t) rest)
]

skip :
    (a t : Text)
    → All (λ c. (c == b':') ≡ false) a
    → contains (codes "::") (a ++ t) ≡ contains (codes "::") t
skip [] t h = refl
skip (c ∷ a) t (h, k) = contains_cons c (a ++ t) ∙ rw (no_colon c (a ++ t) h) (skip a t k)

colons-github : (t : Text) → contains (codes "::") (github ++ t) ≡ contains (codes "::") t
colons-github t =
    skip (codes "https") (codes "://github.com/" ++ t) (refl, (refl, (refl, (refl, (refl, tt)))))
    ∙ contains_cons b':' (codes "//github.com/" ++ t)
    ∙ rw (no_pair b':' b'/' (codes "/github.com/" ++ t) refl) (
        skip (codes "//github.com/") t (
          refl,
          (
            refl,
            (
              refl,
              (refl, (refl, (refl, (refl, (refl, (refl, (refl, (refl, (refl, (refl, tt)))))))))),
            ),
          ),
        ))

scheme-github : (t : Text) → check_scheme (github ++ t) (find (codes "://") (github ++ t)) ≡ ok tt
unfolding find starts_with strip_prefix check_authority is_transport contains authority_of text_eq
scheme-github t = refl

question-github : contains (codes "?") github ≡ false
unfolding contains find starts_with strip_prefix
question-github = refl

hash-github : contains (codes "#") github ≡ false
unfolding contains find starts_with strip_prefix
hash-github = refl

question-git : contains (codes "?") (codes ".git") ≡ false
unfolding contains find starts_with strip_prefix
question-git = refl

hash-git : contains (codes "#") (codes ".git") ≡ false
unfolding contains find starts_with strip_prefix
hash-git = refl

-- What the first two checks of a repository say.
pub record IsPlain (t : Text) : Type 0 where
  pub no_question : contains (codes "?") t ≡ false
  pub no_hash : contains (codes "#") t ≡ false
  pub no_colons : contains (codes "::") t ≡ false

git-IsPlain : (t : Text) → IsPlain t → IsPlain (t ++ codes ".git")
git-IsPlain t p = record {
  no_question = single-append b'?' t (codes ".git") p.no_question question-git;
  no_hash = single-append b'#' t (codes ".git") p.no_hash hash-git;
  no_colons = colons-git t p.no_colons;
}

github-validate : (t : Text) → IsPlain t → validate_repository_reference (github ++ t) ≡ ok tt
unfolding validate_repository_reference
github-validate t p =
    rw
      (
        single-append b'?' github t question-github p.no_question,
        single-append b'#' github t hash-github p.no_hash,
        colons-github t,
        p.no_colons,
      )
      (scheme-github t)

validate-IsPlain : (t : Text) → validate_repository_reference t ≡ ok tt → IsPlain t
unfolding validate_repository_reference
validate-IsPlain t h =
    let (h1, k) =
      fail_if-eq-ok (contains (codes "?") t || contains (codes "#") t) query_or_fragment _ h in
    let (h2, _) = fail_if-eq-ok (contains (codes "::") t) external_transport _ k in
    let (q, s) = ||_split (contains (codes "?") t) (contains (codes "#") t) h1 in
    record { no_question = q; no_hash = s; no_colons = h2 }

expanded-validate : (t : Text) → IsPlain t → validate_repository_reference (expanded t) ≡ ok tt
unfolding expanded
expanded-validate t p = elim (Bool-cases (has_git_suffix t)) [
  | inl e ↦ rw e (github-validate t p)
  | inr e ↦ rw e (github-validate (t ++ codes ".git") (git-IsPlain t p))
]

pub normalise_repository-validate :
    (t : Text)
    → validate_repository_reference (trim t) ≡ ok tt
    → validate_repository_reference (normalise_repository (trim t)) ≡ ok tt
unfolding normalise_repository
normalise_repository-validate t h = elim (Bool-cases (is_short (trim t))) [
  | inl e ↦ rw (trim-twice t, e) (expanded-validate (trim t) (validate-IsPlain (trim t) h))
  | inr e ↦ rw (trim-twice t, e) h
]
