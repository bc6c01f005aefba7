-- ===== src/Cli/Recipes/Sources/Accepted.antt =====
-- What Git is given: the repository and the reference that `RecipeRepository::new` of
-- crates/pbox-cli/src/recipes.rs accepts.
use pbox.Base.{
  ℕ, ◌+◌, ◌≡◌, ◌≢◌, ◌⊎◌, refl, ap, sym, ◌∙◌, subst, inl, inr, true, false, not, ◌||◌, ◌==◌, Option,
  none, some, [], ◌∷◌, ◌++◌, Text, codes, text_eq, text_eq_sound, starts_with, starts_with-append,
  starts_with_sound, find, find_sound, find-none, length, take, drop, take-append-drop, drop-append,
  drop-drop, to_ascii_lowercase, trim, is_empty, Without, ok, ok-injective, >>=-eq-ok,
  fail_if-eq-ok, not-true, Bool-cases, Option-cases, ||_split, arith,
}
use pbox.Config.Checks.{contains, authority_of, is_transport}
use pbox.Cli.Recipes.{
  empty_path, other_transport, embedded_credentials, check_authority, check_scheme,
  query_or_fragment, external_transport, validate_repository_reference, validate_recipe_reference,
  is_bad_reference, bad_reference, RecipeRepository, new_repository,
}
use pbox.Cli.Recipes.Sources.{validate-IsPlain, normalise_repository-validate}

-- A text that does not occur in another.
abbrev pub Absent : Text → Text → Type 0
Absent s t = (a b : Text) → t ≢ a ++ (s ++ b)

-- Where a text is found at no place, it does not occur.
none-Absent : (s t : Text) → find s t ≡ none → Absent s t
none-Absent s t h a b e =
    let here : starts_with s (drop (length a) t) ≡ true =
      ap (λ x. starts_with s (drop (length a) x)) e
      ∙ ap (starts_with s) (drop-append a (s ++ b))
      ∙ starts_with-append s b in
    let never = find-none s t (length a) h in absurd (ground arith)

contains-Absent : (s t : Text) → contains s t ≡ false → Absent s t
unfolding contains
contains-Absent s t h = elim (Option-cases (find s t)) [
  | inl e ↦ none-Absent s t e
  | inr (n, e) ↦ absurd (ground arith)
]

-- A character that does not occur as a text is none of the characters.
Absent-Without : (s : ℕ) (t : Text) → Absent (s ∷ []) t → Without s t
Absent-Without s [] h = tt
Absent-Without s (c ∷ t) h = (
  (λ e. h [] t (ap (λ x. x ∷ t) e)),
  Absent-Without s t (λ a b e. h (c ∷ a) b (ap (λ x. c ∷ x) e)),
)

contains-Without : (s : ℕ) (t : Text) → contains (s ∷ []) t ≡ false → Without s t
contains-Without s t h = Absent-Without s t (contains-Absent (s ∷ []) t h)

-- The rest of a text from its first slash or backslash on.
abbrev pub IsTail : Text → Type 0
IsTail [] = Unit {0}
IsTail (c ∷ t) = (c ≡ b'/') ⊎ (c ≡ 92)

-- A text is its authority, without slash and backslash, and such a rest.
authority_cut :
    (t : Text)
    → (tail : Text) × (t ≡ authority_of t ++ tail)
      × Without b'/' (authority_of t)
      × Without 92 (authority_of t)
      × IsTail tail
unfolding authority_of
authority_cut [] = ([], refl, tt, tt, tt)
authority_cut (c ∷ t) = elim (Bool-cases (c == b'/' || c == 92)) [
  | inl e ↦ (c ∷ t, rw e refl, rw e tt, rw e tt, ground arith)
  | inr e ↦
      let (tail, same, slash, back, is) = authority_cut t in
      (
        tail,
        rw e (ap (λ r. c ∷ r) same),
        rw e ((λ f. ground arith), slash),
        rw e ((λ f. ground arith), back),
        is,
      )
]

-- A scheme, "://", an authority and the rest. The scheme is one of three, the authority names no user, and
-- only a file has none.
pub record IsAddress (t : Text) : Type 0 where
  pub scheme : Text
  pub authority : Text
  pub tail : Text
  pub same : t ≡ scheme ++ (codes "://" ++ (authority ++ tail))
  pub transport :
      (to_ascii_lowercase scheme ≡ codes "https")
      ⊎ ((to_ascii_lowercase scheme ≡ codes "ssh") ⊎ (to_ascii_lowercase scheme ≡ codes "file"))
  pub no_user : Without b'@' authority
  pub no_slash : Without b'/' authority
  pub no_backslash : Without 92 authority
  pub ends : IsTail tail
  pub host : (to_ascii_lowercase scheme ≡ codes "file") ⊎ (authority ≢ [])

transports :
    (scheme : Text)
    → is_transport scheme ≡ true
    → (scheme ≡ codes "https") ⊎ ((scheme ≡ codes "ssh") ⊎ (scheme ≡ codes "file"))
unfolding is_transport
transports scheme h = elim (Bool-cases (text_eq scheme (codes "https"))) [
  | inl e ↦ inl (text_eq_sound scheme (codes "https") e)
  | inr e ↦ elim (Bool-cases (text_eq scheme (codes "ssh"))) [
    | inl f ↦ inr (inl (text_eq_sound scheme (codes "ssh") f))
    | inr f ↦ inr (inr (text_eq_sound scheme (codes "file") (ground arith)))
  ]
]

hosts :
    (scheme authority : Text)
    → check_authority scheme authority ≡ ok tt
    → (is_transport scheme ≡ true)
      × (contains (codes "@") authority ≡ false)
      × ((scheme ≡ codes "file") ⊎ (authority ≢ []))
unfolding check_authority
hosts scheme authority h =
    let (t, h1) = fail_if-eq-ok (not (is_transport scheme)) other_transport _ h in
    let (c, h2) = fail_if-eq-ok (contains (codes "@") authority) embedded_credentials _ h1 in
    (
      not-true (is_transport scheme) t,
      c,
      elim (Bool-cases (text_eq scheme (codes "file"))) [
        | inl e ↦ inl (text_eq_sound scheme (codes "file") e)
        | inr e ↦
            inr
              (λ f. let empty : is_empty authority ≡ true = ap is_empty f in absurd (ground arith))
      ],
    )

-- What follows a position at which a text was found.
after_find :
    (s t : Text) (at : ℕ) → find s t ≡ some at → t ≡ take at t ++ (s ++ drop (at + length s) t)
after_find s t at h =
    let (starts, bound) = find_sound s t at h in
    let (rest, e) = starts_with_sound s (drop at t) starts in
    let dropped : drop (at + length s) t ≡ rest =
      sym (drop-drop at (length s) (at + length s) t refl)
      ∙ ap (drop (length s)) e
      ∙ drop-append s rest in
    sym (take-append-drop at t)
    ∙ ap (λ x. take at t ++ x) e
    ∙ ap (λ x. take at t ++ (s ++ x)) (sym dropped)

scheme-IsAddress :
    (t : Text) (at : ℕ)
    → find (codes "://") t ≡ some at
    → check_scheme t (some at) ≡ ok tt
    → IsAddress t
scheme-IsAddress t at found h =
    let rest = drop (at + 3) t in
    let (transport, user, host) = hosts (to_ascii_lowercase (take at t)) (authority_of rest) h in
    let (tail, cut, slash, back, is) = authority_cut rest in
    record {
      scheme = take at t;
      authority = authority_of rest;
      tail = tail;
      same = after_find (codes "://") t at found ∙ ap (λ x. take at t ++ (codes "://" ++ x)) cut;
      transport = transports (to_ascii_lowercase (take at t)) transport;
      no_user = contains-Without b'@' (authority_of rest) user;
      no_slash = slash;
      no_backslash = back;
      ends = is;
      host = host;
    }

address :
    (t : Text) → validate_repository_reference t ≡ ok tt → Absent (codes "://") t ⊎ IsAddress t
unfolding validate_repository_reference
address t h =
    let (_, k) =
      fail_if-eq-ok (contains (codes "?") t || contains (codes "#") t) query_or_fragment _ h in
    let (_, s) = fail_if-eq-ok (contains (codes "::") t) external_transport _ k in
    elim (Option-cases (find (codes "://") t)) [
      | inl e ↦ inl (none-Absent (codes "://") t e)
      | inr (at, e) ↦ inr (scheme-IsAddress t at e (rw e at s))
    ]

reference_parts :
    (t : Text)
    → is_bad_reference t ≡ false
    → (t ≢ []) × ((rest : Text) → t ≢ b'-' ∷ rest) × Absent (codes "..") t
unfolding is_bad_reference
reference_parts t bad =
    let (full, rest) = ||_split (is_empty t) _ bad in
    let (dash, rest') = ||_split (starts_with (codes "-") t) _ rest in
    let (dots, _) = ||_split (contains (codes "..") t) _ rest' in
    (
      (λ f. let empty : is_empty t ≡ true = ap is_empty f in absurd (ground arith)),
      (λ more f.
          let starts : starts_with (codes "-") t ≡ true =
            ap (starts_with (codes "-")) f ∙ starts_with-append (codes "-") more in
          absurd (ground arith)),
      contains-Absent (codes "..") t dots,
    )

-- A repository and a reference that are safe to pass to Git.
pub record IsAccepted (r : RecipeRepository) : Type 0 where
  pub no_query : Without b'?' r.repository
  pub no_fragment : Without b'#' r.repository
  pub no_helper : Absent (codes "::") r.repository
  pub address : Absent (codes "://") r.repository ⊎ IsAddress r.repository
  pub named : r.reference ≢ []
  pub no_option : (rest : Text) → r.reference ≢ b'-' ∷ rest
  pub no_range : Absent (codes "..") r.reference

-- Where a recipe repository is accepted, the address that Git will fetch, also the one that a short name
-- of GitHub became, holds no question mark, no hash and no two colons in a row; where it holds "://", what
-- stands before is https, ssh or file in letters of either case, what follows up to the first slash or
-- backslash holds no at sign, and is not empty unless the scheme is file. The reference is not empty, does
-- not start with a hyphen, and holds no two dots in a row.
pub new_repository-IsAccepted :
    (repository : Option Text) (reference : Text) (r : RecipeRepository)
    → new_repository repository reference ≡ ok r
    → IsAccepted r
unfolding new_repository validate_recipe_reference
new_repository-IsAccepted repository reference r h =
    let (_, h1) = fail_if-eq-ok (is_empty (trim _)) empty_path _ h in
    let (_, e, h2) = >>=-eq-ok (validate_repository_reference _) _ h1 in
    let (bad, h3) = fail_if-eq-ok (is_bad_reference _) bad_reference _ h2 in
    let (named, no_option, no_range) = reference_parts _ bad in
    let valid = normalise_repository-validate _ e in
    let plain = validate-IsPlain _ valid in
    subst IsAccepted (ok-injective h3) (record {
      no_query = contains-Without b'?' _ plain.no_question;
      no_fragment = contains-Without b'#' _ plain.no_hash;
      no_helper = contains-Absent (codes "::") _ plain.no_colons;
      address = address _ valid;
      named = named;
      no_option = no_option;
      no_range = no_range;
    })
