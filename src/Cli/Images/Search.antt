-- ===== src/Cli/Images/Search.antt =====
-- The term that `search_images` of crates/pbox-cli/src/images.rs gives to podman.
use pbox.Base.{
  ℕ, ◌≡◌, refl, subst, Bool, true, false, ◌&&◌, ◌||◌, [], ◌∷◌, ◌++◌, Text, codes, trim, starts_with,
  strip_prefix, is_empty, is_whitespace, is_control, any, ok, ok-injective, fail_if-eq-ok, ||_split,
  arith,
}
use pbox.Cli.Images.{bad_query, bad_registry, has_character, is_registry_host}
use pbox.Cli.Images.Terms.{
  is_unfit, trim_slashes, before_slash, contains_scheme, qualified, image_search_term,
}

any-append :
    (f : ℕ → Bool) (a b : Text) → any f a ≡ false → any f b ≡ false → any f (a ++ b) ≡ false
any-append f [] b h k = k
any-append f (c ∷ a) b h k =
    let (h1, h2) = ||_split (f c) (any f a) h in rw h1 (any-append f a b h2 k)

first_kept :
    (a b : Text) → is_empty a ≡ false → starts_with (codes "-") (a ++ b) ≡ starts_with (codes "-") a
unfolding starts_with strip_prefix
first_kept [] b h = absurd (ground arith)
first_kept (c ∷ a) b h = ground arith

slash_fits : (is_whitespace b'/' ≡ false) × (is_control b'/' ≡ false)
unfolding is_whitespace is_control
slash_fits = (refl, refl)

not_empty_joined : (a b : Text) → is_empty a ≡ false → is_empty (a ++ (b'/' ∷ b)) ≡ false
not_empty_joined [] b h = refl
not_empty_joined (c ∷ a) b h = refl

joined-fits :
    (registry query : Text)
    → is_unfit registry ≡ false
    → is_unfit query ≡ false
    → is_unfit (registry ++ (b'/' ∷ query)) ≡ false
joined-fits registry query h k =
    let (h1, h2) = ||_split (is_empty registry) _ h in
    let (h3, h4) = ||_split (starts_with (codes "-") registry) _ h2 in
    let (h5, h6) = ||_split (any is_whitespace registry) (any is_control registry) h4 in
    let (_, k2) = ||_split (is_empty query) _ k in
    let (_, k4) = ||_split (starts_with (codes "-") query) _ k2 in
    let (k5, k6) = ||_split (any is_whitespace query) (any is_control query) k4 in
    let (s, c) = slash_fits in
    rw
      (
        not_empty_joined registry query h1,
        first_kept registry (b'/' ∷ query) h1,
        h3,
        any-append is_whitespace registry (b'/' ∷ query) h5 (rw s k5),
        any-append is_control registry (b'/' ∷ query) h6 (rw c k6),
      )
      refl

qualified-fits :
    (b : Bool) (registry query term : Text)
    → is_unfit query ≡ false
    → qualified b registry query ≡ ok term
    → is_unfit term ≡ false
qualified-fits true registry query term h e = subst (λ t. is_unfit t ≡ false) (ok-injective e) h
qualified-fits false registry query term h e =
    let (h1, e1) =
      fail_if-eq-ok (is_unfit registry || has_character b'/' registry) bad_registry _ e in
    let (h2, _) = ||_split (is_unfit registry) (has_character b'/' registry) h1 in
    subst (λ t. is_unfit t ≡ false) (ok-injective e1) (joined-fits registry query h2 h)

-- A term that is given to podman is not empty, has no whitespace and no control character, and does not
-- start with a hyphen, so that podman cannot take it for an option.
pub image_search_term-fits :
    (query registry term : Text)
    → image_search_term query registry ≡ ok term
    → (is_empty term ≡ false)
      × (starts_with (codes "-") term ≡ false)
      × (any is_whitespace term ≡ false)
      × (any is_control term ≡ false)
unfolding image_search_term
image_search_term-fits query registry term h =
    let (h1, h2) =
      fail_if-eq-ok (is_unfit (trim query) || contains_scheme (trim query)) bad_query _ h in
    let (h3, _) = ||_split (is_unfit (trim query)) (contains_scheme (trim query)) h1 in
    let fits =
      qualified-fits
        (has_character b'/' (trim query) && is_registry_host (before_slash (trim query)))
        (trim_slashes registry) (trim query) term h3 h2 in
    let (f1, f2) = ||_split (is_empty term) _ fits in
    let (f3, f4) = ||_split (starts_with (codes "-") term) _ f2 in
    let (f5, f6) = ||_split (any is_whitespace term) (any is_control term) f4 in (f1, f3, f5, f6)
