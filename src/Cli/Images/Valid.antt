-- ===== src/Cli/Images/Valid.antt =====
-- What `ImageReference::parse` of crates/pbox-cli/src/images.rs accepts, and what becomes of it in a
-- request to PVE.
use pbox.Base.{
  ℕ, ◌≡◌, refl, subst, inl, inr, Bool, true, false, not, ◌||◌, ◌==◌, Option, none, some, [], ◌∷◌,
  ◌++◌, Text, codes, trim, is_empty, is_ascii_control, to_ascii_lowercase, any, split, split_once,
  rsplit_once, ok, ok_or, ok-injective, >>=-eq-ok, fail_if-eq-ok, All, All-append, not-true, arith,
  ◌⊎◌,
}
use pbox.Pve.{validate_oci_reference}
use pbox.Cli.Images.{
  ImageReference, empty_reference, invalid_reference, tag_and_digest, invalid_tag, has_character,
  validate_name_component, validate_repository, is_tag, validate_tag, validate_digest, has_tag,
  Parts, digest_parts, tagged_parts, tag_parts, cut_parts, parts_of, locate, without_scheme, parse,
  full_repository, ending, canonical,
}
use pbox.Cli.Images.Characters.{
  is_safe, Safe, name_component-Safe, repository-Safe, tag-Safe, digest-Safe,
}

-- A reference has a tag, or a digest that the check gave back, and never both.
abbrev pub IsPinned : Option Text → Option Text → Type 0
IsPinned tag digest =
    ((t : Text) × (tag ≡ some t) × (is_tag t ≡ true) × (digest ≡ none))
    ⊎ ((d : Text) × (v : Text) × (tag ≡ none) × (digest ≡ some d) × (validate_digest v ≡ ok d))

validate_tag-eq-ok : (t u : Text) → validate_tag t ≡ ok u → (t ≡ u) × (is_tag t ≡ true)
unfolding validate_tag
validate_tag-eq-ok t u h =
    let (h1, k) = fail_if-eq-ok (not (is_tag t)) invalid_tag _ h in
    (ok-injective k, not-true (is_tag t) h1)

latest : is_tag (codes "latest") ≡ true
unfolding is_tag
latest = refl

digest_parts-IsPinned :
    (name digest : Text) (p : Parts) → digest_parts name digest ≡ ok p → IsPinned p.tag p.digest
unfolding digest_parts
digest_parts-IsPinned name digest p h =
    let (_, h1) =
      fail_if-eq-ok (is_empty digest || has_character b'@' digest) invalid_reference _ h in
    let (_, h2) = fail_if-eq-ok (has_tag name) tag_and_digest _ h1 in
    let (d, e, h3) = >>=-eq-ok (validate_digest digest) _ h2 in
    subst (λ q. IsPinned q.tag q.digest) (ok-injective h3) (inr (d, digest, refl, refl, e))

tagged_parts-IsPinned :
    (value : Text) (b : Bool) (p : Parts) → tagged_parts value b ≡ ok p → IsPinned p.tag p.digest
tagged_parts-IsPinned value false p h =
    subst (λ q. IsPinned q.tag q.digest) (ok-injective h) (inl (codes "latest", refl, latest, refl))
tagged_parts-IsPinned value true p h =
    let ((name, tag), _, h1) = >>=-eq-ok (ok_or (rsplit_once b':' value) invalid_reference) _ h in
    let (t, e, h2) = >>=-eq-ok (validate_tag tag) _ h1 in
    let (same, fine) = validate_tag-eq-ok tag t e in
    subst (λ q. IsPinned q.tag q.digest) (ok-injective h2)
      (inl (t, refl, subst (λ x. is_tag x ≡ true) same fine, refl))

tag_parts-IsPinned : (value : Text) (p : Parts) → tag_parts value ≡ ok p → IsPinned p.tag p.digest
unfolding tag_parts
tag_parts-IsPinned value p h = tagged_parts-IsPinned value (has_tag value) p h

cut_parts-IsPinned :
    (value : Text) (cut : Option (Text × Text)) (p : Parts)
    → cut_parts value cut ≡ ok p
    → IsPinned p.tag p.digest
cut_parts-IsPinned value none p h = tag_parts-IsPinned value p h
cut_parts-IsPinned value (some (name, digest)) p h = digest_parts-IsPinned name digest p h

parts_of-IsPinned : (value : Text) (p : Parts) → parts_of value ≡ ok p → IsPinned p.tag p.digest
unfolding parts_of
parts_of-IsPinned value p h = cut_parts-IsPinned value (split_once b'@' value) p h

ending-Safe : (tag digest : Option Text) → IsPinned tag digest → Safe (ending tag digest)
ending-Safe tag digest (inl (t, e, h, f)) = rw (e, f) (refl, tag-Safe t h)
ending-Safe tag digest (inr (d, v, e, f, h)) = rw (e, f) (refl, digest-Safe v d h)

none_refused :
    (t : Text)
    → Safe t
    → any
        (λ ch.
          is_ascii_control ch || ch == b'?' || ch == b'#' || ch == b'%' || ch == b'&' || ch == 92)
        t
      ≡ false
unfolding is_ascii_control
none_refused [] a = refl
none_refused (c ∷ t) (h, a) = ground (arith, none_refused t a)

-- What `parse` gives, in the order of its checks.
pub record Parsed (input : Text) (r : ImageReference) : Type 0 where
  pub pinned : IsPinned r.tag r.digest
  pub registry : (v : Text) × (validate_name_component v ≡ ok r.registry)
  pub repository : (v : Text) × (validate_repository v ≡ ok r.repository)

parse-Parsed : (input : Text) (r : ImageReference) → parse input ≡ ok r → Parsed input r
unfolding parse
parse-Parsed input r h =
    let value = without_scheme (trim input) in
    let (_, h1) =
      fail_if-eq-ok (is_empty value || any is_ascii_control value) empty_reference _ h in
    let (p, e, h2) = >>=-eq-ok (parts_of value) _ h1 in
    let (registry, f, h3) =
      >>=-eq-ok (validate_name_component ((locate p.name (split b'/' p.name)).0)) _ h2 in
    let (repository, g, h4) =
      >>=-eq-ok (validate_repository (to_ascii_lowercase ((locate p.name (split b'/' p.name)).1))) _
        h3 in
    subst (Parsed input) (ok-injective h4)
      (record { pinned = parts_of-IsPinned value p e; registry = (_, f); repository = (_, g) })

canonical-Safe : (input : Text) (r : ImageReference) → Parsed input r → Safe (canonical r)
unfolding canonical full_repository
canonical-Safe input r parsed =
    let (v, f) = parsed.registry in
    let (w, g) = parsed.repository in
    All-append (λ c. is_safe c ≡ true) (r.registry ++ (b'/' ∷ r.repository)) (ending r.tag r.digest)
      (All-append (λ c. is_safe c ≡ true) r.registry (b'/' ∷ r.repository)
        (name_component-Safe v r.registry f) (refl, repository-Safe w r.repository g))
      (ending-Safe r.tag r.digest parsed.pinned)

not_empty : (a b : Text) (c : ℕ) (d : Text) → is_empty ((a ++ c ∷ b) ++ d) ≡ false
not_empty [] b c d = refl
not_empty (x ∷ a) b c d = refl

canonical-full : (r : ImageReference) → is_empty (canonical r) ≡ false
unfolding canonical full_repository
canonical-full r = not_empty r.registry r.repository b'/' (ending r.tag r.digest)

-- Where `parse` accepts an image reference: it has either a tag that the tag check accepts or a digest
-- that the digest check gave, not both; and its canonical form has letters, digits and `.-_/:@+` only,
-- so that the PVE client accepts it as the reference of an image to pull.
pub parse-validate_oci_reference :
    (input : Text) (r : ImageReference)
    → parse input ≡ ok r
    → IsPinned r.tag r.digest
      × All (λ c. is_safe c ≡ true) (canonical r)
      × (validate_oci_reference (canonical r) ≡ ok tt)
unfolding validate_oci_reference
parse-validate_oci_reference input r h =
    let parsed = parse-Parsed input r h in
    let safe = canonical-Safe input r parsed in
    (parsed.pinned, safe, rw (canonical-full r, none_refused (canonical r) safe) refl)
