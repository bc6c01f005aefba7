-- ===== src/Cli/Images/Characters.antt =====
-- The characters of what the checks of crates/pbox-cli/src/images.rs accept.
use pbox.Base.{
  ℕ, ◌+◌, ◌-◌, ◌*◌, ◌≡◌, refl, sym, subst, inl, inr, Bool, true, false, not, ◌&&◌, ◌||◌, ◌==◌, leb,
  Option, none, some, List, [], ◌∷◌, Text, codes, strip_prefix, is_empty, is_alphanumeric,
  to_ascii_lowercase, all, any, length, split, onto_first, rsplit_once, rsplit_once_sound,
  parse_unsigned, parse_digits, ok, ok_or, ok-injective, >>=-eq-ok, fail_if-eq-ok, All, All-append,
  Bool-cases, Option-cases, &&_split, ||_split, not-true, arith,
}
use pbox.Cli.Images.{
  invalid_component, invalid_port, invalid_repository, not_sha256, invalid_digest, ends_well,
  is_host_part, host_and_port, cut_or_whole, is_bad_host, is_bad_port, validate_name_component,
  Place, letter, underscore, hyphens, separator, next_place, valid_from, valid_repository_component,
  validate_repository, is_tag_character, is_tag, is_hex, validate_digest,
}

-- The characters that a parsed reference can have.
abbrev pub is_safe : ℕ → Bool
is_safe c =
    is_alphanumeric c
    || (c == b'.'
        || (c == b'-' || (c == b'_' || (c == b'/' || (c == b':' || (c == b'@' || c == b'+'))))))

abbrev pub Safe : Text → Type 0
Safe = All (λ c. is_safe c ≡ true)

pub all-Safe :
    (f : ℕ → Bool)
    → ((c : ℕ) → f c ≡ true → is_safe c ≡ true)
    → (t : Text) → all f t ≡ true
    → Safe t
all-Safe f g [] h = tt
all-Safe f g (c ∷ t) h = let (h1, h2) = &&_split (f c) (all f t) h in (g c h1, all-Safe f g t h2)

pub none-All :
    (f : Text → Bool) (ts : List Text) → any (λ t. not (f t)) ts ≡ false → All (λ t. f t ≡ true) ts
none-All f [] h = tt
none-All f (t ∷ ts) h =
    let (h1, h2) = ||_split (not (f t)) (any (λ t. not (f t)) ts) h in
    (not-true (f t) h1, none-All f ts h2)

pub each-Safe :
    (f : Text → Bool)
    → ((t : Text) → f t ≡ true → Safe t)
    → (ts : List Text) → All (λ t. f t ≡ true) ts
    → All Safe ts
each-Safe f g [] a = tt
each-Safe f g (t ∷ ts) (h, a) = (g t h, each-Safe f g ts a)

onto_first-Safe :
    (c : ℕ) (parts : List Text)
    → All Safe (onto_first c parts)
    → (is_safe c ≡ true) × All Safe parts
onto_first-Safe c [] ((h, _), _) = (h, tt)
onto_first-Safe c (part ∷ parts) ((h, a), b) = (h, (a, b))

split_here : (s c : ℕ) (t : Text) → (c == s) ≡ true → split s (c ∷ t) ≡ [] ∷ split s t
unfolding split
split_here s c t e = rw e refl

split_later : (s c : ℕ) (t : Text) → (c == s) ≡ false → split s (c ∷ t) ≡ onto_first c (split s t)
unfolding split
split_later s c t e = rw e refl

pub split-Safe : (s : ℕ) (t : Text) → is_safe s ≡ true → All Safe (split s t) → Safe t
unfolding split
split-Safe s [] h a = tt
split-Safe s (c ∷ t) h a = elim (Bool-cases (c == s)) [
  | inl e ↦
      let same : s ≡ c = ground arith in
      let (_, rest) = subst (All Safe) (split_here s c t e) a in
      (subst (λ x. is_safe x ≡ true) same h, split-Safe s t h rest)
  | inr e ↦
      let (first, rest) =
        onto_first-Safe c (split s t) (subst (All Safe) (split_later s c t e) a) in
      (first, split-Safe s t h rest)
]

next_place-Safe : (place q : Place) (c : ℕ) → next_place place c ≡ some q → is_safe c ≡ true
unfolding next_place
next_place-Safe letter q c h = ground arith
next_place-Safe underscore q c h = ground arith
next_place-Safe hyphens q c h = ground arith
next_place-Safe separator q c h = ground arith

valid_from-Safe : (place : Place) (t : Text) → valid_from place t ≡ true → Safe t
unfolding valid_from
valid_from-Safe place [] h = tt
valid_from-Safe place (c ∷ t) h = elim (Option-cases (next_place place c)) [
  | inl e ↦ absurd (ground arith)
  | inr (q, e) ↦ (next_place-Safe place q c e, valid_from-Safe q t (ground arith))
]

pub component-Safe : (t : Text) → valid_repository_component t ≡ true → Safe t
unfolding valid_repository_component
component-Safe [] h = tt
component-Safe (c ∷ t) h =
    let (h1, h2) = &&_split (is_alphanumeric c) (valid_from letter t) h in
    (ground arith, valid_from-Safe letter t h2)

host_part-Safe : (t : Text) → is_host_part t ≡ true → Safe t
unfolding is_host_part
host_part-Safe [] h = tt
host_part-Safe (c ∷ t) h =
    let (_, h1) = &&_split (is_alphanumeric c) _ h in
    let (_, h2) = &&_split (ends_well (c ∷ t)) _ h1 in
    all-Safe (λ d. is_alphanumeric d || d == b'-') (λ d k. ground arith) (c ∷ t) h2

pub host-Safe : (host : Text) → is_bad_host host ≡ false → Safe host
unfolding is_bad_host
host-Safe host h =
    let (_, h1) = ||_split (is_empty host) _ h in
    split-Safe b'.' host refl (
      each-Safe is_host_part host_part-Safe (split b'.' host)
        (none-All is_host_part (split b'.' host) h1))

parse_digits-Safe : (max acc : ℕ) (t : Text) (v : ℕ) → parse_digits max acc t ≡ some v → Safe t
unfolding parse_digits
parse_digits-Safe max acc [] v h = tt
parse_digits-Safe max acc (c ∷ t) v h =
    (ground arith, parse_digits-Safe max (acc * 10 + (c - b'0')) t v (ground arith))

port-Safe : (port : Text) → is_bad_port (some port) ≡ false → Safe port
unfolding is_bad_port parse_unsigned
port-Safe [] h = absurd (ground arith)
port-Safe (c ∷ []) h = elim (Option-cases (parse_digits 65535 0 (c ∷ []))) [
  | inl e ↦ absurd (ground arith)
  | inr (v, e) ↦ parse_digits-Safe 65535 0 (c ∷ []) v e
]
port-Safe (c ∷ d ∷ t) h = elim (Bool-cases (c == b'+')) [
  | inl p ↦ elim (Option-cases (parse_digits 65535 0 (d ∷ t))) [
    | inl e ↦ absurd (ground arith)
    | inr (v, e) ↦ (ground arith, parse_digits-Safe 65535 0 (d ∷ t) v e)
  ]
  | inr p ↦ elim (Option-cases (parse_digits 65535 0 (c ∷ d ∷ t))) [
    | inl e ↦ absurd (ground arith)
    | inr (v, e) ↦ parse_digits-Safe 65535 0 (c ∷ d ∷ t) v e
  ]
]

lower-Safe : (t : Text) → Safe t → Safe (to_ascii_lowercase t)
lower-Safe [] a = tt
lower-Safe (c ∷ t) (h, a) = (ground arith, lower-Safe t a)

value-Safe :
    (value : Text) (cut : Option (Text × Text))
    → rsplit_once b':' value ≡ cut
    → is_bad_host ((cut_or_whole value cut).0) ≡ false
    → is_bad_port ((cut_or_whole value cut).1) ≡ false
    → Safe value
value-Safe value none e h k = host-Safe value h
value-Safe value (some (host, port)) e h k =
    subst Safe (sym (rsplit_once_sound b':' value host port e)) (
      All-append (λ c. is_safe c ≡ true) host (b':' ∷ port) (host-Safe host h)
        (refl, port-Safe port k))

pub name_component-Safe : (value reg : Text) → validate_name_component value ≡ ok reg → Safe reg
unfolding validate_name_component host_and_port
name_component-Safe value reg h =
    let (h1, k1) = fail_if-eq-ok (is_bad_host ((host_and_port value).0)) invalid_component _ h in
    let (h2, k2) = fail_if-eq-ok (is_bad_port ((host_and_port value).1)) invalid_port _ k1 in
    subst Safe (ok-injective k2)
      (lower-Safe value (value-Safe value (rsplit_once b':' value) refl h1 h2))

pub repository-Safe :
    (value repository : Text) → validate_repository value ≡ ok repository → Safe repository
unfolding validate_repository
repository-Safe value repository h =
    let (h1, k1) = fail_if-eq-ok _ invalid_repository _ h in
    let (_, h2) = ||_split (is_empty value) _ h1 in
    let parts =
      each-Safe valid_repository_component component-Safe (split b'/' value)
        (none-All valid_repository_component (split b'/' value) h2) in
    subst Safe (ok-injective k1) (split-Safe b'/' value refl parts)

pub tag-Safe : (t : Text) → is_tag t ≡ true → Safe t
unfolding is_tag
tag-Safe t h =
    let (_, h1) = &&_split (not (is_empty t)) _ h in
    let (_, h2) = &&_split (leb (length t) 128) _ h1 in
    let (h3, _) = &&_split (all is_tag_character t) _ h2 in
    all-Safe is_tag_character (λ c k. ground arith) t h3

pub digest-Safe : (t digest : Text) → validate_digest t ≡ ok digest → Safe digest
unfolding validate_digest
digest-Safe t digest h =
    let (hex, _, k) = >>=-eq-ok (ok_or (strip_prefix (codes "sha256:") t) not_sha256) _ h in
    let (h1, k1) = fail_if-eq-ok (not (length hex == 64 && all is_hex hex)) invalid_digest _ k in
    let (_, h2) = &&_split (length hex == 64) (all is_hex hex) (not-true _ h1) in
    let digits = all-Safe is_hex (λ c l. ground arith) hex h2 in
    subst Safe (ok-injective k1) (refl, (refl, (refl, (refl, (refl, (refl, (refl, digits)))))))
