-- ===== src/Cli/Snapshots/Networks.antt =====
-- The network interfaces of a container that is made from a snapshot: `fresh_secondary_networks` of
-- crates/pbox-cli/src/snapshots.rs.
use pbox.Base.{
  ℕ, ◌≡◌, ◌≢◌, refl, ap, sym, ◌∙◌, subst, inl, inr, Bool, true, not, ◌&&◌, ◌||◌, ◌==◌, Option, none,
  some, List, [], ◌∷◌, Text, codes, text_eq, is_empty, split, split-append, split_whole, split_once,
  onto_first, join, Without, All, Bool-cases, Option-cases, arith, ◌⊎◌,
}
use pbox.Cli.Snapshots.{changed_field, fresh_field, fresh_fields, fresh_interface}

-- A field that a new container can have: no address of the old one, and addresses that are asked for,
-- or left to the container.
abbrev is_fresh_named : Text → Text → Bool
is_fresh_named name value =
    not (text_eq name (codes "hwaddr"))
    && (not (text_eq name (codes "gw"))
        && (not (text_eq name (codes "gw6"))
            && ((not (text_eq name (codes "ip"))
                  || (text_eq value (codes "manual") || text_eq value (codes "dhcp")))
                && (not (text_eq name (codes "ip6"))
                    || (text_eq value (codes "manual") || text_eq value (codes "auto"))))))

abbrev is_fresh_cut : Text → Option (Text × Text) → Bool
is_fresh_cut field none = is_empty field
is_fresh_cut field (some (name, value)) = is_fresh_named name value

unfoldable pub is_fresh : Text → Bool
is_fresh field = is_fresh_cut field (split_once b'=' field)

dhcp-kept : fresh_field (codes "ip=dhcp") ≡ some (codes "ip=dhcp")
unfolding fresh_field split_once text_eq
dhcp-kept = refl

auto-kept : fresh_field (codes "ip6=auto") ≡ some (codes "ip6=auto")
unfolding fresh_field split_once text_eq
auto-kept = refl

dhcp-fresh : is_fresh (codes "ip=dhcp") ≡ true
unfolding is_fresh split_once text_eq
dhcp-fresh = refl

auto-fresh : is_fresh (codes "ip6=auto") ≡ true
unfolding is_fresh split_once text_eq
auto-fresh = refl

some_same : {x y : Text} → ◌≡◌ {A = Option Text} (some x) (some y) → x ≡ y
some_same e = cc

dhcp_separate : Without b',' (codes "ip=dhcp")
dhcp_separate = (
  (λ e. absurd (omega arith)),
  (
    (λ e. absurd (omega arith)),
    (
      (λ e. absurd (omega arith)),
      (
        (λ e. absurd (omega arith)),
        (
          (λ e. absurd (omega arith)),
          ((λ e. absurd (omega arith)), ((λ e. absurd (omega arith)), tt)),
        ),
      ),
    ),
  ),
)

auto_separate : Without b',' (codes "ip6=auto")
auto_separate = (
  (λ e. absurd (omega arith)),
  (
    (λ e. absurd (omega arith)),
    (
      (λ e. absurd (omega arith)),
      (
        (λ e. absurd (omega arith)),
        (
          (λ e. absurd (omega arith)),
          (
            (λ e. absurd (omega arith)),
            ((λ e. absurd (omega arith)), ((λ e. absurd (omega arith)), tt)),
          ),
        ),
      ),
    ),
  ),
)

-- What a field becomes: one of the two requests, or itself, where it is fresh.
field_cases :
    (field g : Text) (cut : Option (Text × Text))
    → changed_field field cut ≡ some g
    → (g ≡ codes "ip=dhcp")
      ⊎ ((g ≡ codes "ip6=auto") ⊎ ((g ≡ field) × (is_fresh_cut field cut ≡ true)))
field_cases field g none h = absurd (ground arith)
field_cases field g (some (name, value)) h =
    let manual = text_eq value (codes "manual") in
    let dropped =
      text_eq name (codes "hwaddr") || (text_eq name (codes "gw") || text_eq name (codes "gw6")) in
    elim (Bool-cases dropped) [
      | inl e ↦ absurd (ground arith)
      | inr e ↦ elim (Bool-cases (text_eq name (codes "ip") && not manual)) [
        | inl f ↦ inl (sym (some_same (rw (e, f) at h)))
        | inr f ↦ elim (Bool-cases (text_eq name (codes "ip6") && not manual)) [
          | inl i ↦ inr (inl (sym (some_same (rw (e, f, i) at h))))
          | inr i ↦ inr (inr (sym (some_same (rw (e, f, i) at h)), ground arith))
        ]
      ]
    ]

-- A fresh field is kept as it is, apart from one that is dropped for want of a name.
fresh_field-kept :
    (field g : Text) → fresh_field field ≡ some g → (fresh_field g ≡ some g) × (is_fresh g ≡ true)
unfolding fresh_field is_fresh
fresh_field-kept field g h = elim (field_cases field g (split_once b'=' field) h) [
  | inl e ↦ rw e (dhcp-kept, dhcp-fresh)
  | inr (inl e) ↦ rw e (auto-kept, auto-fresh)
  | inr (inr (e, f)) ↦ rw e (h ∙ ap (λ x. some x) e, f)
]

fresh_field-Without :
    (field g : Text) → Without b',' field → fresh_field field ≡ some g → Without b',' g
unfolding fresh_field
fresh_field-Without field g w h = elim (field_cases field g (split_once b'=' field) h) [
  | inl e ↦ subst (Without b',') (sym e) dhcp_separate
  | inr (inl e) ↦ subst (Without b',') (sym e) auto_separate
  | inr (inr (e, f)) ↦ subst (Without b',') (sym e) w
]

-- What holds of each field that is left.
abbrev IsLeft : Text → Type 0
IsLeft g = (fresh_field g ≡ some g) × (is_fresh g ≡ true) × Without b',' g

fresh_fields-IsLeft :
    (fields : List Text) → All (Without b',') fields → All IsLeft (fresh_fields fields)
unfolding fresh_fields
fresh_fields-IsLeft [] a = tt
fresh_fields-IsLeft (field ∷ fields) (w, a) =
    let rest = fresh_fields-IsLeft fields a in
    elim (Option-cases (fresh_field field)) [
      | inl e ↦ rw e rest
      | inr (g, e) ↦
          let (k, f) = fresh_field-kept field g e in
          rw e ((k, f, fresh_field-Without field g w e), rest)
    ]

fresh_fields-kept : (fields : List Text) → All IsLeft fields → fresh_fields fields ≡ fields
unfolding fresh_fields
fresh_fields-kept [] a = refl
fresh_fields-kept (g ∷ fields) ((h, _, _), a) = rw h (ap (λ r. g ∷ r) (fresh_fields-kept fields a))

onto_first-Without :
    (c s : ℕ) (parts : List Text)
    → c ≢ s
    → All (Without s) parts
    → All (Without s) (onto_first c parts)
onto_first-Without c s [] n a = ((n, tt), tt)
onto_first-Without c s (part ∷ parts) n (w, a) = ((n, w), a)

split-Without : (s : ℕ) (t : Text) → All (Without s) (split s t)
unfolding split
split-Without s [] = (tt, tt)
split-Without s (c ∷ t) = elim (Bool-cases (c == s)) [
  | inl e ↦ rw e (tt, split-Without s t)
  | inr e ↦
      rw e (onto_first-Without c s (split s t) (λ p. absurd (ground arith)) (split-Without s t))
]

split-join :
    (part : Text) (parts : List Text)
    → All IsLeft (part ∷ parts)
    → split b',' (join (b',' ∷ []) (part ∷ parts)) ≡ part ∷ parts
split-join part [] ((_, _, w), a) = split_whole b',' part w
split-join part (next ∷ parts) ((_, _, w), a) =
    split-append b',' part (join (b',' ∷ []) (next ∷ parts)) w
    ∙ ap (λ r. part ∷ r) (split-join next parts a)

IsLeft-fresh : (fields : List Text) → All IsLeft fields → All (λ f. is_fresh f ≡ true) fields
IsLeft-fresh [] a = tt
IsLeft-fresh (g ∷ fields) ((_, f, _), a) = (f, IsLeft-fresh fields a)

nothing_fresh : (is_fresh [] ≡ true) × (fresh_interface [] ≡ [])
unfolding is_fresh fresh_interface fresh_fields fresh_field split split_once
nothing_fresh = (refl, refl)

joined-fresh :
    (fields : List Text)
    → All IsLeft fields
    → All (λ f. is_fresh f ≡ true) (split b',' (join (b',' ∷ []) fields))
      × (fresh_interface (join (b',' ∷ []) fields) ≡ join (b',' ∷ []) fields)
unfolding fresh_interface split
joined-fresh [] a = let (f, e) = nothing_fresh in ((f, tt), e)
joined-fresh (part ∷ parts) a =
    let cut = split-join part parts a in
    rw (cut, fresh_fields-kept (part ∷ parts) a) (IsLeft-fresh (part ∷ parts) a, refl)

-- The interface that a new container gets for one of the saved configuration has no field for a hardware
-- address or a gateway, its IPv4 address is manual or by DHCP, its IPv6 address is manual or automatic,
-- and making it fresh again changes nothing.
pub fresh_interface-fresh :
    (value : Text)
    → All (λ f. is_fresh f ≡ true) (split b',' (fresh_interface value))
      × (fresh_interface (fresh_interface value) ≡ fresh_interface value)
unfolding fresh_interface
fresh_interface-fresh value =
    joined-fresh (fresh_fields (split b',' value))
      (fresh_fields-IsLeft (split b',' value) (split-Without b',' value))
