-- ===== src/Cli/Images/Tags.antt =====
-- The tags that a search lists, `parse_local_oci_tags` of crates/pbox-cli/src/images.rs.
use pbox.Base.{
  ℕ, ◌≡◌, refl, ap, sym, ◌∙◌, subst, inl, inr, Bool, true, false, ◌||◌, Option, some, List, [], ◌∷◌,
  Text, text_eq, text_eq_sound, text_lt, text_lt_asym, text_lt_total, any, take, ok, Bool-cases,
  arith,
}
use pbox.Cli.Images.{}
use pbox.Cli.Images.Terms.{insert_sorted, sort, dedup, listed_tags, parse_local_oci_tags}

abbrev pub has_tag_in : List Text → Text → Bool
has_tag_in tags tag = any (λ other. text_eq other tag) tags

-- No tag is below the one before it.
abbrev Ascending : List Text → Type 0
Ascending [] = Unit {0}
Ascending (tag ∷ []) = Unit {0}
Ascending (tag ∷ next ∷ tags) = (text_lt next tag ≡ false) × Ascending (next ∷ tags)

-- Each tag is above the one before it.
abbrev pub Increasing : List Text → Type 0
Increasing [] = Unit {0}
Increasing (tag ∷ []) = Unit {0}
Increasing (tag ∷ next ∷ tags) = (text_lt tag next ≡ true) × Increasing (next ∷ tags)

insert_sorted-Ascending :
    (tag : Text) (tags : List Text) → Ascending tags → Ascending (insert_sorted tag tags)
insert_sorted-Ascending tag [] a = tt
insert_sorted-Ascending tag (other ∷ []) a = elim (Bool-cases (text_lt other tag)) [
  | inl e ↦ rw e (text_lt_asym other tag e, tt)
  | inr e ↦ rw e (e, tt)
]
insert_sorted-Ascending tag (other ∷ next ∷ tags) (h, a) = elim (Bool-cases (text_lt other tag)) [
  | inr e ↦ rw e (e, (h, a))
  | inl e ↦
      let rest = insert_sorted-Ascending tag (next ∷ tags) a in
      elim (Bool-cases (text_lt next tag)) [
        | inl f ↦ rw (e, f) (h, rw f at rest)
        | inr f ↦ rw (e, f) (text_lt_asym other tag e, (f, a))
      ]
]

sort-Ascending : (tags : List Text) → Ascending (sort tags)
sort-Ascending [] = tt
sort-Ascending (tag ∷ tags) = insert_sorted-Ascending tag (sort tags) (sort-Ascending tags)

has_tag_in-insert_sorted :
    (tag x : Text) (tags : List Text)
    → has_tag_in (insert_sorted tag tags) x ≡ (text_eq tag x || has_tag_in tags x)
has_tag_in-insert_sorted tag x [] = refl
has_tag_in-insert_sorted tag x (other ∷ tags) = ground (arith, has_tag_in-insert_sorted tag x tags)

has_tag_in-sort : (x : Text) (tags : List Text) → has_tag_in (sort tags) x ≡ has_tag_in tags x
has_tag_in-sort x [] = refl
has_tag_in-sort x (tag ∷ tags) =
    has_tag_in-insert_sorted tag x (sort tags)
    ∙ ap (λ b. text_eq tag x || b) (has_tag_in-sort x tags)

has_tag_in-dedup : (x : Text) (tags : List Text) → has_tag_in (dedup tags) x ≡ has_tag_in tags x
unfolding dedup
has_tag_in-dedup x [] = refl
has_tag_in-dedup x (tag ∷ []) = refl
has_tag_in-dedup x (tag ∷ next ∷ tags) =
    let rest = has_tag_in-dedup x (next ∷ tags) in
    elim (Bool-cases (text_eq tag next)) [
      | inr e ↦ rw e (ap (λ b. text_eq tag x || b) rest)
      | inl e ↦
          let same = text_eq_sound tag next e in
          rw e (
            rest
            ∙ subst
                (λ y.
                  (text_eq next x || has_tag_in tags x)
                  ≡ (text_eq y x || (text_eq next x || has_tag_in tags x)))
                (sym same) (ground arith))
    ]

-- What is left of a list that starts with a tag starts with an equal tag.
dedup-first :
    (tag : Text) (tags : List Text) → (rest : List Text) × (dedup (tag ∷ tags) ≡ tag ∷ rest)
unfolding dedup
dedup-first tag [] = ([], refl)
dedup-first tag (next ∷ tags) = elim (Bool-cases (text_eq tag next)) [
  | inr e ↦ (dedup (next ∷ tags), rw e refl)
  | inl e ↦
      let (rest, f) = dedup-first next tags in
      (rest, rw e (f ∙ ap (λ y. y ∷ rest) (sym (text_eq_sound tag next e))))
]

dedup-Increasing : (tags : List Text) → Ascending tags → Increasing (dedup tags)
unfolding dedup
dedup-Increasing [] a = tt
dedup-Increasing (tag ∷ []) a = tt
dedup-Increasing (tag ∷ next ∷ tags) (h, a) =
    let rest = dedup-Increasing (next ∷ tags) a in
    elim (Bool-cases (text_eq tag next)) [
      | inl e ↦ rw e rest
      | inr e ↦
          let (left, f) = dedup-first next tags in
          rw (e, f) (text_lt_total next tag h e, subst Increasing f rest)
    ]

-- The tags that are listed for a reply whose JSON is read: there is a list in which each tag is above the
-- one before it, in the order of strings, and which has exactly the tags of the reply, and the first of
-- its tags are listed, as many as the limit says.
pub parse_local_oci_tags-listed :
    (from_str : Text → Option (List Text)) (value : Text) (limit : ℕ) (tags : List Text)
    → from_str value ≡ some tags
    → (whole : List Text) × Increasing whole
      × ((x : Text) → has_tag_in whole x ≡ has_tag_in tags x)
      × (parse_local_oci_tags from_str value limit ≡ ok (take limit whole))
unfolding parse_local_oci_tags listed_tags
parse_local_oci_tags-listed from_str value limit tags h = (
  dedup (sort tags),
  dedup-Increasing (sort tags) (sort-Ascending tags),
  (λ x. has_tag_in-dedup x (sort tags) ∙ has_tag_in-sort x tags),
  rw h refl,
)
