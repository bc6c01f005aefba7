-- ===== src/Agent/Sessions/Owners.antt =====
-- The owners of sessions: their names are apart, so one that ends was the only owner of its name.
use pbox.Base.{
  ℕ, suc, ◌≡◌, refl, ap, ◌∙◌, subst, inl, inr, if◌then◌else◌, Option, none, some, List, [], ◌∷◌,
  ◌++◌, Text, text_eq, text_eq_sound, text_eq_refl, length, length-append, Bool-cases, arith,
}
use pbox.Agent.Sessions.Registry.{text_eq_both}

abbrev pub owner_of : Text → List (Text × ℕ) → Option ℕ
owner_of name [] = none
owner_of name ((key, id) ∷ owners) = if text_eq key name then some id else owner_of name owners

abbrev pub Apart : List (Text × ℕ) → Type 0
Apart [] = Unit {0}
Apart ((key, id) ∷ owners) = (owner_of key owners ≡ none) × Apart owners

pub owner_of-without :
    (key name : Text) (id : ℕ) (front back : List (Text × ℕ))
    → Apart (front ++ (name, id) ∷ back)
    → (owner_of name (front ++ (name, id) ∷ back) ≡ some id)
      × (owner_of key (front ++ back)
          ≡ (if text_eq name key then none else owner_of key (front ++ (name, id) ∷ back)))
owner_of-without key name id [] back (n, d) = (
  rw (text_eq_refl name) refl,
  elim (Bool-cases (text_eq name key)) [
    | inl e ↦ rw e (subst (λ x. owner_of x back ≡ none) (text_eq_sound name key e) n)
    | inr e ↦ rw e refl
  ],
)
owner_of-without key name id ((k, i) ∷ front) back (n, d) =
    let (found, rest) = owner_of-without key name id front back d in
    elim (Bool-cases (text_eq k name)) [
      | inl e ↦
          let gone =
            subst (λ x. owner_of x (front ++ (name, id) ∷ back) ≡ none) (text_eq_sound k name e)
              n in
          absurd (ground arith)
      | inr e ↦ (
        rw e found,
        elim (Bool-cases (text_eq k key)) [
          | inr f ↦ rw f rest
          | inl f ↦ elim (Bool-cases (text_eq name key)) [
            | inl g ↦ let same = text_eq_both k name key f g in absurd (ground arith)
            | inr g ↦ rw (f, g) refl
          ]
        ],
      )
    ]

pub Apart-without :
    (name : Text) (id : ℕ) (front back : List (Text × ℕ))
    → Apart (front ++ (name, id) ∷ back)
    → Apart (front ++ back)
Apart-without name id [] back (n, d) = d
Apart-without name id ((k, i) ∷ front) back (n, d) =
    let (_, rest) = owner_of-without k name id front back d in
    (
      rest ∙ elim (Bool-cases (text_eq name k)) [ inl e ↦ rw e refl | inr e ↦ rw e n ],
      Apart-without name id front back d,
    )

pub length-without :
    (owners front back : List (Text × ℕ)) (owner : Text × ℕ)
    → owners ≡ front ++ owner ∷ back
    → length owners ≡ suc (length (front ++ back))
length-without owners front back owner e = omega (
  arith,
  ap (length {A = Text × ℕ}) e,
  length-append front (owner ∷ back),
  length-append front back,
)
