-- ===== src/Agent/Sessions/Registry.antt =====
-- The registry of sessions as a finite map: what is found after each of its operations.
use pbox.Base.{
  suc, ◌≡◌, refl, ap, sym, ◌∙◌, subst, inl, inr, Bool, true, false, if◌then◌else◌, Option, none,
  some, [], ◌∷◌, Text, text_eq, text_eq_sound, text_eq_refl, text_lt, length, Bool-cases, arith,
}
use pbox.Agent.Sessions.{Session, Registry, lookup, insert, remove, update}

abbrev pub Distinct : Registry → Type 0
Distinct [] = Unit {0}
Distinct ((key, session) ∷ registry) = (lookup key registry ≡ none) × Distinct registry

pub text_eq_both : (a b c : Text) → text_eq a c ≡ true → text_eq b c ≡ true → text_eq a b ≡ true
text_eq_both a b c h k =
    subst (λ x. text_eq a x ≡ true) (text_eq_sound a c h ∙ sym (text_eq_sound b c k))
      (text_eq_refl a)

apart_sym : (a b : Text) → text_eq a b ≡ false → text_eq b a ≡ false
apart_sym a b h = elim (Bool-cases (text_eq b a)) [
  | inl e ↦ let same = text_eq_both a b a (text_eq_refl a) e in absurd (ground arith)
  | inr e ↦ e
]

pub lookup-insert :
    (key name : Text) (session : Session) (registry : Registry)
    → lookup name registry ≡ none
    → lookup key (insert name session registry)
      ≡ (if text_eq name key then some session else lookup key registry)
unfolding insert
lookup-insert key name session [] h = refl
lookup-insert key name session ((k, other) ∷ registry) h =
    let apart : text_eq k name ≡ false = ground arith in
    let rest = lookup-insert key name session registry (ground arith) in
    elim (Bool-cases (text_lt name k)) [
      | inl e ↦ rw e refl
      | inr e ↦ elim (Bool-cases (text_eq k key)) [
        | inr f ↦ rw (e, f) rest
        | inl f ↦ elim (Bool-cases (text_eq name key)) [
          | inr g ↦ rw (e, f, g) refl
          | inl g ↦ let same = text_eq_both k name key f g in absurd (ground arith)
        ]
      ]
    ]

either_none : (b : Bool) → ◌≡◌ {A = Option Session} none (if b then none else none)
either_none true = refl
either_none false = refl

pub lookup-remove :
    (key name : Text) (registry : Registry)
    → lookup key (remove name registry) ≡ (if text_eq name key then none else lookup key registry)
lookup-remove key name [] = either_none (text_eq name key)
lookup-remove key name ((k, other) ∷ registry) =
    let rest = lookup-remove key name registry in
    elim (Bool-cases (text_eq k name)) [
      | inl e ↦ elim (Bool-cases (text_eq name key)) [
        | inl f ↦ rw (e, f) (rest ∙ rw f refl)
        | inr f ↦ elim (Bool-cases (text_eq k key)) [
          | inl g ↦
              let same = subst (λ x. text_eq x key ≡ true) (text_eq_sound k name e) g in
              absurd (ground arith)
          | inr g ↦ rw (e, f, g) (rest ∙ rw f refl)
        ]
      ]
      | inr e ↦ elim (Bool-cases (text_eq k key)) [
        | inr g ↦ rw (e, g) rest
        | inl g ↦ elim (Bool-cases (text_eq name key)) [
          | inl f ↦ let same = text_eq_both k name key g f in absurd (ground arith)
          | inr f ↦ rw (e, g, f) refl
        ]
      ]
    ]

pub lookup-update :
    (key name : Text) (change : Session → Session) (registry : Registry) (session : Session)
    → lookup key registry ≡ some session
    → lookup key (update name change registry)
      ≡ some (if text_eq key name then change session else session)
lookup-update key name change [] session h = absurd (ground arith)
lookup-update key name change ((k, other) ∷ registry) session h =
    elim (Bool-cases (text_eq k key)) [
      | inr e ↦ rw e (lookup-update key name change registry session (ground arith))
      | inl e ↦
          let same : other ≡ session = ground arith in rw (e, text_eq_sound k key e, same) refl
    ]

pub update-none :
    (key name : Text) (change : Session → Session) (registry : Registry)
    → lookup key registry ≡ none
    → lookup key (update name change registry) ≡ none
update-none key name change [] h = refl
update-none key name change ((k, other) ∷ registry) h =
    ground (arith, update-none key name change registry)

pub length-insert :
    (name : Text) (session : Session) (registry : Registry)
    → length (insert name session registry) ≡ suc (length registry)
unfolding insert
length-insert name session [] = refl
length-insert name session ((k, other) ∷ registry) =
    ground (arith, length-insert name session registry)

pub length-update :
    (name : Text) (change : Session → Session) (registry : Registry)
    → length (update name change registry) ≡ length registry
length-update name change [] = refl
length-update name change (entry ∷ registry) = ap suc (length-update name change registry)

remove_absent :
    (name : Text) (registry : Registry)
    → lookup name registry ≡ none
    → remove name registry ≡ registry
remove_absent name [] h = refl
remove_absent name ((k, other) ∷ registry) h = ground (arith, remove_absent name registry)

pub length-remove :
    (name : Text) (session : Session) (registry : Registry)
    → Distinct registry
    → lookup name registry ≡ some session
    → suc (length (remove name registry)) ≡ length registry
length-remove name session [] d h = absurd (ground arith)
length-remove name session ((k, other) ∷ registry) (n, d) h = elim (Bool-cases (text_eq k name)) [
  | inl e ↦
      let absent = subst (λ x. lookup x registry ≡ none) (text_eq_sound k name e) n in
      rw (e, remove_absent name registry absent) refl
  | inr e ↦ rw e (ap suc (length-remove name session registry d (ground arith)))
]

pub insert-Distinct :
    (name : Text) (session : Session) (registry : Registry)
    → lookup name registry ≡ none
    → Distinct registry
    → Distinct (insert name session registry)
unfolding insert
insert-Distinct name session [] h d = (refl, tt)
insert-Distinct name session ((k, other) ∷ registry) h (n, d) = elim (Bool-cases (text_lt name k)) [
  | inl e ↦ rw e (h, (n, d))
  | inr e ↦
      let absent = lookup-insert k name session registry (ground arith) in
      let apart = apart_sym k name (ground arith) in
      rw e (absent ∙ rw apart n, insert-Distinct name session registry (ground arith) d)
]

pub remove-Distinct :
    (name : Text) (registry : Registry) → Distinct registry → Distinct (remove name registry)
remove-Distinct name [] d = tt
remove-Distinct name ((k, other) ∷ registry) (n, d) = elim (Bool-cases (text_eq k name)) [
  | inl e ↦ rw e (remove-Distinct name registry d)
  | inr e ↦
      let apart = apart_sym k name e in
      rw e (lookup-remove k name registry ∙ rw apart n, remove-Distinct name registry d)
]

pub update-Distinct :
    (name : Text) (change : Session → Session) (registry : Registry)
    → Distinct registry
    → Distinct (update name change registry)
update-Distinct name change [] d = tt
update-Distinct name change ((k, other) ∷ registry) (n, d) =
    (update-none k name change registry n, update-Distinct name change registry d)
