-- ===== src/Relay/Access/Binding.antt =====
-- What an issuer's settings and keys are once it has started.
use pbox.Base.{
  ℕ, ◌<◌, ◌≤◌, ◌≡◌, ◌≢◌, ap, sym, ◌∙◌, inl, inr, true, false, some, List, [], ◌∷◌, Text, text_eq,
  text_eq_sound, text_eq_refl, any, ◌==◌, Bool-cases, ok, arith, length,
}
use pbox.Relay.Route.{UrlCrate, valid_box_id}
use pbox.Relay.Access.{Settings, Issuer, router, lookup, validate_authority, check_boxes, validate}

-- No VMID of the bindings is in the set.
abbrev pub Fresh : List ℕ → List (Text × ℕ) → Type 0
Fresh vmids [] = Unit {0}
Fresh vmids ((id, vmid) ∷ boxes) =
    (valid_box_id id ≡ true)
    × (0 < vmid)
    × (any (λ v. v == vmid) vmids ≡ false)
    × Fresh (vmid ∷ vmids) boxes

check_boxes_sound :
    (vmids : List ℕ) (boxes : List (Text × ℕ)) → check_boxes vmids boxes ≡ ok tt → Fresh vmids boxes
unfolding check_boxes
check_boxes_sound vmids [] h = tt
check_boxes_sound vmids ((id, vmid) ∷ boxes) h = (
  ground arith,
  ground arith,
  ground arith,
  check_boxes_sound (vmid ∷ vmids) boxes (ground arith),
)

-- A bound VMID is not in the set, and its box ID is valid.
bound :
    (vmids : List ℕ) (boxes : List (Text × ℕ)) (id : Text) (vmid : ℕ)
    → Fresh vmids boxes
    → lookup id boxes ≡ some vmid
    → (valid_box_id id ≡ true) × (0 < vmid) × (any (λ v. v == vmid) vmids ≡ false)
bound vmids [] id vmid f h = absurd (ground arith)
bound vmids ((key, v) ∷ boxes) id vmid (valid, positive, new, f) h =
    elim (Bool-cases (text_eq key id)) [
      | inl e ↦
          let same : v ≡ vmid = ground arith in
          let keys = text_eq_sound key id e in
          (
            ap valid_box_id (sym keys) ∙ valid,
            ground arith,
            ap (λ n. any (λ v. v == n) vmids) (sym same) ∙ new,
          )
      | inr e ↦
          let (a, b, n) = bound (v ∷ vmids) boxes id vmid f (ground arith) in (a, b, ground arith)
    ]

one_box :
    (vmids : List ℕ) (boxes : List (Text × ℕ)) (id id' : Text) (vmid : ℕ)
    → Fresh vmids boxes
    → lookup id boxes ≡ some vmid
    → lookup id' boxes ≡ some vmid
    → id ≡ id'
one_box vmids [] id id' vmid f h h' = absurd (ground arith)
one_box vmids ((key, v) ∷ boxes) id id' vmid (valid, positive, new, f) h h' =
    elim (Bool-cases (text_eq key id)) [
      | inl e ↦ elim (Bool-cases (text_eq key id')) [
        | inl e' ↦ sym (text_eq_sound key id e) ∙ text_eq_sound key id' e'
        | inr e' ↦
            let (_, _, n) = bound (v ∷ vmids) boxes id' vmid f (ground arith) in
            absurd (ground arith)
      ]
      | inr e ↦ elim (Bool-cases (text_eq key id')) [
        | inl e' ↦
            let (_, _, n) = bound (v ∷ vmids) boxes id vmid f (ground arith) in
            absurd (ground arith)
        | inr e' ↦ one_box (v ∷ vmids) boxes id id' vmid f (ground arith) (ground arith)
      ]
    ]

validate-IsInjective :
    (u : UrlCrate) (s : Settings) (id id' : Text) (vmid : ℕ)
    → validate u s ≡ ok tt
    → lookup id s.boxes ≡ some vmid
    → lookup id' s.boxes ≡ some vmid
    → (id ≡ id') × (valid_box_id id ≡ true) × (0 < vmid)
unfolding validate
validate-IsInjective u s id id' vmid h e e' =
    let f = check_boxes_sound [] s.boxes (ground arith) in
    let (v, p, _) = bound [] s.boxes id vmid f e in (one_box [] s.boxes id id' vmid f e e', v, p)

router_parts :
    (u : UrlCrate) (settings : Settings) (master authority : Text) (i : Issuer)
    → router u settings master authority ≡ ok i
    → (validate u settings ≡ ok tt)
      × (i.settings ≡ settings)
      × (i.master ≡ master)
      × (i.authority ≡ authority)
      × (32 ≤ length master)
      × (32 ≤ length authority)
      × (text_eq authority master ≡ false)
unfolding router validate_authority
router_parts u settings master authority i h = (
  ground arith,
  ground arith,
  ground arith,
  ground arith,
  ground arith,
  ground arith,
  ground arith,
)

-- An issuer that starts makes identities with an authority key that is not the relay key, and both have 32 bytes at
-- least. In its settings every bound box ID is valid, every bound VMID is positive, and no VM is bound to
-- two boxes.
pub router-IsSafe :
    (u : UrlCrate) (settings : Settings) (master authority : Text) (i : Issuer) (id id' : Text)
    (vmid : ℕ)
    → router u settings master authority ≡ ok i
    → lookup id i.settings.boxes ≡ some vmid
    → lookup id' i.settings.boxes ≡ some vmid
    → (i.authority ≢ i.master)
      × (32 ≤ length i.master)
      × (32 ≤ length i.authority)
      × (id ≡ id')
      × (valid_box_id id ≡ true)
      × (0 < vmid)
router-IsSafe u settings master authority i id id' vmid h e e' =
    let (v, es, em, ea, lm, la, n) = router_parts u settings master authority i h in
    let (same, valid, positive) =
      validate-IsInjective u settings id id' vmid v (ap (λ x. lookup id x.boxes) (sym es) ∙ e)
        (ap (λ x. lookup id' x.boxes) (sym es) ∙ e') in
    let distinct : (k : i.authority ≡ i.master) → ⊥ = λ k.
      let t = text_eq_refl master in
      let k' : authority ≡ master = sym ea ∙ k ∙ em in
      let t' : text_eq authority master ≡ true = ap (λ x. text_eq x master) k' ∙ t in
      ground arith in
    (distinct, ground arith, ground arith, same, valid, positive)
