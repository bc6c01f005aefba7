-- ===== src/Pve/Selection.antt =====
-- The smallest of the candidates of a list of interfaces.
pub mod Usable
use pbox.Base.{
  ℕ, ◌≡◌, refl, ap, sym, ◌∙◌, subst, inl, inr, ◌⊎◌, Bool, true, false, Option, none, some, List, [],
  ◌∷◌, All, Bool-cases, Option-cases, arith,
}
use pbox.Pve.{LxcInterface, Ipv4, candidate, before, octets_le, key_le, smaller, smallest}

before_trans :
    (x y z : ℕ) (r s t : Bool)
    → (r ≡ true → s ≡ true → t ≡ true)
    → before x y r ≡ true
    → before y z s ≡ true
    → before x z t ≡ true
unfolding before
before_trans x y z r s t f h h' = elim (Bool-cases r) [
  | inl e ↦ elim (Bool-cases s) [
    | inl e' ↦ let e'' = f e e' in ground arith
    | inr e' ↦ ground arith
  ]
  | inr e ↦ ground arith
]

before_total :
    (x y : ℕ) (r s : Bool) → (r ≡ false → s ≡ true) → before x y r ≡ false → before y x s ≡ true
unfolding before
before_total x y r s f h = elim (Bool-cases r) [
  | inl e ↦ ground arith
  | inr e ↦ let e' = f e in ground arith
]

octets_le_trans :
    (x y z : Ipv4) → octets_le x y ≡ true → octets_le y z ≡ true → octets_le x z ≡ true
unfolding octets_le
octets_le_trans (a, b, c, d) (a', b', c', d') (a'', b'', c'', d'') =
    before_trans a a' a'' _ _ _
      (before_trans b b' b'' _ _ _ (before_trans c c' c'' _ _ _ (λ h h'. ground arith)))

octets_le_total : (x y : Ipv4) → octets_le x y ≡ false → octets_le y x ≡ true
unfolding octets_le
octets_le_total (a, b, c, d) (a', b', c', d') =
    before_total a a' _ _ (before_total b b' _ _ (before_total c c' _ _ (λ h. ground arith)))

key_le_trans : (x y z : Bool × Ipv4) → key_le x y ≡ true → key_le y z ≡ true → key_le x z ≡ true
unfolding key_le
key_le_trans (false, x) (false, y) (false, z) h h' = octets_le_trans x y z h h'
key_le_trans (true, x) (true, y) (true, z) h h' = octets_le_trans x y z h h'
key_le_trans (false, x) (false, y) (true, z) h h' = refl
key_le_trans (false, x) (true, y) (true, z) h h' = refl
key_le_trans (false, x) (true, y) (false, z) h h' = absurd (ground arith)
key_le_trans (true, x) (false, y) z h h' = absurd (ground arith)
key_le_trans (true, x) (true, y) (false, z) h h' = absurd (ground arith)

key_le_total : (x y : Bool × Ipv4) → key_le x y ≡ false → key_le y x ≡ true
unfolding key_le
key_le_total (false, x) (false, y) h = octets_le_total x y h
key_le_total (true, x) (true, y) h = octets_le_total x y h
key_le_total (false, x) (true, y) h = absurd (ground arith)
key_le_total (true, x) (false, y) h = refl

key_le_refl : (x : Bool × Ipv4) → key_le x x ≡ true
key_le_refl x = elim (Bool-cases (key_le x x)) [ inl e ↦ e | inr e ↦ key_le_total x x e ]

-- No interface of the list has a candidate that comes before a key.
abbrev pub Least : Bool × Ipv4 → List LxcInterface → Type 0
Least k = All (λ i. (x : Bool × Ipv4) → candidate i ≡ some x → key_le k x ≡ true)

abbrev pub Offers : Bool × Ipv4 → List LxcInterface → Type 0
Offers k [] = ⊥
Offers k (i ∷ is) = (candidate i ≡ some k) ⊎ Offers k is

smaller_offers :
    (x k : Bool × Ipv4) (rest : Option (Bool × Ipv4))
    → smaller x rest ≡ k
    → (x ≡ k) ⊎ (rest ≡ some k)
unfolding smaller
smaller_offers x k none h = inl h
smaller_offers x k (some y) h = elim (Bool-cases (key_le x y)) [
  | inl e ↦ inl (ground arith)
  | inr e ↦ inr (ground arith)
]

smaller_left :
    (x k : Bool × Ipv4) (rest : Option (Bool × Ipv4)) → smaller x rest ≡ k → key_le k x ≡ true
unfolding smaller
smaller_left x k none h = subst (λ z. key_le z x ≡ true) h (key_le_refl x)
smaller_left x k (some y) h = elim (Bool-cases (key_le x y)) [
  | inl e ↦ let same : x ≡ k = ground arith in subst (λ z. key_le z x ≡ true) same (key_le_refl x)
  | inr e ↦
      let same : y ≡ k = ground arith in subst (λ z. key_le z x ≡ true) same (key_le_total x y e)
]

smaller_right : (x k y : Bool × Ipv4) → smaller x (some y) ≡ k → key_le k y ≡ true
unfolding smaller
smaller_right x k y h = elim (Bool-cases (key_le x y)) [
  | inl e ↦ let same : x ≡ k = ground arith in subst (λ z. key_le z y ≡ true) same e
  | inr e ↦ let same : y ≡ k = ground arith in subst (λ z. key_le z y ≡ true) same (key_le_refl y)
]

abbrev Idle : List LxcInterface → Type 0
Idle = All (λ i. candidate i ≡ none)

Idle-Least : (k : Bool × Ipv4) (is : List LxcInterface) → Idle is → Least k is
Idle-Least k [] a = tt
Idle-Least k (i ∷ is) (n, a) = ((λ x e. absurd (ground arith)), Idle-Least k is a)

Least-below :
    (k m : Bool × Ipv4) (is : List LxcInterface) → key_le k m ≡ true → Least m is → Least k is
Least-below k m [] h a = tt
Least-below k m (i ∷ is) h (f, a) = ((λ x e. key_le_trans k m x h (f x e)), Least-below k m is h a)

smallest-Idle : (is : List LxcInterface) → smallest is ≡ none → Idle is
unfolding smallest
smallest-Idle [] h = tt
smallest-Idle (i ∷ is) h = elim (Option-cases (candidate i)) [
  | inl e ↦ (e, smallest-Idle is (ground arith))
  | inr (x, e) ↦ absurd (ground arith)
]

pub smallest-Least :
    (is : List LxcInterface) (k : Bool × Ipv4) → smallest is ≡ some k → Offers k is × Least k is
unfolding smallest
smallest-Least [] k h = absurd (ground arith)
smallest-Least (i ∷ is) k h = elim (Option-cases (candidate i)) [
  | inl e ↦
      let (o, l) = smallest-Least is k (ground arith) in
      (inr o, ((λ x e'. absurd (ground arith)), l))
  | inr (x, e) ↦
      let s : smaller x (smallest is) ≡ k = ground arith in
      let first : (y : Bool × Ipv4) → candidate i ≡ some y → key_le k y ≡ true = λ y e'.
        let same : x ≡ y = ground arith in
        subst (λ z. key_le k z ≡ true) same (smaller_left x k (smallest is) s) in
      elim (Option-cases (smallest is)) [
        | inl none_left ↦
            let same : x ≡ k = elim (smaller_offers x k (smallest is) s) [
              | inl q ↦ q
              | inr q ↦ absurd (ground arith)
            ] in
            (inl (e ∙ ap some same), (first, Idle-Least k is (smallest-Idle is none_left)))
        | inr (m, found) ↦
            let (o, l) = smallest-Least is m found in
            let right = smaller_right x k m (ap (smaller x) (sym found) ∙ s) in
            (
              elim (smaller_offers x k (smallest is) s) [
                | inl q ↦ inl (e ∙ ap some q)
                | inr q ↦ let same : m ≡ k = ground arith in inr (subst (λ z. Offers z is) same o)
              ],
              (first, Least-below k m is right l),
            )
      ]
]
