-- ===== src/Relay/Server/Waiters.antt =====
-- The map of waiting agents, `Waiting`: its keys are distinct, and what `remove` leaves.
use pbox.Base.{
  ℕ, suc, length, ◌≡◌, ◌≢◌, refl, ap, sym, ◌∙◌, subst, inl, inr, true, false, none, some, List, [],
  ◌∷◌, ◌++◌, Text, text_eq, text_eq_sound, text_eq_refl, ◌==◌, All, Bool-cases, Option-cases, arith,
  ◌⊎◌,
}
use pbox.Relay.Server.{Waiting, get, remove, remove_waiter}

abbrev pub Distinct : Waiting → Type 0
Distinct [] = Unit {0}
Distinct ((key, generation) ∷ ws) = (get key ws ≡ none) × Distinct ws

-- An element of a list.
abbrev pub In : {A : Type 0} → A → List A → Type 0
In x [] = ⊥
In x (y ∷ ys) = (x ≡ y) ⊎ In x ys

-- A waiter has its connection task, which will remove it.
abbrev pub Backed : List (Text × ℕ) → List (Text × ℕ) → Text × ℕ → Type 0
Backed agents failed w = In w agents ⊎ In w failed

pub In-without :
    {A : Type 0} (x t : A) (front back : List A)
    → In x (front ++ t ∷ back)
    → (x ≡ t) ⊎ In x (front ++ back)
In-without x t [] back i = i
In-without x t (y ∷ front) back (inl e) = inr (inl e)
In-without x t (y ∷ front) back (inr i) = elim (In-without x t front back i) [
  | inl e ↦ inl e
  | inr j ↦ inr (inr j)
]

pub All-mono :
    {A : Type 0} (P Q : A → Type 0) → ((x : A) → P x → Q x) → (xs : List A) → All P xs → All Q xs
All-mono P Q f [] a = tt
All-mono P Q f (x ∷ xs) (p, a) = (f x p, All-mono P Q f xs a)

pub All-both :
    {A : Type 0} (P Q : A → Type 0) (xs : List A) → All P xs → All Q xs → All (λ x. P x × Q x) xs
All-both P Q [] a b = tt
All-both P Q (x ∷ xs) (p, a) (q, b) = ((p, q), All-both P Q xs a b)

pub All-without :
    {A : Type 0} (P : A → Type 0) (t : A) (front back : List A)
    → All P (front ++ t ∷ back)
    → P t × All P (front ++ back)
All-without P t [] back (p, a) = (p, a)
All-without P t (y ∷ front) back (p, a) = let (q, b) = All-without P t front back a in (q, (p, b))

pub All-remove :
    (P : Text × ℕ → Type 0) (box_id : Text) (ws : Waiting) → All P ws → All P (remove box_id ws)
All-remove P box_id [] a = tt
All-remove P box_id ((key, g) ∷ ws) (p, a) = elim (Bool-cases (text_eq key box_id)) [
  | inl e ↦ rw e (All-remove P box_id ws a)
  | inr e ↦ rw e (p, All-remove P box_id ws a)
]

-- What is found under a key is in the map.
pub All-get :
    (P : Text × ℕ → Type 0) (key : Text) (g : ℕ) (ws : Waiting)
    → get key ws ≡ some g
    → All P ws
    → P (key, g)
All-get P key g [] h a = absurd (ground arith)
All-get P key g ((k, v) ∷ ws) h (p, a) = elim (Bool-cases (text_eq k key)) [
  | inl e ↦
      let ev : v ≡ g = ground arith in
      subst (λ x. P (x, g)) (text_eq_sound k key e) (subst (λ x. P (k, x)) ev p)
  | inr e ↦ All-get P key g ws (ground arith) a
]

get-remove :
    (key box_id : Text) (ws : Waiting) → get key ws ≡ none → get key (remove box_id ws) ≡ none
get-remove key box_id [] h = refl
get-remove key box_id ((k, g) ∷ ws) h = ground (arith, get-remove key box_id ws)

pub remove-Distinct : (box_id : Text) (ws : Waiting) → Distinct ws → Distinct (remove box_id ws)
remove-Distinct box_id [] d = tt
remove-Distinct box_id ((key, g) ∷ ws) (n, d) = elim (Bool-cases (text_eq key box_id)) [
  | inl e ↦ rw e (remove-Distinct box_id ws d)
  | inr e ↦ rw e (get-remove key box_id ws n, remove-Distinct box_id ws d)
]

apart : (k key : Text) (v g : ℕ) → text_eq k key ≡ false → ◌≢◌ {A = Text × ℕ} (k, v) (key, g)
apart k key v g h e =
    let t : text_eq k key ≡ true = ap (λ p. text_eq (p.0) key) e ∙ text_eq_refl key in
    absurd (ground arith)

absent : (key : Text) (g : ℕ) (ws : Waiting) → get key ws ≡ none → All (λ w. w ≢ (key, g)) ws
absent key g [] h = tt
absent key g ((k, v) ∷ ws) h = (apart k key v g (ground arith), absent key g ws (ground arith))

-- No waiter is left under the key.
gone : (key : Text) (ws : Waiting) → get key (remove key ws) ≡ none
gone key [] = refl
gone key ((k, v) ∷ ws) = ground (arith, gone key ws)

pub removed : (key : Text) (g : ℕ) (ws : Waiting) → All (λ w. w ≢ (key, g)) (remove key ws)
removed key g ws = absent key g (remove key ws) (gone key ws)

other :
    (key : Text) (g : ℕ) (ws : Waiting)
    → Distinct ws
    → get key ws ≢ some g
    → All (λ w. w ≢ (key, g)) ws
other key g [] d h = tt
other key g ((k, v) ∷ ws) (n, d) h = elim (Bool-cases (text_eq k key)) [
  | inl e ↦
      let same = text_eq_sound k key e in
      (
        (λ p. h (rw e (ap (λ q. some (q.1)) p))),
        absent key g ws (subst (λ x. get x ws ≡ none) same n),
      )
  | inr e ↦ (apart k key v g e, other key g ws d (λ p. h (rw e p)))
]

-- What `remove_waiter` does: nothing, where the waiter is not there, or it removes the key.
remove_waiter-cases :
    (key : Text) (g : ℕ) (ws : Waiting)
    → ((remove_waiter key g ws ≡ ws) × (get key ws ≢ some g))
      ⊎ (remove_waiter key g ws ≡ remove key ws)
unfolding remove_waiter
remove_waiter-cases key g ws = elim (Option-cases (get key ws)) [
  | inl e ↦ inl (ground arith, (λ h. ground arith))
  | inr (v, e) ↦ elim (Bool-cases (v == g)) [
    | inl s ↦ inr (ground arith)
    | inr s ↦ inl (ground arith, (λ h. ground arith))
  ]
]

-- Whoever is left after a waiter was removed is another one.
pub remove_waiter-other :
    (key : Text) (g : ℕ) (ws : Waiting)
    → Distinct ws
    → All (λ w. w ≢ (key, g)) (remove_waiter key g ws)
remove_waiter-other key g ws d = elim (remove_waiter-cases key g ws) [
  | inl (e, n) ↦ subst (All (λ w. w ≢ (key, g))) (sym e) (other key g ws d n)
  | inr e ↦ subst (All (λ w. w ≢ (key, g))) (sym e) (removed key g ws)
]

pub All-remove_waiter :
    (P : Text × ℕ → Type 0) (key : Text) (g : ℕ) (ws : Waiting)
    → All P ws
    → All P (remove_waiter key g ws)
All-remove_waiter P key g ws a = elim (remove_waiter-cases key g ws) [
  | inl (e, n) ↦ subst (All P) (sym e) a
  | inr e ↦ subst (All P) (sym e) (All-remove P key ws a)
]

pub remove_waiter-Distinct :
    (key : Text) (g : ℕ) (ws : Waiting) → Distinct ws → Distinct (remove_waiter key g ws)
remove_waiter-Distinct key g ws d = elim (remove_waiter-cases key g ws) [
  | inl (e, n) ↦ subst Distinct (sym e) d
  | inr e ↦ subst Distinct (sym e) (remove-Distinct key ws d)
]

pub length-without :
    {A : Type 0} (xs front back : List A) (t : A)
    → xs ≡ front ++ t ∷ back
    → length xs ≡ suc (length (front ++ back))
length-without xs [] back t e = ap length e
length-without xs (y ∷ front) back t e =
    ap length e ∙ ap suc (length-without (front ++ t ∷ back) front back t refl)
