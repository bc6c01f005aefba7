-- ===== src/Vmid/Allocation.antt =====
-- Which VMID `allocate_lowest` returns, and when it reports that none is left.
use pbox.Base.{
  ℕ, zero, suc, ◌+◌, ◌-◌, ◌≤◌, ◌<◌, ◌≡◌, refl, inl, inr, true, false, some, List, Result, ok, err,
  Bool-cases, arith,
}
use native.Mathlib.Decide.{ℕ_discrete}
use pbox.Vmid.{
  VmidPattern, VmidError, exhausted, display, contains, is_used, allocate_from, allocate_lowest,
}

-- Every VMID from `a` up to, and not with, `b` is in use.
abbrev pub AllUsed : List ℕ → ℕ → ℕ → Type 0
AllUsed used a b = (v : ℕ) → a ≤ v → v < b → is_used used v ≡ true

-- The two ways in which an allocation ends: with the lowest VMID of the pattern that is free, or
-- with `Exhausted`, and then all of them are in use.
abbrev pub Ends : VmidPattern → List ℕ → ℕ → Result VmidError ℕ → Type 0
Ends p used from (ok v) = (contains p v ≡ true) × (is_used used v ≡ false) × AllUsed used from v
Ends p used from (err e) = (e ≡ exhausted (display p)) × AllUsed used from (p.last + 1)

AllUsed-cons :
    (used : List ℕ) (a b : ℕ) → is_used used a ≡ true → AllUsed used (a + 1) b → AllUsed used a b
AllUsed-cons used a b h more v lo hi = elim (ℕ_discrete a v) [
  | yes e ↦ rw (← e) h
  | no ne ↦ more v (omega arith) hi
]

Ends-cons :
    (p : VmidPattern) (used : List ℕ) (a : ℕ) (r : Result VmidError ℕ)
    → is_used used a ≡ true
    → Ends p used (a + 1) r
    → Ends p used a r
Ends-cons p used a (ok v) h (c, f, more) = (c, f, AllUsed-cons used a v h more)
Ends-cons p used a (err e) h (same, more) = (same, AllUsed-cons used a (p.last + 1) h more)

allocate_from-Ends :
    (fuel : ℕ) (p : VmidPattern) (used : List ℕ) (a : ℕ)
    → p.first ≤ a
    → a ≤ p.last
    → p.last - a < fuel
    → (r : Result VmidError ℕ) × (allocate_from fuel p used a ≡ some r) × Ends p used a r
unfolding allocate_from contains
allocate_from-Ends zero p used a lo hi enough = absurd (omega arith)
allocate_from-Ends (suc fuel) p used a lo hi enough = elim (Bool-cases (is_used used a)) [
  | inr free ↦ (ok a, ground arith, (ground arith, free, λ v below above. absurd (omega arith)))
  | inl taken ↦ elim (ℕ_discrete a p.last) [
    | yes e ↦ (
      err (exhausted (display p)),
      ground arith,
      (refl, AllUsed-cons used a (p.last + 1) taken (λ v below above. absurd (omega arith))),
    )
    | no ne ↦
        let (r, e, ends) =
          allocate_from-Ends fuel p used (a + 1) (omega arith) (omega arith) (omega arith) in
        (r, ground arith, Ends-cons p used a r taken ends)
  ]
]

-- On a pattern whose range is not empty, `allocate_lowest` ends. Either it returns a VMID of the
-- pattern that is not in use while every lower one of the pattern is, or it reports `Exhausted`
-- with the pattern's text, and then every VMID of the pattern is in use.
pub allocate_lowest-Ends :
    (p : VmidPattern) (used : List ℕ)
    → p.first ≤ p.last
    → (r : Result VmidError ℕ) × (allocate_lowest p used ≡ some r) × Ends p used p.first r
unfolding allocate_lowest
allocate_lowest-Ends p used h =
    allocate_from-Ends (p.last - p.first + 1) p used p.first (omega arith) h (omega arith)
