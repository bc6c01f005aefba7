-- ===== src/Cli/Snapshots/Finding.antt =====
-- The saved environment that a reference means: `inventory` and `find` of
-- crates/pbox-cli/src/snapshots.rs.
use pbox.Base.{
  ℕ, ◌≡◌, refl, ap, ◌∙◌, subst, inl, inr, Bool, true, false, not, ◌&&◌, ◌||◌, ◌==◌, Option, none,
  some, List, [], ◌∷◌, ◌++◌, Text, text_eq, any, Result, ok, ok-injective, >>=-eq-ok, fail_if-eq-ok,
  All, All-append, Bool-cases, not-true, arith,
}
use pbox.Cli.Snapshots.{
  SavedEnvironment, SnapshotError, wrong_location, ClusterResource, LxcConfig, container, or_empty,
  parse_saved, checked_location, saved_in, collect, saved_lt, insert_saved, sort_saved, inventory,
  matches, matching, only, find_saved,
}

or_true : (b : Bool) {c : Bool} → c ≡ true → (b || c) ≡ true
or_true true h = refl
or_true false h = h

insert_saved-All :
    (P : SavedEnvironment → Type 0) (saved : SavedEnvironment) (rest : List SavedEnvironment)
    → P saved
    → All P rest
    → All P (insert_saved saved rest)
insert_saved-All P saved [] p a = (p, tt)
insert_saved-All P saved (other ∷ rest) p (q, a) = elim (Bool-cases (saved_lt other saved)) [
  | inl e ↦ rw e (q, insert_saved-All P saved rest p a)
  | inr e ↦ rw e (p, (q, a))
]

sort_saved-All :
    (P : SavedEnvironment → Type 0) (saved : List SavedEnvironment)
    → All P saved
    → All P (sort_saved saved)
sort_saved-All P [] a = tt
sort_saved-All P (saved ∷ rest) (p, a) =
    insert_saved-All P saved (sort_saved rest) p (sort_saved-All P rest a)

-- The only environment that a reference matches, where it is in the list.
pub record IsOnly (reference : Text) (all : List SavedEnvironment) (saved : SavedEnvironment)
    : Type 0 where
  pub before : List SavedEnvironment
  pub behind : List SavedEnvironment
  pub cut : all ≡ before ++ saved ∷ behind
  pub matched : matches reference saved ≡ true
  pub none_before : All (λ s. matches reference s ≡ false) before
  pub none_behind : All (λ s. matches reference s ≡ false) behind

nothing_matched :
    (reference : Text) (all : List SavedEnvironment)
    → matching reference all ≡ []
    → All (λ s. matches reference s ≡ false) all
nothing_matched reference [] h = tt
nothing_matched reference (s ∷ all) h = elim (Bool-cases (matches reference s)) [
  | inl e ↦ absurd (ground arith)
  | inr e ↦ (e, nothing_matched reference all (rw e at h))
]

head_same :
    {x y : SavedEnvironment} {xs ys : List SavedEnvironment} → x ∷ xs ≡ y ∷ ys → (x ≡ y) × (xs ≡ ys)
head_same e = (cc, cc)

matching-IsOnly :
    (reference : Text) (all : List SavedEnvironment) (saved : SavedEnvironment)
    → matching reference all ≡ saved ∷ []
    → IsOnly reference all saved
matching-IsOnly reference [] saved h = absurd (ground arith)
matching-IsOnly reference (s ∷ all) saved h = elim (Bool-cases (matches reference s)) [
  | inl e ↦
      let (same, rest) = head_same (rw e at h) in
      record {
        before = [];
        behind = all;
        cut = ap (λ x. x ∷ all) same;
        matched = subst (λ x. matches reference x ≡ true) same e;
        none_before = tt;
        none_behind = nothing_matched reference all rest;
      }
  | inr e ↦
      let later = matching-IsOnly reference all saved (rw e at h) in
      record {
        before = s ∷ later.before;
        behind = later.behind;
        cut = ap (λ x. s ∷ x) later.cut;
        matched = later.matched;
        none_before = (e, later.none_before);
        none_behind = later.none_behind;
      }
]

only-eq-ok :
    (all : List SavedEnvironment) (saved : SavedEnvironment)
    → only all ≡ ok saved
    → all ≡ saved ∷ []
only-eq-ok [] saved h = absurd (ground arith)
only-eq-ok (s ∷ []) saved h = ap (λ x. x ∷ []) (ok-injective h)
only-eq-ok (s ∷ other ∷ all) saved h = absurd (ground arith)

All-at :
    (P : SavedEnvironment → Type 0) (before behind : List SavedEnvironment)
    (saved : SavedEnvironment)
    → All P (before ++ saved ∷ behind)
    → P saved
All-at P [] behind saved (p, a) = p
All-at P (s ∷ before) behind saved (p, a) = All-at P before behind saved a

-- A container of the list is where the saved environment says that it is.
abbrev pub is_at : SavedEnvironment → Option (Text × ℕ) → Bool
is_at saved none = false
is_at saved (some (node, vmid)) = saved.vmid == vmid && text_eq saved.node node

abbrev pub IsLocated : List ClusterResource → SavedEnvironment → Type 0
IsLocated resources saved = any (λ r. is_at saved (container r)) resources ≡ true

module _ (from_str : Text → Option SavedEnvironment)
    (get_lxc_config : Text → ℕ → Result SnapshotError LxcConfig) where
  location-at :
      (node : Text) (vmid : ℕ) (template : Bool) (saved : Option SavedEnvironment)
      (found : List SavedEnvironment)
      → checked_location from_str get_lxc_config node vmid template saved ≡ ok found
      → All (λ s. is_at s (some (node, vmid)) ≡ true) found
  location-at node vmid template none found h =
      subst (All (λ s. is_at s (some (node, vmid)) ≡ true)) (ok-injective h) tt
  location-at node vmid template (some saved) found h =
      let (h1, k) =
        fail_if-eq-ok (not (saved.vmid == vmid && text_eq saved.node node)) wrong_location _ h in
      subst (All (λ s. is_at s (some (node, vmid)) ≡ true)) (ok-injective k) (not-true _ h1, tt)

  saved_in-at :
      (place : Option (Text × ℕ)) (found : List SavedEnvironment)
      → saved_in from_str get_lxc_config place ≡ ok found
      → All (λ s. is_at s place ≡ true) found
  saved_in-at none found h = subst (All (λ s. is_at s none ≡ true)) (ok-injective h) tt
  saved_in-at (some (node, vmid)) found h =
      let (config, _, h1) = >>=-eq-ok (get_lxc_config node vmid) _ h in
      let (saved, _, h2) = >>=-eq-ok (parse_saved from_str (or_empty config.description)) _ h1 in
      location-at node vmid config.template saved found h2

  here-IsLocated :
      (resource : ClusterResource) (resources : List ClusterResource)
      (found : List SavedEnvironment)
      → All (λ s. is_at s (container resource) ≡ true) found
      → All (IsLocated (resource ∷ resources)) found
  here-IsLocated resource resources [] a = tt
  here-IsLocated resource resources (s ∷ found) (h, a) =
      (rw h refl, here-IsLocated resource resources found a)

  later-IsLocated :
      (resource : ClusterResource) (resources : List ClusterResource)
      (found : List SavedEnvironment)
      → All (IsLocated resources) found
      → All (IsLocated (resource ∷ resources)) found
  later-IsLocated resource resources [] a = tt
  later-IsLocated resource resources (s ∷ found) (h, a) =
      (or_true (is_at s (container resource)) h, later-IsLocated resource resources found a)

  collect-IsLocated :
      (resources : List ClusterResource) (found : List SavedEnvironment)
      → collect from_str get_lxc_config resources ≡ ok found
      → All (IsLocated resources) found
  unfolding collect
  collect-IsLocated [] found h = subst (All (IsLocated [])) (ok-injective h) tt
  collect-IsLocated (resource ∷ resources) found h =
      let (here, e, h1) = >>=-eq-ok (saved_in from_str get_lxc_config (container resource)) _ h in
      let (rest, f, h2) = >>=-eq-ok (collect from_str get_lxc_config resources) _ h1 in
      subst (All (IsLocated (resource ∷ resources))) (ok-injective h2) (
        All-append (IsLocated (resource ∷ resources)) here rest
          (here-IsLocated resource resources here (saved_in-at (container resource) here e))
          (later-IsLocated resource resources rest (collect-IsLocated resources rest f)))

  -- Where a reference means a saved environment, it is in the inventory, it is the only one of it whose ID
  -- or name is the reference, and one of the containers of the cluster has the node and the number that its
  -- metadata names.
  pub find_saved-IsOnly :
      (resources : List ClusterResource) (reference : Text) (saved : SavedEnvironment)
      → find_saved from_str get_lxc_config resources reference ≡ ok saved
      → (all : List SavedEnvironment) × (inventory from_str get_lxc_config resources ≡ ok all)
        × IsOnly reference all saved
        × (any (λ r. is_at saved (container r)) resources ≡ true)
  unfolding find_saved inventory
  find_saved-IsOnly resources reference saved h =
      let (all, e, h1) = >>=-eq-ok (inventory from_str get_lxc_config resources) _ h in
      let (found, f, h2) = >>=-eq-ok (collect from_str get_lxc_config resources) _ e in
      let one =
        matching-IsOnly reference all saved (only-eq-ok (matching reference all) saved h1) in
      let located =
        sort_saved-All (IsLocated resources) found (collect-IsLocated resources found f) in
      let at = subst (All (IsLocated resources)) (ok-injective h2 ∙ one.cut) located in
      (all, e, one, All-at (IsLocated resources) one.before one.behind saved at)
