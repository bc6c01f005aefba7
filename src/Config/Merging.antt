-- ===== src/Config/Merging.antt =====
-- What `load` gives: a valid configuration, whatever the layers are.
use pbox.Base.{
  ◌≡◌, refl, subst, inl, inr, Option, none, some, List, [], ◌∷◌, Text, Result, ok, err,
  ok-injective, >>=-eq-ok, ap, Result-cases, Option-cases, ◌↔◌, All, arith,
}
use pbox.Relay.Route.{UrlCrate}
use pbox.Config.{Config, key_name}
use pbox.Config.Checks.{ConfigError}
use pbox.Config.Keys.{key_of_iff}
use pbox.Config.Values.{validate, in_pve, in_recipes}
use pbox.Config.Valid.{Fits}
use pbox.Config.Changes.{set_value-validate, default-validate, validate_sound, validate_complete}
use pbox.Config.Layers.{
  ConfigOverrides, no_overrides, Change, value, tls_insecure, auto_sync, rollback, changes,
  read_environment, FileRead, contents, missing, unreadable, LoadError, lift, apply, apply_all,
  apply_overrides, apply_environment, load_file, load,
}

module _ (u : UrlCrate) where
  abbrev Free : Change → Type 0
  Free (value k v) = (t : Text) → Fits u k t
  Free _ = Unit {0}

  apply-validate :
      (change : Change) (c c' : Config)
      → Free change
      → validate u c ≡ ok tt
      → apply u change c ≡ ok c'
      → validate u c' ≡ ok tt
  unfolding apply
  apply-validate (value k none) c c' f h e = subst (λ x. validate u x ≡ ok tt) (ground arith) h
  apply-validate (value k (some v)) c c' f h e =
      set_value-validate u c c' k (key_name k) v ((key_of_iff (key_name k) k).1 refl) (f v) h e
  apply-validate (tls_insecure none) c c' f h e = subst (λ x. validate u x ≡ ok tt) (ground arith) h
  apply-validate (tls_insecure (some b)) c c' f h e =
      subst (λ x. validate u x ≡ ok tt) (ground arith)
        (validate_complete u (in_pve (record c.pve { tls_insecure = b }) c) (validate_sound u c h))
  apply-validate (auto_sync none) c c' f h e = subst (λ x. validate u x ≡ ok tt) (ground arith) h
  apply-validate (auto_sync (some b)) c c' f h e =
      subst (λ x. validate u x ≡ ok tt) (ground arith)
        (validate_complete u (in_recipes (record c.recipes { auto_sync = b }) c)
          (validate_sound u c h))
  apply-validate (rollback none) c c' f h e = subst (λ x. validate u x ≡ ok tt) (ground arith) h
  apply-validate (rollback (some b)) c c' f h e =
      subst (λ x. validate u x ≡ ok tt) (ground arith)
        (validate_complete u (in_recipes (record c.recipes { rollback_on_failure = b }) c)
          (validate_sound u c h))

  apply_all-validate :
      (changes : List Change) (c c' : Config)
      → All Free changes
      → validate u c ≡ ok tt
      → apply_all u changes c ≡ ok c'
      → validate u c' ≡ ok tt
  apply_all-validate [] c c' f h e = subst (λ x. validate u x ≡ ok tt) (ground arith) h
  apply_all-validate (change ∷ changes) c c' (f, fs) h e = elim (Result-cases (apply u change c)) [
    | inl (c1, e1) ↦
        apply_all-validate changes c1 c' fs (apply-validate change c c1 f h e1) (ground arith)
    | inr (x, e1) ↦ absurd (ground arith)
  ]

  overrides-validate :
      (o : ConfigOverrides) (c c' : Config)
      → validate u c ≡ ok tt
      → apply_overrides u c o ≡ ok c'
      → validate u c' ≡ ok tt
  unfolding apply_overrides
  overrides-validate o c c' h e =
      apply_all-validate (changes o) c c'
        (
          (λ t. tt),
          (
            (λ t. tt),
            (
              (λ t. tt),
              (
                tt,
                (
                  (λ t. tt),
                  (
                    (λ t. tt),
                    ((λ t. tt), ((λ t. tt), (tt, ((λ t. tt), ((λ t. tt), (tt, ((λ t. tt), tt))))))),
                  ),
                ),
              ),
            ),
          ),
        )
        h e

  environment-validate :
      (vars : List (Text × Text)) (c c' : Config)
      → validate u c ≡ ok tt
      → apply_environment u c vars ≡ ok c'
      → validate u c' ≡ ok tt
  unfolding apply_environment
  environment-validate vars c c' h e = elim (Result-cases (read_environment no_overrides vars)) [
    | inl (o, e1) ↦ overrides-validate o c c' h (ground arith)
    | inr (x, e1) ↦ absurd (ground arith)
  ]

  load_file-validate :
      (toml : Text → Option Config) (file : FileRead) (c : Config)
      → load_file u toml file ≡ ok c
      → validate u c ≡ ok tt
  unfolding load_file
  load_file-validate toml missing c h =
      subst (λ x. validate u x ≡ ok tt) (ground arith) (default-validate u)
  load_file-validate toml unreadable c h = absurd (ground arith)
  load_file-validate toml (contents t) c h = elim (Option-cases (toml t)) [
    | inl e ↦ absurd (ground arith)
    | inr (parsed, e) ↦ elim (Result-cases (validate u parsed)) [
      | inr (x, e1) ↦ absurd (ground arith)
      | inl (tt, e1) ↦ subst (λ x. validate u x ≡ ok tt) (ground arith) e1
    ]
  ]

  lift-eq-ok :
      {A : Type 0} (r : Result ConfigError A) {a : A}
      → ◌≡◌ {A = Result LoadError A} (lift r) (ok a)
      → r ≡ ok a
  lift-eq-ok (ok x) h = ap ok (ok-injective h)
  lift-eq-ok (err e) h = absurd (ground arith)

  -- The file, the environment and the overrides, applied in this order, give a configuration; it is not
  -- checked as a whole.
  pub record Layered (toml : Text → Option Config) (file : FileRead) (vars : List (Text × Text))
      (overrides : ConfigOverrides) (c : Config) : Type 0 where
    pub from_file : Config
    pub from_environment : Config
    pub reads : load_file u toml file ≡ ok from_file
    pub environment : apply_environment u from_file vars ≡ ok from_environment
    pub overridden : apply_overrides u from_environment overrides ≡ ok c

  Layered-validate :
      (toml : Text → Option Config) (file : FileRead) (vars : List (Text × Text))
      (overrides : ConfigOverrides) (c : Config)
      → Layered toml file vars overrides c
      → validate u c ≡ ok tt
  Layered-validate toml file vars overrides c l =
      overrides-validate overrides l.from_environment c
        (environment-validate vars l.from_file l.from_environment
          (load_file-validate toml file l.from_file l.reads) l.environment)
        l.overridden

  load-Layered :
      (toml : Text → Option Config) (file : FileRead) (vars : List (Text × Text))
      (overrides : ConfigOverrides) (c : Config)
      → load u toml file vars overrides ≡ ok c
      → Layered toml file vars overrides c
  unfolding load
  load-Layered toml file vars overrides c h =
      let (c1, e1, h1) = >>=-eq-ok (load_file u toml file) _ h in
      let (c2, e2, h2) = >>=-eq-ok (lift (apply_environment u c1 vars)) _ h1 in
      let (c3, e3, h3) = >>=-eq-ok (lift (apply_overrides u c2 overrides)) _ h2 in
      let (_, _, h4) = >>=-eq-ok (lift (validate u c3)) _ h3 in
      record {
        from_file = c1;
        from_environment = c2;
        reads = e1;
        environment = lift-eq-ok (apply_environment u c1 vars) e2;
        overridden =
            subst (λ x. apply_overrides u c2 overrides ≡ ok x) (ok-injective h4)
              (lift-eq-ok (apply_overrides u c2 overrides) e3);
      }

  Layered-load :
      (toml : Text → Option Config) (file : FileRead) (vars : List (Text × Text))
      (overrides : ConfigOverrides) (c : Config)
      → Layered toml file vars overrides c
      → load u toml file vars overrides ≡ ok c
  unfolding load
  Layered-load toml file vars overrides c l =
      let valid = Layered-validate toml file vars overrides c l in
      rw (l.reads, l.environment, l.overridden, valid) refl

  -- A configuration is loaded exactly if the file, the environment and the overrides give it when each is
  -- applied to what those before it gave: the check of the whole configuration at the end of `load` never
  -- refuses what the layers have accepted.
  pub load_iff :
      (toml : Text → Option Config) (file : FileRead) (vars : List (Text × Text))
      (overrides : ConfigOverrides) (c : Config)
      → (load u toml file vars overrides ≡ ok c) ↔ Layered toml file vars overrides c
  load_iff toml file vars overrides c =
      (load-Layered toml file vars overrides c, Layered-load toml file vars overrides c)
