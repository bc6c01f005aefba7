-- ===== src/Agent/Workspace/Laws.antt =====
-- What a resolved request keeps of the request, and what it always has: `resolve` of
-- crates/pbox-agent/src/workspace.rs.
use pbox.Base.{
  ◌≡◌, refl, sym, subst, inl, inr, Bool, true, false, not, ◌&&◌, if◌then◌else◌, Option, none, some,
  List, [], ◌∷◌, Text, codes, text_eq, text_eq_sound, text_eq_refl, is_empty, split_once, ok,
  ok-injective, >>=-eq-ok, fail_if-eq-ok, Bool-cases, Option-cases, arith, ◌⊎◌,
}
use pbox.Agent.Sessions.{ExecRequest}
use pbox.Agent.Workspace.{
  ImageConfig, Users, Identity, no_shell, is_none, identity, Env, get_env, or_insert, or_text,
  development_default, resolved_user, resolved_cwd, add_entry, with_image_env, user_name,
  with_development, resolved_env, is_default, first_is_empty, default_argv, resolved_argv, resolve,
}

or_insert-kept :
    (key value k v : Text) (env : Env)
    → get_env k env ≡ some v
    → get_env k (or_insert key value env) ≡ some v
or_insert-kept key value k v env h = elim (Option-cases (get_env key env)) [
  | inr (w, e) ↦ rw e h
  | inl e ↦ elim (Bool-cases (text_eq key k)) [
    | inr f ↦ rw (e, f) h
    | inl f ↦
        let gone = subst (λ x. get_env x env ≡ none) (text_eq_sound key k f) e in
        absurd (ground arith)
  ]
]

or_insert-there :
    (key value : Text) (env : Env) → is_none (get_env key (or_insert key value env)) ≡ false
or_insert-there key value env = elim (Option-cases (get_env key env)) [
  | inr (w, e) ↦ rw (e, e) refl
  | inl e ↦ rw (e, text_eq_refl key) refl
]

or_insert-keeps :
    (key value k : Text) (env : Env)
    → is_none (get_env k env) ≡ false
    → is_none (get_env k (or_insert key value env)) ≡ false
or_insert-keeps key value k env h = elim (Option-cases (get_env k env)) [
  | inl e ↦ absurd (ground arith)
  | inr (v, e) ↦ rw (or_insert-kept key value k v env e) refl
]

add_entry-kept :
    (entry : Option (Text × Text)) (k v : Text) (env : Env)
    → get_env k env ≡ some v
    → get_env k (add_entry entry env) ≡ some v
add_entry-kept none k v env h = h
add_entry-kept (some (key, value)) k v env h = or_insert-kept key value k v env h

with_image_env-kept :
    (entries : List Text) (k v : Text) (env : Env)
    → get_env k env ≡ some v
    → get_env k (with_image_env entries env) ≡ some v
unfolding with_image_env
with_image_env-kept [] k v env h = h
with_image_env-kept (entry ∷ entries) k v env h =
    with_image_env-kept entries k v (add_entry (split_once b'=' entry) env)
      (add_entry-kept (split_once b'=' entry) k v env h)

with_development-kept :
    (development explicit : Bool) (home k v : Text) (env : Env)
    → text_eq (codes "USER") k ≡ false
    → text_eq (codes "LOGNAME") k ≡ false
    → (explicit ≡ true) ⊎ (text_eq (codes "HOME") k ≡ false)
    → get_env k env ≡ some v
    → get_env k (with_development development explicit home env) ≡ some v
unfolding with_development
with_development-kept false explicit home k v env u l e h = h
with_development-kept true true home k v env u l e h = rw (l, u) h
with_development-kept true false home k v env u l (inl e) h = absurd (ground arith)
with_development-kept true false home k v env u l (inr e) h = rw (l, u, e) h

-- A value of HOME that is there counts as explicit.
explicit_or_other :
    (k v : Text) (env : Env)
    → get_env k env ≡ some v
    → (not (is_none (get_env (codes "HOME") env)) ≡ true) ⊎ (text_eq (codes "HOME") k ≡ false)
explicit_or_other k v env h = elim (Bool-cases (text_eq (codes "HOME") k)) [
  | inr e ↦ inr e
  | inl e ↦ inl (rw (text_eq_sound (codes "HOME") k e, h) refl)
]

term-kept :
    (allocate_pty : Bool) (k v : Text) (env : Env)
    → get_env k env ≡ some v
    → get_env k
        (if allocate_pty then or_insert (codes "TERM") (codes "xterm-256color") env else env)
      ≡ some v
term-kept true k v env h = or_insert-kept (codes "TERM") (codes "xterm-256color") k v env h
term-kept false k v env h = h

resolved_env-kept :
    (development : Bool) (config : ImageConfig) (user : Identity) (allocate_pty : Bool) (k v : Text)
    (env : Env)
    → text_eq (codes "USER") k ≡ false
    → text_eq (codes "LOGNAME") k ≡ false
    → get_env k env ≡ some v
    → get_env k (resolved_env development config user allocate_pty env) ≡ some v
unfolding resolved_env
resolved_env-kept development config user allocate_pty k v env u l h =
    let first =
      if allocate_pty then or_insert (codes "TERM") (codes "xterm-256color") env else env in
    let kept = term-kept allocate_pty k v env h in
    or_insert-kept (codes "USER") (user_name user) k v _ (
      or_insert-kept (codes "HOME") user.home k v _ (
        with_development-kept development _ user.home k v (with_image_env config.env first) u l
          (explicit_or_other k v first kept) (with_image_env-kept config.env k v first kept)))

resolve-eq-ok :
    (users : Users) (has_default_user : Bool) (config : ImageConfig)
    (request resolved : ExecRequest)
    → resolve users has_default_user config request ≡ ok resolved
    → (user : Identity) × (argv : List Text) × (resolved_argv config user request.argv ≡ ok argv)
      × (resolved ≡ (record request {
        user =
            resolved_user
              (is_empty request.user && development_default has_default_user config)
              config
              request.user;
        env =
            resolved_env
              (is_empty request.user && development_default has_default_user config)
              config
              user
              request.allocate_pty
              request.env;
        cwd =
            resolved_cwd
              (is_empty request.user && development_default has_default_user config)
              config
              request.cwd;
        argv = argv;
      }))
unfolding resolve
resolve-eq-ok users has_default_user config request resolved h =
    let (user, _, h1) = >>=-eq-ok (identity users _) _ h in
    let (argv, e, h2) = >>=-eq-ok (resolved_argv config user request.argv) _ h1 in
    (user, argv, e, sym (ok-injective h2))

-- Where a request is resolved, each variable that the request sets itself, other than USER and LOGNAME,
-- keeps its value, whatever the image sets and whoever runs the command.
pub resolve-kept :
    (users : Users) (has_default_user : Bool) (config : ImageConfig)
    (request resolved : ExecRequest) (k v : Text)
    → resolve users has_default_user config request ≡ ok resolved
    → text_eq (codes "USER") k ≡ false
    → text_eq (codes "LOGNAME") k ≡ false
    → get_env k request.env ≡ some v
    → get_env k resolved.env ≡ some v
resolve-kept users has_default_user config request resolved k v h u l g =
    let (user, argv, _, e) = resolve-eq-ok users has_default_user config request resolved h in
    rw e (
      resolved_env-kept (is_empty request.user && development_default has_default_user config)
        config user request.allocate_pty k v request.env u l g)

-- What a command needs: a user, a directory, HOME and USER, and a program where the image chose it.
pub record IsReady (request resolved : ExecRequest) : Type 0 where
  pub some_user : is_empty resolved.user ≡ false
  pub some_cwd : is_empty resolved.cwd ≡ false
  pub home : is_none (get_env (codes "HOME") resolved.env) ≡ false
  pub user : is_none (get_env (codes "USER") resolved.env) ≡ false
  pub program : (is_default request.argv ≡ false) ⊎ (first_is_empty resolved.argv ≡ false)

or_text-full :
    (value : Option Text) (default : Text)
    → is_empty default ≡ false
    → is_empty (or_text value default) ≡ false
or_text-full none default h = h
or_text-full (some []) default h = h
or_text-full (some (c ∷ value)) default h = refl

user-full :
    (development : Bool) (config : ImageConfig) (user : Text)
    → is_empty (resolved_user development config user) ≡ false
unfolding resolved_user
user-full true config [] = refl
user-full false config [] = or_text-full config.user (codes "root") refl
user-full development config (c ∷ user) = refl

cwd-full :
    (development : Bool) (config : ImageConfig) (cwd : Text)
    → is_empty (resolved_cwd development config cwd) ≡ false
unfolding resolved_cwd
cwd-full development config (c ∷ cwd) = refl
cwd-full development config [] =
    elim (Bool-cases
      (development && text_eq (or_text config.working_dir (codes "/")) (codes "/"))) [
        | inl e ↦ rw e refl
        | inr e ↦ rw e (or_text-full config.working_dir (codes "/") refl)
      ]

argv-program :
    (config : ImageConfig) (user : Identity) (argv chosen : List Text)
    → resolved_argv config user argv ≡ ok chosen
    → (is_default argv ≡ false) ⊎ (first_is_empty chosen ≡ false)
unfolding resolved_argv
argv-program config user argv chosen h = elim (Bool-cases (is_default argv)) [
  | inr e ↦ inl e
  | inl e ↦
      let h' = rw e at h in
      let (f, g) = fail_if-eq-ok (first_is_empty (default_argv config user)) no_shell _ h' in
      inr (subst (λ a. first_is_empty a ≡ false) (ok-injective g) f)
]

-- A resolved request has a user and a directory, its environment has HOME and USER, and where it asked
-- for the program of the image, it has one.
pub resolve-IsReady :
    (users : Users) (has_default_user : Bool) (config : ImageConfig)
    (request resolved : ExecRequest)
    → resolve users has_default_user config request ≡ ok resolved
    → IsReady request resolved
unfolding resolved_env
resolve-IsReady users has_default_user config request resolved h =
    let development = is_empty request.user && development_default has_default_user config in
    let (user, argv, c, e) = resolve-eq-ok users has_default_user config request resolved h in
    subst (IsReady request) (sym e) (record {
      some_user = user-full development config request.user;
      some_cwd = cwd-full development config request.cwd;
      home =
          or_insert-keeps (codes "USER") (user_name user) (codes "HOME") _
            (or_insert-there (codes "HOME") user.home _);
      user = or_insert-there (codes "USER") (user_name user) _;
      program = argv-program config user request.argv argv c;
    })
