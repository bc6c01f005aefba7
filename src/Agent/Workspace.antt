-- ===== src/Agent/Workspace.antt =====
-- crates/pbox-agent/src/workspace.rs: what a request to run a command takes from the image of the
-- container and from the user database of the system, which is a parameter. The environment is a list
-- of keys and values, in which an entry that is inserted stands before an older one of the same key.
pub mod Laws
mod Tests
use pbox.Base.{
  ℕ, ◌≡◌, Bool, true, false, not, ◌&&◌, ◌||◌, ◌==◌, if◌then◌else◌, Option, none, some, List, [],
  ◌∷◌, ◌++◌, Text, codes, text_eq, is_empty, any, length, show, split_once, rsplit_once,
  parse_unsigned, u32_max, Result, ok, err, ◌>>=◌, ◌>>◌, fail_if, ok_or,
}
use pbox.Agent.Sessions.{ExecRequest}

-- The configuration of the image: the fields that are read, where they are strings.
pub record ImageConfig : Type 0 where
  pub user : Option Text
  pub working_dir : Option Text
  pub env : List Text
  pub entrypoint : List Text
  pub cmd : List Text

-- An entry of the user database.
pub record User : Type 0 where
  pub uid : ℕ
  pub gid : ℕ
  pub name : Text
  pub dir : Text
  pub shell : Text

pub record Users : Type 0 where
  pub from_uid : ℕ → Option User
  pub from_name : Text → Option User
  pub group_from_name : Text → Option ℕ

pub record Identity : Type 0 where
  pub uid : ℕ
  pub gid : ℕ
  pub name : Option Text
  pub home : Text
  pub shell : Text

pub data WorkspaceError : Type 0 where
  no_user no_group no_shell : WorkspaceError

abbrev cut_group : Text → Option (Text × Text) → Text × Option Text
cut_group value none = (value, none)
cut_group value (some (user, group)) = (user, some group)

abbrev find_user : Users → Text → Option ℕ → Option User
find_user users name none = users.from_name name
find_user users name (some uid) = users.from_uid uid

abbrev own_group : Option User → ℕ
own_group none = 0
own_group (some user) = user.gid

abbrev group_or : Users → Option User → Option Text → Result WorkspaceError ℕ
group_or users user none = ok (own_group user)
group_or users user (some group) = elim (parse_unsigned u32_max group) [
  | some gid ↦ ok gid
  | none ↦ ok_or (users.group_from_name group) no_group
]

-- The user of an identity: an entry of the database, or else a number alone.
abbrev identified : ℕ → Option User → Option ℕ → Result WorkspaceError Identity
identified gid none none = err no_user
identified gid none (some uid) =
    ok (record { uid = uid; gid = gid; name = none; home = codes "/"; shell = codes "/bin/sh" })
identified gid (some user) numeric = ok (record {
  uid = user.uid;
  gid = gid;
  name = some user.name;
  home = user.dir;
  shell = user.shell;
})

abbrev pub is_none : {A : Type 0} → Option A → Bool
is_none none = true
is_none (some a) = false

unfoldable pub identity : Users → Text → Result WorkspaceError Identity
identity users value =
    let (name, group) = cut_group value (split_once b':' value) in
    let numeric = parse_unsigned u32_max name in
    let user = find_user users name numeric in
    do
      fail_if (is_none user && is_none numeric) no_user
      gid ← group_or users user group
      identified gid user numeric

abbrev pub Env : Type 0
Env = List (Text × Text)

abbrev pub get_env : Text → Env → Option Text
get_env key [] = none
get_env key ((name, value) ∷ env) = if text_eq name key then some value else get_env key env

-- `entry(key).or_insert(value)`.
abbrev pub or_insert : Text → Text → Env → Env
or_insert key value env = if is_none (get_env key env) then (key, value) ∷ env else env

abbrev pub insert_env : Text → Text → Env → Env
insert_env key value env = (key, value) ∷ env

abbrev pub or_text : Option Text → Text → Text
or_text none default = default
or_text (some value) default = if is_empty value then default else value

abbrev is_root : Option Text → Bool
is_root none = true
is_root (some user) =
    is_empty user
    || any (λ name. text_eq user name)
        (codes "root" ∷ codes "0" ∷ codes "0:0" ∷ codes "root:root" ∷ [])

-- Whether the file /etc/pbox/default-user is there is a parameter.
unfoldable pub development_default : Bool → ImageConfig → Bool
development_default has_default_user config = has_default_user && is_root config.user

unfoldable pub resolved_user : Bool → ImageConfig → Text → Text
resolved_user development config user =
    if is_empty user
    then if development then codes "pbox" else or_text config.user (codes "root")
    else user

unfoldable pub resolved_cwd : Bool → ImageConfig → Text → Text
resolved_cwd development config cwd =
    let dir = or_text config.working_dir (codes "/") in
    if is_empty cwd
    then if development && text_eq dir (codes "/") then codes "/home/pbox" else dir
    else cwd

abbrev pub add_entry : Option (Text × Text) → Env → Env
add_entry none env = env
add_entry (some (key, value)) env = or_insert key value env

-- The entries of the image, in order, behind what is there.
unfoldable pub with_image_env : List Text → Env → Env
with_image_env [] env = env
with_image_env (entry ∷ entries) env =
    with_image_env entries (add_entry (split_once b'=' entry) env)

abbrev pub user_name : Identity → Text
user_name identity = elim identity.name [ none ↦ show identity.uid | some name ↦ name ]

unfoldable pub with_development : Bool → Bool → Text → Env → Env
with_development development explicit_home home env =
    if development
    then insert_env (codes "LOGNAME") (codes "pbox") (
        insert_env (codes "USER") (codes "pbox")
          (if explicit_home then env else insert_env (codes "HOME") home env))
    else env

unfoldable pub resolved_env : Bool → ImageConfig → Identity → Bool → Env → Env
resolved_env development config user allocate_pty env =
    let env = if allocate_pty then or_insert (codes "TERM") (codes "xterm-256color") env else env in
    or_insert (codes "USER") (user_name user) (
      or_insert (codes "HOME") user.home (
        with_development development (not (is_none (get_env (codes "HOME") env))) user.home
          (with_image_env config.env env)))

-- The last part of a path, where it is a name: `Path::file_name`, on paths that do not end in a slash
-- or in two dots.
abbrev file_name : Text → Text
file_name path = elim (rsplit_once b'/' path) [ none ↦ path | some (dir, name) ↦ name ]

unfoldable pub shell_command : List Text → Bool
shell_command (program ∷ []) =
    any (λ name. text_eq (file_name program) name)
      (codes "sh"
        ∷ codes "bash"
        ∷ codes "zsh"
        ∷ codes "fish"
        ∷ codes "ash"
        ∷ codes "dash"
        ∷ codes "ksh"
        ∷ [])
shell_command argv = false

abbrev pub is_default : List Text → Bool
is_default (argument ∷ []) = text_eq argument (codes "pbox:default")
is_default argv = false

abbrev pub first_is_empty : List Text → Bool
first_is_empty [] = true
first_is_empty (argument ∷ argv) = is_empty argument

abbrev pub default_argv : ImageConfig → Identity → List Text
default_argv config user =
    let argv = config.entrypoint ++ config.cmd in
    if shell_command argv then argv else user.shell ∷ codes "-i" ∷ []

unfoldable pub resolved_argv :
    ImageConfig → Identity → List Text → Result WorkspaceError (List Text)
resolved_argv config user argv =
    if is_default argv
    then (do
      fail_if (first_is_empty (default_argv config user)) no_shell
      ok (default_argv config user))
    else ok argv

unfoldable pub resolve :
    Users → Bool → ImageConfig → ExecRequest → Result WorkspaceError ExecRequest
resolve users has_default_user config request =
    let development = is_empty request.user && development_default has_default_user config in
    do
      user ← identity users (resolved_user development config request.user)
      argv ← resolved_argv config user request.argv
      ok (record request {
        user = resolved_user development config request.user;
        env = resolved_env development config user request.allocate_pty request.env;
        cwd = resolved_cwd development config request.cwd;
        argv = argv;
      })
