-- ===== src/Agent/Workspace/Tests.antt =====
-- Requests that are resolved against an image.
use pbox.Base.{
  if◌then◌else◌, ◌≡◌, refl, true, false, none, some, [], ◌∷◌, codes, text_eq, split_once,
  rsplit_once, parse_unsigned, parse_digits, ok, err,
}
use pbox.Agent.Sessions.{ExecRequest}
use pbox.Agent.Workspace.{
  ImageConfig, User, Users, no_user, identity, get_env, development_default, resolved_user,
  resolved_cwd, with_image_env, with_development, resolved_env, shell_command, resolved_argv,
  resolve,
}
use pbox.Agent.Workspace.Laws.{IsReady, resolve-kept, resolve-IsReady}

abbrev pbox_user : User
pbox_user = record {
  uid = 1000;
  gid = 1000;
  name = codes "pbox";
  dir = codes "/home/pbox";
  shell = codes "/bin/bash";
}

abbrev users : Users
users = record {
  from_uid = λ uid. none;
  from_name = λ name. if text_eq name (codes "pbox") then some pbox_user else none;
  group_from_name = λ group. none;
}

abbrev image : ImageConfig
image = record {
  user = none;
  working_dir = none;
  env = codes "PATH=/bin" ∷ codes "LANG=C" ∷ [];
  entrypoint = [];
  cmd = codes "nginx" ∷ [];
}

abbrev request : ExecRequest
request = record {
  protocol_version = 3;
  user = [];
  cwd = [];
  argv = codes "pbox:default" ∷ [];
  env = (codes "LANG", codes "en") ∷ [];
  allocate_pty = false;
  session_name = [];
  terminal_rows = 0;
  terminal_cols = 0;
}

abbrev resolved : ExecRequest
resolved = record request {
  user = codes "pbox";
  cwd = codes "/home/pbox";
  argv = codes "/bin/bash" ∷ codes "-i" ∷ [];
  env =
      (codes "LOGNAME", codes "pbox")
      ∷ (codes "USER", codes "pbox")
      ∷ (codes "HOME", codes "/home/pbox")
      ∷ (codes "PATH", codes "/bin")
      ∷ (codes "LANG", codes "en")
      ∷ [];
}

in_development : resolve users true image request ≡ ok resolved
unfolding resolve development_default resolved_user identity split_once parse_unsigned parse_digits
    text_eq resolved_argv shell_command rsplit_once resolved_env with_image_env with_development
    resolved_cwd
in_development = refl

unknown_user : resolve users false image request ≡ err no_user
unfolding resolve development_default resolved_user identity split_once parse_unsigned parse_digits
    text_eq
unknown_user = refl

not_user : text_eq (codes "USER") (codes "LANG") ≡ false
unfolding text_eq
not_user = refl

not_logname : text_eq (codes "LOGNAME") (codes "LANG") ≡ false
unfolding text_eq
not_logname = refl

own_language : get_env (codes "LANG") request.env ≡ some (codes "en")
unfolding text_eq
own_language = refl

resolve-kept_example : get_env (codes "LANG") resolved.env ≡ some (codes "en")
resolve-kept_example =
    resolve-kept users true image request resolved (codes "LANG") (codes "en") in_development
      not_user not_logname own_language

resolve-IsReady_example : IsReady request resolved
resolve-IsReady_example = resolve-IsReady users true image request resolved in_development
