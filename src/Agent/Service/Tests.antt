-- ===== src/Agent/Service/Tests.antt =====
-- Uploads and environments.
use pbox.Base.{
  ◌≡◌, ◌≢◌, List, arith, refl, true, false, none, some, [], ◌∷◌, Text, codes, text_eq, starts_with,
  strip_prefix, if◌then◌else◌, ok, err, All,
}
use pbox.Agent.Sessions.{ExecRequest}
use pbox.Agent.Service.{
  loader_variable, ended_early, after_end, is_name, is_privileged_loader_environment,
  validate_environment_entry, validate_entries, validate_exec_request, FileChunk, chunk,
  write_chunk, receive, upload_content, FileSystem, safe_mode, Faults, copied, placed, cleaned,
  receive_upload,
}
use pbox.Agent.Service.Upload.Cases.{Uploaded, receive_upload-cases}
use pbox.Agent.Service.Environment.{IsHarmless, validate_exec_request-IsHarmless}

abbrev first : FileChunk
first = record {
  protocol_version = 3;
  data_bytes = codes "ab";
  mode = 420;
  uid = 0;
  gid = 0;
  eof = false;
  atomic_write = true;
}

abbrev last : FileChunk
last = record first { protocol_version = 0; data_bytes = codes "c"; eof = true }

abbrev files : FileSystem
files path =
    if text_eq path (codes "/f") then some (record { content = codes "old"; mode = 384 }) else none

abbrev self : Text → Text
self t = t

-- A file system on which all goes well.
abbrev sound : Faults
sound = record {
  create_fails = false;
  write_fails = λ n. false;
  flush_fails = false;
  mode_fails = false;
  rename_fails = false;
  open_fails = false;
  source_fails = false;
  copy_stops = none;
  flush_stops = none;
  destination_mode_fails = false;
  remove_fails = false;
  cleanup_fails = false;
  left_behind = record { content = []; mode = 384 };
}

abbrev stopping : Faults
stopping = record sound { copy_stops = some 2 }

uploaded :
    (receive_upload 420 sound self files (codes "/t") (codes "/f") first (chunk last ∷ [])).0
    ≡ ok (record { size = 3; digest = codes "abc" })
unfolding receive_upload placed upload_content write_chunk receive text_eq
uploaded = refl

written :
    (receive_upload 420 sound self files (codes "/t") (codes "/f") first (chunk last ∷ [])).1
      (codes "/f")
    ≡ some (record { content = codes "abc"; mode = 420 })
unfolding receive_upload placed upload_content write_chunk receive text_eq safe_mode
written = refl

cut_off :
    (receive_upload 420 sound self files (codes "/t") (codes "/f") first []).0 ≡ err ended_early
unfolding receive_upload upload_content write_chunk receive text_eq
cut_off = refl

too_much : upload_content (λ n. false) first (chunk last ∷ chunk last ∷ []) ≡ err after_end
unfolding upload_content write_chunk receive
too_much = refl

apart : text_eq (codes "/t") (codes "/f") ≡ false
unfolding text_eq
apart = refl

-- A copy that stops leaves the first bytes in place of what there was.
abbrev in_place : FileChunk
in_place = record first { atomic_write = false }

stopped_copy :
    (receive_upload 420 stopping self files (codes "/t") (codes "/f") in_place (chunk last ∷ [])).1
      (codes "/f")
    ≡ some (record { content = codes "ab"; mode = 384 })
unfolding receive_upload placed copied cleaned upload_content write_chunk receive text_eq safe_mode
stopped_copy = refl

receive_upload-cases_example :
    Uploaded self stopping files
      (codes "/t")
      (codes "/f")
      false
      (codes "abc")
      (receive_upload 420 stopping self files (codes "/t") (codes "/f") in_place (chunk last ∷ []))
receive_upload-cases_example =
    receive_upload-cases 420 stopping self files (codes "/t") (codes "/f") in_place
      (chunk last ∷ []) apart

abbrev request : ExecRequest
request = record {
  protocol_version = 3;
  user = codes "pbox";
  cwd = [];
  argv = codes "ls" ∷ [];
  env = (codes "LANG", codes "C") ∷ [];
  allocate_pty = false;
  session_name = [];
  terminal_rows = 0;
  terminal_cols = 0;
}

accepted : validate_exec_request false request ≡ ok tt
unfolding validate_exec_request validate_entries validate_environment_entry is_name
    is_privileged_loader_environment starts_with strip_prefix text_eq
accepted = refl

preload : validate_environment_entry (codes "LD_PRELOAD") (codes "x") false ≡ err loader_variable
unfolding validate_environment_entry is_name is_privileged_loader_environment starts_with
    strip_prefix
preload = refl

not_root : codes "pbox" ≢ codes "root"
not_root e = ground arith

validate_exec_request-IsHarmless_example :
    ((program : Text) × (arguments : List Text) × (codes "ls" ∷ [] ≡ program ∷ arguments)
      × (program ≢ []))
    × All IsHarmless ((codes "LANG", codes "C") ∷ [])
validate_exec_request-IsHarmless_example =
    validate_exec_request-IsHarmless request not_root accepted
