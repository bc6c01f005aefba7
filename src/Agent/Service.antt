-- ===== src/Agent/Service.antt =====
-- crates/pbox-agent/src/main.rs: what the agent checks of a request to run a command, and the upload of
-- a file. The file system is a function from paths to files; which of its operations fail, and how much
-- is written before they do, is a parameter of an upload; hashing is a parameter.
pub mod Upload
pub mod Environment
mod Tests
use pbox.Base.{
  ℕ, ◌+◌, ◌-◌, ◌≡◌, Bool, true, false, not, ◌&&◌, ◌||◌, ◌==◌, ltb, leb, if◌then◌else◌, Option, none,
  some, List, [], ◌∷◌, ◌++◌, Text, codes, text_eq, starts_with, is_empty, is_lowercase,
  is_uppercase, is_alphanumeric, all, any, length, take, bit_and, Result, ok, err, ◌>>=◌, ◌>>◌,
  fail_if,
}
use pbox.Agent.Sessions.{ExecRequest, protocol}

pub data ServiceError : Type 0 where
  bad_version no_command bad_name nul_in_value loader_variable bad_path : ServiceError
  ownership too_large idle_timeout ended_early after_end temporary_exists : ServiceError
  stream_failed io_failed : ServiceError

abbrev pub starts_name : Text → Bool
starts_name [] = false
starts_name (c ∷ name) = c == b'_' || (is_lowercase c || is_uppercase c)

unfoldable pub is_name : Text → Bool
is_name name = starts_name name && all (λ c. c == b'_' || is_alphanumeric c) name

unfoldable pub is_privileged_loader_environment : Text → Bool
is_privileged_loader_environment name =
    starts_with (codes "LD_") name
    || (starts_with (codes "DYLD_") name
        || any (λ other. text_eq name other)
            (codes "GCONV_PATH" ∷ codes "GLIBC_TUNABLES" ∷ codes "LOCPATH" ∷ []))

unfoldable pub validate_environment_entry : Text → Text → Bool → Result ServiceError (Unit {0})
validate_environment_entry name value root = do
  fail_if (not (is_name name)) bad_name
  fail_if (any (λ c. c == 0) value) nul_in_value
  fail_if (not root && is_privileged_loader_environment name) loader_variable

unfoldable pub validate_entries : Bool → List (Text × Text) → Result ServiceError (Unit {0})
validate_entries root [] = ok tt
validate_entries root ((name, value) ∷ env) = do
  validate_environment_entry name value root
  validate_entries root env

abbrev pub no_program : List Text → Bool
no_program [] = true
no_program (program ∷ argv) = is_empty program

-- Whether the image has its own configuration is a parameter.
unfoldable pub validate_exec_request : Bool → ExecRequest → Result ServiceError (Unit {0})
validate_exec_request has_image request = do
  fail_if (not (request.protocol_version == protocol)) bad_version
  fail_if (no_program request.argv) no_command
  validate_entries (text_eq request.user (codes "root") || has_image) request.env

unfoldable pub safe_path : Text → Result ServiceError Text
safe_path value = do fail_if (is_empty value || any (λ c. c == 0) value) bad_path; ok value

pub record FileChunk : Type 0 where
  pub protocol_version : ℕ
  pub data_bytes : Text
  pub mode : ℕ
  pub uid : ℕ
  pub gid : ℕ
  pub eof : Bool
  pub atomic_write : Bool

-- What comes next on the stream: a chunk, nothing in time, or an error of the stream. The stream has
-- closed where there is nothing more.
pub data StreamEvent : Type 0 where
  chunk : FileChunk → StreamEvent
  idle broken : StreamEvent

-- The content of the temporary file, and the size that is counted.
pub record Received : Type 0 where
  pub content : Text
  pub size : ℕ

abbrev pub max_file_size : ℕ
max_file_size = 67108864

abbrev pub has_owner : FileChunk → Bool
has_owner c = not (c.uid == 0) || not (c.gid == 0)

-- Whether the write fails that begins at a size of the temporary file.
module _ (write_fails : ℕ → Bool) where
  unfoldable pub write_chunk : FileChunk → Received → Result ServiceError Received
  write_chunk c received = do
    fail_if (ltb (max_file_size - received.size) (length c.data_bytes)) too_large
    fail_if (write_fails received.size) io_failed
    ok (record {
      content = received.content ++ c.data_bytes;
      size = received.size + length c.data_bytes;
    })

  -- The loop, until a chunk is the last; what is left of the stream is returned too.
  unfoldable pub receive :
      Bool → Received → List StreamEvent → Result ServiceError (Received × List StreamEvent)
  receive true received events = ok (received, events)
  receive false received [] = err ended_early
  receive false received (idle ∷ events) = err idle_timeout
  receive false received (broken ∷ events) = err stream_failed
  receive false received (chunk c ∷ events) = do
    fail_if (not (c.protocol_version == 0) && not (c.protocol_version == protocol)) bad_version
    fail_if (has_owner c) ownership
    received ← write_chunk c received
    receive c.eof received events

abbrev pub check_end : List StreamEvent → Result ServiceError (Unit {0})
check_end [] = ok tt
check_end (idle ∷ events) = err idle_timeout
check_end (broken ∷ events) = err stream_failed
check_end (chunk c ∷ events) = err after_end

module _ (write_fails : ℕ → Bool) where
  unfoldable pub upload_content : FileChunk → List StreamEvent → Result ServiceError Received
  upload_content first events = do
    fail_if (has_owner first) ownership
    received ← write_chunk write_fails first (record { content = []; size = 0 })
    (received, left) ← receive write_fails first.eof received events
    check_end left
    ok received

pub record File : Type 0 where
  pub content : Text
  pub mode : ℕ

abbrev pub FileSystem : Type 0
FileSystem = Text → Option File

abbrev pub put : Text → Option File → FileSystem → FileSystem
put path file files other = if text_eq path other then file else files other

unfoldable pub safe_mode : ℕ → ℕ
safe_mode mode = bit_and mode 511

abbrev pub mode_or : ℕ → ℕ → ℕ
mode_or mode old = if mode == 0 then old else safe_mode mode

-- The mode of a file that is written in place: its own, or that of a new file.
abbrev pub old_mode : ℕ → Option File → ℕ
old_mode default none = default
old_mode default (some file) = file.mode

pub record FileResult : Type 0 where
  pub size : ℕ
  pub digest : Text

-- What the file system does: which operations fail; how many bytes are in the destination where the copy
-- or its flush fails; and what a temporary file holds that cannot be removed.
pub record Faults : Type 0 where
  pub create_fails : Bool
  pub write_fails : ℕ → Bool
  pub flush_fails : Bool
  pub mode_fails : Bool
  pub rename_fails : Bool
  pub open_fails : Bool
  pub source_fails : Bool
  pub copy_stops : Option ℕ
  pub flush_stops : Option ℕ
  pub destination_mode_fails : Bool
  pub remove_fails : Bool
  pub cleanup_fails : Bool
  pub left_behind : File

abbrev pub is_there : Option File → Bool
is_there none = false
is_there (some file) = true

abbrev pub Placing : Type 0
Placing = Result ServiceError (Unit {0}) × FileSystem

abbrev pub stored : FileSystem → Text → Text → ℕ → FileSystem
stored files destination content mode =
    put destination (some (record { content = content; mode = mode })) files

-- A copy, or its flush, that stops after some bytes, or goes on with the rest.
abbrev pub stops : Option ℕ → FileSystem → Text → Text → ℕ → Placing → Placing
stops none files destination content mode rest = rest
stops (some n) files destination content mode rest =
    (err io_failed, stored files destination (take n content) mode)

module _ (default_mode : ℕ) (faults : Faults) where
  -- The mode and the removal of the temporary file, once the destination has the data.
  abbrev pub completed : FileSystem → Text → FileChunk → Text → ℕ → Placing
  completed files destination first content old =
      if not (first.mode == 0) && faults.destination_mode_fails
      then (err io_failed, stored files destination content old)
      else if faults.remove_fails
      then (err io_failed, stored files destination content (mode_or first.mode old))
      else (ok tt, stored files destination content (mode_or first.mode old))

  -- The temporary file is copied to the destination, which was truncated, and removed.
  unfoldable pub copied : FileSystem → Text → FileChunk → Text → Placing
  copied files destination first content =
      let old = old_mode default_mode (files destination) in
      if faults.open_fails
      then (err io_failed, files)
      else if faults.source_fails
      then (err io_failed, stored files destination [] old)
      else stops faults.copy_stops files destination content old (
          stops faults.flush_stops files destination content old
            (completed files destination first content old))

  -- The temporary file gets its mode, and is renamed to the destination or copied to it.
  unfoldable pub placed : FileSystem → Text → FileChunk → Text → Placing
  placed files destination first content =
      if faults.flush_fails || (not (first.mode == 0) && faults.mode_fails)
      then (err io_failed, files)
      else if not first.atomic_write
      then copied files destination first content
      else if faults.rename_fails
      then (err io_failed, files)
      else (ok tt, stored files destination content (mode_or first.mode 384))

  -- The drop of `TemporaryFileCleanup`, which is armed; its error is ignored.
  unfoldable pub cleaned : FileSystem → Text → FileSystem
  cleaned files temporary =
      put temporary (if faults.cleanup_fails then some faults.left_behind else none) files

module _ (default_mode : ℕ) (faults : Faults) (sha256 : Text → Text) where
  abbrev pub settled : Text → Received → Placing → Result ServiceError FileResult × FileSystem
  settled temporary received (err error, files) =
      (err error, cleaned default_mode faults files temporary)
  settled temporary received (ok _, files) = (
    ok (record { size = received.size; digest = sha256 received.content }),
    put temporary none files,
  )

  abbrev pub finished :
      FileSystem
      → Text
      → Text
      → FileChunk
      → Result ServiceError Received
      → Result ServiceError FileResult × FileSystem
  finished files temporary destination first (err error) =
      (err error, cleaned default_mode faults files temporary)
  finished files temporary destination first (ok received) =
      settled temporary received
        (placed default_mode faults files destination first received.content)

  -- The temporary file must be new; it is removed when an upload fails.
  unfoldable pub receive_upload :
      FileSystem
      → Text
      → Text
      → FileChunk
      → List StreamEvent
      → Result ServiceError FileResult × FileSystem
  receive_upload files temporary destination first events =
      if is_there (files temporary)
      then (err temporary_exists, files)
      else if faults.create_fails
      then (err io_failed, files)
      else finished files temporary destination first
          (upload_content faults.write_fails first events)
