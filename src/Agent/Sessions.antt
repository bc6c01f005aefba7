-- ===== src/Agent/Sessions.antt =====
-- crates/pbox-agent/src/sessions.rs: the registry of terminal sessions and its operations. A session is
-- known by its number, which stands for the pointer; a permit is one of the semaphore `exec_slots`.
pub mod Registry
pub mod Owners
pub mod Steps
pub mod Sound
pub mod Prepare
pub mod Arrivals
pub mod Reaching
pub mod Freeing
pub mod Spec
mod Tests
use pbox.Base.{
  ℕ, ◌+◌, ◌-◌, ◌≡◌, Bool, true, false, not, ◌&&◌, ◌||◌, ◌==◌, ltb, leb, if◌then◌else◌, Option, none,
  some, List, [], ◌∷◌, ◌++◌, map, Text, codes, text_eq, text_lt, utf8_all, is_empty,
  is_alphanumeric, all, any, length, Result, ok, err, ◌>>=◌, ◌>>◌, fail_if, ok_or,
}
use pbox.Agent.Modes.{TerminalModes, default_modes}
use pbox.Agent.Keys.{Screen, InputError, terminal_input}

pub record ExecRequest : Type 0 where
  pub protocol_version : ℕ
  pub user : Text
  pub cwd : Text
  pub argv : List Text
  pub env : List (Text × Text)
  pub allocate_pty : Bool
  pub session_name : Text
  pub terminal_rows : ℕ
  pub terminal_cols : ℕ

pub record TerminalSession : Type 0 where
  pub name : Text
  pub user : Text
  pub cwd : Text
  pub argv : List Text
  pub attached : Bool
  pub created_unix : ℕ
  pub rows : ℕ
  pub cols : ℕ

-- The sender of an attachment, and whether its receiver is gone.
pub record Output : Type 0 where
  pub attachment : ℕ
  pub is_closed : Bool

pub record Session : Type 0 where
  pub id : ℕ
  pub info : TerminalSession
  pub screen : Screen
  pub outputs : List Output

pub data Status : Type 0 where
  unsupported_version size_exceeded invalid_name no_pty already_exists other_user : Status
  slots_exhausted no_session input_too_long input_busy terminal_ended : Status
  owner_stopped worker_failed : Status
  bad_input : InputError → Status

abbrev pub protocol : ℕ
protocol = 3

unfoldable pub check_protocol : ℕ → Result Status (Unit {0})
check_protocol version = fail_if (not (version == protocol)) unsupported_version

unfoldable pub or_default : ℕ → ℕ → ℕ
or_default n default = if n == 0 then default else n

unfoldable pub dimensions : ℕ → ℕ → Result Status (ℕ × ℕ)
dimensions rows cols =
    let rows = or_default rows 24 in
    let cols = or_default cols 80 in
    if ltb 200 rows || ltb 500 cols then err size_exceeded else ok (rows, cols)

unfoldable pub validate_name : Text → Result Status (Unit {0})
validate_name name =
    fail_if
      (is_empty name
        || (ltb 64 (length name)
            || not (all (λ c. is_alphanumeric c || (c == b'-' || c == b'_')) name)))
      invalid_name

-- The `BTreeMap`, in the order of its keys.
abbrev pub Registry : Type 0
Registry = List (Text × Session)

abbrev pub lookup : Text → Registry → Option Session
lookup name [] = none
lookup name ((key, session) ∷ registry) =
    if text_eq key name then some session else lookup name registry

-- The name is not in the registry when it is inserted.
unfoldable pub insert : Text → Session → Registry → Registry
insert name session [] = (name, session) ∷ []
insert name session ((key, other) ∷ registry) =
    let rest = insert name session registry in
    if text_lt name key then (name, session) ∷ (key, other) ∷ registry else (key, other) ∷ rest

abbrev pub remove : Text → Registry → Registry
remove name [] = []
remove name ((key, session) ∷ registry) =
    let rest = remove name registry in if text_eq key name then rest else (key, session) ∷ rest

-- A change of the state of one session.
abbrev pub update : Text → (Session → Session) → Registry → Registry
update name change [] = []
update name change ((key, session) ∷ registry) =
    let rest = update name change registry in
    (key, if text_eq key name then change session else session) ∷ rest

-- What the handlers share: the registry, the free permits, and the number of the next session.
pub record Agent : Type 0 where
  pub sessions : Registry
  pub slots : ℕ
  pub next : ℕ

unfoldable pub named_or : Text → Text → Text
named_or name default = if is_empty name then default else name

-- The checks of `prepare`, and the request as `prepare` leaves it.
unfoldable pub checked : ExecRequest → Result Status ExecRequest
checked first = do
  check_protocol first.protocol_version
  fail_if (not first.allocate_pty) no_pty
  validate_name (named_or first.session_name (codes "main"))
  (rows, cols) ← dimensions first.terminal_rows first.terminal_cols
  ok (record first {
    user = named_or first.user (codes "pbox");
    session_name = named_or first.session_name (codes "main");
    terminal_rows = rows;
    terminal_cols = cols;
  })

abbrev pub new_session : ExecRequest → ℕ → ℕ → Session
new_session first id now = record {
  id = id;
  info = record {
    name = first.session_name;
    user = first.user;
    cwd = first.cwd;
    argv = first.argv;
    attached = false;
    created_unix = now;
    rows = first.terminal_rows;
    cols = first.terminal_cols;
  };
  screen = record { bracketed_paste = false; application_cursor = false; modes = default_modes };
  outputs = [];
}

-- What `prepare` returns: the request as it left it, the session, and whether there is a worker to start.
pub record Prepared : Type 0 where
  pub first : ExecRequest
  pub session : Session
  pub is_new : Bool
  pub agent : Agent

abbrev pub created : Agent → ExecRequest → ℕ → Prepared
created agent first now =
    let session = new_session first agent.next now in
    record {
      first = first;
      session = session;
      is_new = true;
      agent = record {
        sessions = insert first.session_name session agent.sessions;
        slots = agent.slots - 1;
        next = agent.next + 1;
      };
    }

abbrev pub reused : Agent → ExecRequest → Session → Prepared
reused agent first session = record {
  first = first;
  session = session;
  is_new = false;
  agent = agent;
}

unfoldable pub create : Agent → ExecRequest → ℕ → Result Status Prepared
create agent first now =
    if ltb 0 agent.slots then ok (created agent first now) else err slots_exhausted

unfoldable pub reuse : Agent → ExecRequest → Bool → Session → Result Status Prepared
reuse agent first create_only session =
    if create_only
    then err already_exists
    else if text_eq session.info.user first.user
    then ok (reused agent first session)
    else err other_user

abbrev pub create_or_reuse :
    Agent → ExecRequest → Bool → ℕ → Option Session → Result Status Prepared
create_or_reuse agent first create_only now none = create agent first now
create_or_reuse agent first create_only now (some session) = reuse agent first create_only session

unfoldable pub prepare : Agent → ExecRequest → Bool → ℕ → Result Status Prepared
prepare agent first create_only now = do
  first ← checked first
  create_or_reuse agent first create_only now (lookup first.session_name agent.sessions)

abbrev pub is_attached : Session → Bool
is_attached session = any (λ output. not output.is_closed) session.outputs

abbrev pub shown : Session → TerminalSession
shown session = record session.info { attached = is_attached session }

-- Sampling the processes of a session reads /proc, and is left out.
unfoldable pub list : Agent → List TerminalSession
list agent = map (λ entry. shown (entry.1)) agent.sessions

unfoldable pub get : Agent → Text → Result Status Session
get agent name = ok_or (lookup name agent.sessions) no_session

unfoldable pub read : Agent → Text → Result Status TerminalSession
read agent name = do session ← get agent name; ok (shown session)

-- A place in the input queue of a session: in time, not in time, or never.
pub data Reserve : Type 0 where
  reserved busy ended : Reserve

abbrev pub place : Reserve → Result Status (Unit {0})
place reserved = ok tt
place busy = err input_busy
place ended = err terminal_ended

abbrev pub input_of : Result InputError Text → Result Status Text
input_of (ok bytes) = ok bytes
input_of (err invalid) = err (bad_input invalid)

module _ (to_uppercase : Text → Text) where
  -- The session that gets input, and the bytes.
  unfoldable pub send : Agent → Text → Text → List Text → Reserve → Result Status (ℕ × Text)
  send agent name text keys reserve = do
    fail_if (ltb 65536 (length (utf8_all text)) || ltb 256 (length keys)) input_too_long
    session ← get agent name
    place reserve
    bytes ← input_of (terminal_input to_uppercase session.screen text keys)
    ok (session.id, bytes)

-- The changes of a session's state: an attachment, a resize of one, one that is gone, and output.
unfoldable pub resize : ℕ → ℕ → Session → Session
resize rows cols session = record session {
  info = record session.info { rows = rows; cols = cols };
}

unfoldable pub attached_by : ℕ → ℕ → ℕ → Session → Session
attached_by attachment rows cols session = record (resize rows cols session) {
  outputs = session.outputs ++ record { attachment = attachment; is_closed = false } ∷ [];
}

abbrev close_output : ℕ → List Output → List Output
close_output attachment [] = []
close_output attachment (output ∷ outputs) =
    let rest = close_output attachment outputs in
    (if output.attachment == attachment then record output { is_closed = true } else output) ∷ rest

unfoldable pub detached : ℕ → Session → Session
detached attachment session = record session { outputs = close_output attachment session.outputs }

abbrev open_outputs : List Output → List Output
open_outputs [] = []
open_outputs (output ∷ outputs) =
    let rest = open_outputs outputs in if output.is_closed then rest else output ∷ rest

-- An event of the worker: output, whose effect on the screen is a parameter, or another event. Output is
-- processed with `headless` set, and the replies are taken.
unfoldable pub processed : Option (Screen → Screen) → Session → Session
processed none session = session
processed (some process) session =
    let modes = record session.screen.modes { headless = not (is_attached session) } in
    let screen = process (record session.screen { modes = modes }) in
    record session { screen = record screen { modes = record screen.modes { replies = [] } } }

unfoldable pub published : Option (Screen → Screen) → Session → Session
published event session = record (processed event session) {
  outputs = open_outputs session.outputs;
}
