-- ===== src/Agent/Sessions/Steps.antt =====
-- The agent with the tasks that own its sessions, and the steps that interleave: requests, the changes
-- of a session's state, the spawn and the end of an owner, and the commands, which share the permits
-- with the sessions.
use pbox.Base.{
  ℕ, suc, ◌+◌, ◌≡◌, Bool, ◌||◌, ◌==◌, true, false, if◌then◌else◌, Option, List, [], ◌∷◌, ◌++◌, Text,
  Result, ok, err,
}
use pbox.Agent.Keys.{Screen}
use pbox.Agent.Sessions.{
  ExecRequest, TerminalSession, Status, owner_stopped, Registry, Agent, Prepared, dimensions,
  prepare, remove, update, resize, attached_by, detached, published,
}

-- The workers of sessions, by the name and the number of their session: each holds a permit, in the
-- request that made it (then it is pending) or in the `own_session` task that the request spawned. An
-- owner that has removed its name still holds its permit, and so does each command that runs.
pub record World : Type 0 where
  pub agent : Agent
  pub owners : List (Text × ℕ)
  pub pending : List ℕ
  pub leaving : ℕ
  pub commands : ℕ

-- What `run_pty_command` reports of the start of its process; `stopped` where it never reports.
pub data Report : Type 0 where
  running : Report
  failed : Status → Report
  stopped : Report

pub data Answer {ℓ} (A : Type ℓ) : Type ℓ where
  answered : A → Answer A
  refused : Status → Answer A
  panicked : Answer A

abbrev pub spawned : Prepared → List (Text × ℕ) → List (Text × ℕ)
spawned p owners = if p.is_new then (p.first.session_name, p.session.id) ∷ owners else owners

abbrev pub queued : Prepared → List ℕ → List ℕ
queued p pending = if p.is_new then p.session.id ∷ pending else pending

abbrev pub change_sessions : (Registry → Registry) → World → World
change_sessions f w = record w { agent = record w.agent { sessions = f w.agent.sessions } }

-- The agent as `prepare` leaves it, with the worker of a session that is new.
abbrev pub taken : World → Prepared → World
taken w p = record w { agent = p.agent; owners = spawned p w.owners; pending = queued p w.pending }

-- `ready.await??`: the session is in the registry when its worker reports a failure.
abbrev pub reported : TerminalSession → Report → Answer TerminalSession
reported info running = answered info
reported info (failed status) = refused status
reported info stopped = refused owner_stopped

-- `worker.expect` panics where `prepare` has no worker.
abbrev pub start_worker : World → Prepared → Report → Answer TerminalSession × World
start_worker w p report =
    if p.is_new
    then (reported p.session.info report, taken w p)
    else (panicked, record w { agent = p.agent })

abbrev pub start_prepared : World → Report → Result Status Prepared → Answer TerminalSession × World
start_prepared w report (err status) = (refused status, w)
start_prepared w report (ok p) = start_worker w p report

-- The answer that the request gives once its worker has reported, and the world in which it has let go
-- of the registry; the spawn of the worker is a step of its own.
unfoldable pub start : World → ExecRequest → ℕ → Report → Answer TerminalSession × World
start w first now report = start_prepared w report (prepare w.agent first true now)

abbrev pub attach_sized : World → Prepared → ℕ → Result Status (ℕ × ℕ) → Answer (Unit {0}) × World
attach_sized w p attachment (err status) = (refused status, record w { agent = p.agent })
attach_sized w p attachment (ok (rows, cols)) =
    let sessions =
      update p.first.session_name (attached_by attachment rows cols) p.agent.sessions in
    (answered tt, record (taken w p) { agent = record p.agent { sessions = sessions } })

abbrev pub attach_prepared : World → ℕ → Result Status Prepared → Answer (Unit {0}) × World
attach_prepared w attachment (err status) = (refused status, w)
attach_prepared w attachment (ok p) =
    attach_sized w p attachment (dimensions p.first.terminal_rows p.first.terminal_cols)

-- A second failure of `dimensions` would leave a session without an owner.
unfoldable pub attach : World → ExecRequest → ℕ → ℕ → Answer (Unit {0}) × World
attach w first now attachment = attach_prepared w attachment (prepare w.agent first false now)

abbrev pub is_pending : ℕ → List ℕ → Bool
is_pending id [] = false
is_pending id (other ∷ pending) = id == other || is_pending id pending

abbrev pub without : ℕ → List ℕ → List ℕ
without id [] = []
without id (other ∷ pending) =
    let rest = without id pending in if id == other then rest else other ∷ rest

-- The end of an owner removes its name, whatever session has it. The permit is dropped later, when the
-- task returns.
abbrev pub end_owner : World → Text → List (Text × ℕ) → World
end_owner w name owners = record w {
  agent = record w.agent { sessions = remove name w.agent.sessions };
  owners = owners;
  leaving = w.leaving + 1;
}

abbrev pub with_slots : ℕ → World → World
with_slots slots w = record w { agent = record w.agent { slots = slots } }

pub data Step : World → World → Type 0 where
  start_requested :
      (w : World) (first : ExecRequest) (now : ℕ) (report : Report)
      → Step w ((start w first now report).1)
  attach_requested :
      (w : World) (first : ExecRequest) (now attachment : ℕ)
      → Step w ((attach w first now attachment).1)
  resized :
      (w : World) (name : Text) (rows cols r c : ℕ)
      → dimensions rows cols ≡ ok (r, c)
      → Step w (change_sessions (update name (resize r c)) w)
  viewer_gone :
      (w : World) (name : Text) (attachment : ℕ)
      → Step w (change_sessions (update name (detached attachment)) w)
  output_published :
      (w : World) (name : Text) (event : Option (Screen → Screen))
      → Step w (change_sessions (update name (published event)) w)
  worker_spawned :
      (w : World) (id : ℕ)
      → is_pending id w.pending ≡ true
      → Step w (record w { pending = without id w.pending })
  owner_ended :
      (w : World) (name : Text) (id : ℕ) (front back : List (Text × ℕ))
      → w.owners ≡ front ++ (name, id) ∷ back
      → is_pending id w.pending ≡ false
      → Step w (end_owner w name (front ++ back))
  permit_dropped :
      (w : World) (left : ℕ)
      → w.leaving ≡ suc left
      → Step w (record (with_slots (w.agent.slots + 1) w) { leaving = left })
  command_started :
      (w : World) (left : ℕ)
      → w.agent.slots ≡ suc left
      → Step w (record (with_slots left w) { commands = w.commands + 1 })
  command_ended :
      (w : World) (left : ℕ)
      → w.commands ≡ suc left
      → Step w (record (with_slots (w.agent.slots + 1) w) { commands = left })

pub data Steps : World → World → Type 0 where
  here : (w : World) → Steps w w
  onward : (u v w : World) → Step u v → Steps v w → Steps u w

-- The agent at its start, with all permits free.
abbrev pub initial : ℕ → World
initial max = record {
  agent = record { sessions = []; slots = max; next = 0 };
  owners = [];
  pending = [];
  leaving = 0;
  commands = 0;
}

pub data Reachable (max : ℕ) : World → Type 0 where
  launched : Reachable max (initial max)
  after : (w w' : World) → Reachable max w → Step w w' → Reachable max w'
