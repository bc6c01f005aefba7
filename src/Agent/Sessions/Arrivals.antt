-- ===== src/Agent/Sessions/Arrivals.antt =====
-- The requests that start sessions and attach to them.
use pbox.Base.{
  ℕ, ◌≡◌, ◌<◌, refl, ap, ◌∙◌, inl, inr, true, false, Option, none, some, [], ◌∷◌, ◌++◌, text_eq,
  text_eq_refl, Result-cases, ok, arith, ◌⊎◌,
}
use pbox.Agent.Sessions.{
  ExecRequest, TerminalSession, Session, Status, owner_stopped, Prepared, dimensions, checked,
  new_session, created, reused, prepare, lookup, update, attached_by,
}
use pbox.Agent.Sessions.Registry.{lookup-update}
use pbox.Agent.Sessions.Prepare.{
  IsChecked, Found, dimensions-kept, checked-IsChecked, prepare-Found,
}
use pbox.Agent.Sessions.Steps.{
  World, Answer, answered, refused, Report, running, failed, stopped, reported, change_sessions,
  start_prepared, start, attach_sized, attach_prepared, attach,
}

-- A new session and its worker, which is not spawned yet.
abbrev pub with_new : World → ExecRequest → ℕ → World
with_new w f now = record w {
  agent = (created w.agent f now).agent;
  owners = (f.session_name, w.agent.next) ∷ w.owners;
  pending = w.agent.next ∷ w.pending;
}

abbrev pub attached_world : World → ExecRequest → ℕ → World
attached_world w f attachment =
    change_sessions (update f.session_name (attached_by attachment f.terminal_rows f.terminal_cols))
      w

-- A request that can start a session.
pub record CanStart (w : World) (first f : ExecRequest) : Type 0 where
  pub passes : checked first ≡ ok f
  pub absent : lookup f.session_name w.agent.sessions ≡ none
  pub slot : 0 < w.agent.slots

-- The answer to a request that made a session, for what its worker reports.
abbrev pub Outcome : World → ExecRequest → ℕ → Report → Answer TerminalSession → Type 0
Outcome w f now report answer =
    ((report ≡ running) × (answer ≡ answered (new_session f w.agent.next now).info))
    ⊎ ((status : Status) × ((report ≡ failed status)
          ⊎ ((report ≡ stopped) × (status ≡ owner_stopped)))
        × (answer ≡ refused status))

reported-Outcome :
    (w : World) (f : ExecRequest) (now : ℕ) (report : Report)
    → Outcome w f now report (reported (new_session f w.agent.next now).info report)
reported-Outcome w f now running = inl (refl, refl)
reported-Outcome w f now (failed status) = inr (status, inl refl, refl)
reported-Outcome w f now stopped = inr (owner_stopped, inr (refl, refl), refl)

-- What a request does that made a session.
pub record Started (w : World) (first f : ExecRequest) (now : ℕ) (report : Report)
    (result : Answer TerminalSession × World) : Type 0 where
  pub can : CanStart w first f
  pub world : result.1 ≡ with_new w f now
  pub outcome : Outcome w f now report (result.0)

start-Found :
    (w : World) (first f : ExecRequest) (now : ℕ) (report : Report) (p : Prepared)
    → checked first ≡ ok f
    → (found : Option Session) → lookup f.session_name w.agent.sessions ≡ found
    → Found w.agent true now f p found
    → Started w first f now report (start_prepared w report (ok p))
start-Found w first f now report p c none l (slot, e) = record {
  can = record { passes = c; absent = l; slot = slot };
  world = rw e refl;
  outcome = rw e (reported-Outcome w f now report);
}
start-Found w first f now report p c (some session) l (never, _, _) = absurd (ground arith)

-- A request to start a session is either refused, and changes nothing; or its checks pass, no session
-- has its name and a permit is free, and then a session with the name, the user, the directory, the
-- arguments and the size of the checked request is put into the registry under its name with a worker,
-- and takes one permit. In this case the answer tells of that session exactly if the worker reports that
-- its process runs; where the worker reports a failure, or stops before it reports, the request is refused
-- with this although the session is in the registry. In no case does the code panic for want of a worker.
pub start_cases :
    (w : World) (first : ExecRequest) (now : ℕ) (report : Report)
    → ((status : Status) × (start w first now report ≡ (refused status, w)))
      ⊎ ((f : ExecRequest) × Started w first f now report (start w first now report))
unfolding start
start_cases w first now report = elim (Result-cases (prepare w.agent first true now)) [
  | inr (status, e) ↦ inl (status, ap (start_prepared w report) e)
  | inl (p, e) ↦
      let (f, c, found) = prepare-Found w.agent first true now p e in
      inr (
        f,
        rw e (
            start-Found w first f now report p c (lookup f.session_name w.agent.sessions) refl
              found),
      )
]

-- A request that can join a session.
pub record CanJoin (w : World) (first f : ExecRequest) : Type 0 where
  pub passes : checked first ≡ ok f
  pub session : Session
  pub present : lookup f.session_name w.agent.sessions ≡ some session
  pub same_user : text_eq session.info.user f.user ≡ true

-- What an attachment to a session that runs does. The outputs that the session had stay, also the open
-- ones.
pub record Joined (w : World) (first f : ExecRequest) (attachment : ℕ)
    (result : Answer (Unit {0}) × World) : Type 0 where
  pub can : CanJoin w first f
  pub same : result ≡ (answered tt, attached_world w f attachment)
  pub after : Session
  pub found : lookup f.session_name (result.1).agent.sessions ≡ some after
  pub outputs :
      after.outputs
      ≡ can.session.outputs ++ record { attachment = attachment; is_closed = false } ∷ []

abbrev pub Attached : World → ExecRequest → ℕ → ℕ → ExecRequest → Answer (Unit {0}) × World → Type 0
Attached w first now attachment f result =
    (CanStart w first f × (result ≡ (answered tt, attached_world (with_new w f now) f attachment)))
    ⊎ Joined w first f attachment result

sized_again :
    (f : ExecRequest)
    → IsChecked f
    → dimensions f.terminal_rows f.terminal_cols ≡ ok (f.terminal_rows, f.terminal_cols)
sized_again f c =
    dimensions-kept f.terminal_rows f.terminal_cols c.some_rows c.rows c.some_cols c.cols

attached_by-outputs :
    (attachment rows cols : ℕ) (session : Session)
    → (attached_by attachment rows cols session).outputs
      ≡ session.outputs ++ record { attachment = attachment; is_closed = false } ∷ []
unfolding attached_by
attached_by-outputs attachment rows cols session = refl

attach-Found :
    (w : World) (first f : ExecRequest) (now attachment : ℕ) (p : Prepared)
    → checked first ≡ ok f
    → (found : Option Session) → lookup f.session_name w.agent.sessions ≡ found
    → Found w.agent false now f p found
    → Attached w first now attachment f (attach_prepared w attachment (ok p))
attach-Found w first f now attachment p c none l (slot, e) = inl (
  record { passes = c; absent = l; slot = slot },
  rw e (
      ap (attach_sized w (created w.agent f now) attachment)
        (sized_again f (checked-IsChecked first f c))),
)
attach-Found w first f now attachment p c (some session) l (_, u, e) =
    let same : attach_prepared w attachment (ok p) ≡ (answered tt, attached_world w f attachment) =
      rw e (
        ap (attach_sized w (reused w.agent f session) attachment)
          (sized_again f (checked-IsChecked first f c))) in
    inr (record {
      can = record { passes = c; session = session; present = l; same_user = u };
      same = same;
      after = attached_by attachment f.terminal_rows f.terminal_cols session;
      found =
          ap (λ r. lookup f.session_name (r.1).agent.sessions) same
          ∙ lookup-update f.session_name f.session_name _ w.agent.sessions session l
          ∙ rw (text_eq_refl f.session_name) refl;
      outputs = attached_by-outputs attachment f.terminal_rows f.terminal_cols session;
    })

-- A request to attach is refused, and changes nothing, or it starts a session as a start does, or its
-- checks pass and the session of its name belongs to its user, and no permit is taken; where it is not
-- refused, the session of its name then has the new attachment and the size of the request, and a
-- session that ran before keeps the attachments that it had, those that are open too. The size that was checked passes the check that follows, so a session is never left without an owner.
pub attach_cases :
    (w : World) (first : ExecRequest) (now attachment : ℕ)
    → ((status : Status) × (attach w first now attachment ≡ (refused status, w)))
      ⊎ ((f : ExecRequest) × Attached w first now attachment f (attach w first now attachment))
unfolding attach
attach_cases w first now attachment = elim (Result-cases (prepare w.agent first false now)) [
  | inr (status, e) ↦ inl (status, ap (attach_prepared w attachment) e)
  | inl (p, e) ↦
      let (f, c, found) = prepare-Found w.agent first false now p e in
      inr (
        f,
        rw e (
            attach-Found w first f now attachment p c (lookup f.session_name w.agent.sessions) refl
              found),
      )
]
