-- ===== src/Agent/Sessions/Freeing.antt =====
-- Sessions can always be ended, and their names and permits used again.
use pbox.Base.{
  ℕ, ◌+◌, ◌≡◌, ◌<◌, ◌==◌, false, refl, ap, sym, ◌∙◌, inl, inr, true, Option, none, some, List, [],
  ◌∷◌, ◌++◌, Text, text_eq, text_eq_sound, text_eq_refl, Bool-cases, ok, arith,
}
use pbox.Agent.Sessions.{
  ExecRequest, Session, checked, new_session, created, create, prepare, create_or_reuse, lookup,
  remove,
}
use pbox.Agent.Sessions.Registry.{lookup-remove}
use pbox.Agent.Sessions.Owners.{owner_of}
use pbox.Agent.Sessions.Sound.{id_of}
use pbox.Agent.Sessions.Arrivals.{CanStart, with_new}
use pbox.Agent.Sessions.Reaching.{Reachable-Sound}
use pbox.Agent.Sessions.Steps.{
  World, answered, running, start_prepared, start, is_pending, without, with_slots, end_owner,
  worker_spawned, owner_ended, permit_dropped, Steps, here, onward, Reachable,
}

create_or_reuse-free :
    (w : World) (f : ExecRequest) (now : ℕ) (found : Option Session)
    → found ≡ none
    → 0 < w.agent.slots
    → create_or_reuse w.agent f true now found ≡ ok (created w.agent f now)
unfolding create
create_or_reuse-free w f now none e h = ground arith
create_or_reuse-free w f now (some session) e h = absurd (ground arith)

-- A request whose checks pass, where no session has its name and a permit is free, starts a session.
pub start-CanStart :
    (w : World) (first f : ExecRequest) (now : ℕ)
    → CanStart w first f
    → start w first now running ≡ (answered (new_session f w.agent.next now).info, with_new w f now)
unfolding start prepare
start-CanStart w first f now can =
    let prepared : prepare w.agent first true now ≡ ok (created w.agent f now) =
      rw can.passes (
        create_or_reuse-free w f now (lookup f.session_name w.agent.sessions) can.absent
          can.slot) in
    ap (start_prepared w running) prepared

owner_of-found :
    (name : Text) (id : ℕ) (owners : List (Text × ℕ))
    → owner_of name owners ≡ some id
    → (front : List (Text × ℕ)) × (back : List (Text × ℕ)) × (owners ≡ front ++ (name, id) ∷ back)
owner_of-found name id [] h = absurd (ground arith)
owner_of-found name id ((k, i) ∷ owners) h = elim (Bool-cases (text_eq k name)) [
  | inl e ↦ let same : i ≡ id = ground arith in ([], owners, rw (text_eq_sound k name e, same) refl)
  | inr e ↦
      let (front, back, f) = owner_of-found name id owners (ground arith) in
      ((k, i) ∷ front, back, ap (λ o. (k, i) ∷ o) f)
]

is_pending-without : (id : ℕ) (pending : List ℕ) → is_pending id (without id pending) ≡ false
is_pending-without id [] = refl
is_pending-without id (other ∷ pending) = elim (Bool-cases (id == other)) [
  | inl e ↦ rw e (is_pending-without id pending)
  | inr e ↦ rw (e, e) (is_pending-without id pending)
]

-- The world after an owner has ended and dropped its permit.
abbrev freed : World → Text → List (Text × ℕ) → World
freed w name owners =
    let v = end_owner w name owners in
    record (with_slots (v.agent.slots + 1) v) { leaving = w.leaving }

-- The owner of a session ends, once its worker is spawned.
owner_ends :
    (w : World) (name : Text) (id : ℕ) (front back : List (Text × ℕ))
    → w.owners ≡ front ++ (name, id) ∷ back
    → is_pending id w.pending ≡ false
    → Steps w (freed w name (front ++ back))
owner_ends w name id front back e p =
    let v = end_owner w name (front ++ back) in
    let u = freed w name (front ++ back) in
    onward w v u (owner_ended w name id front back e p)
      (onward v u u (permit_dropped v w.leaving (omega arith)) (here u))

-- What is left to show of a request once the session of its name is gone.
abbrev pub Restarts : World → World → ExecRequest → ExecRequest → ℕ → Type 0
Restarts w w' first f now =
    Steps w w'
    × (w'.agent.slots ≡ w.agent.slots + 1)
    × (start w' first now running
        ≡ (answered (new_session f w'.agent.next now).info, with_new w' f now))

starts_again :
    (w : World) (first f : ExecRequest) (now : ℕ) (owners : List (Text × ℕ))
    → checked first ≡ ok f
    → (let u = freed w f.session_name owners in
        start u first now running
        ≡ (answered (new_session f u.agent.next now).info, with_new u f now))
starts_again w first f now owners c =
    let name = f.session_name in
    let gone : lookup name (remove name w.agent.sessions) ≡ none =
      lookup-remove name name w.agent.sessions ∙ rw (text_eq_refl name) refl in
    start-CanStart (freed w name owners) first f now
      (record { passes = c; absent = gone; slot = omega arith })

-- In every world that the agent can reach, where a session has the name of a request whose checks pass:
-- there is a sequence of steps, in which the worker of that session is spawned if it was not, its owner
-- removes the name and then drops its permit, and in the world that it leads to, with one more permit
-- free, the request starts a new session under the name if its own worker reports that its process runs.
pub reachable_restart :
    (max : ℕ) (w : World) (session : Session) (first f : ExecRequest) (now : ℕ)
    → Reachable max w
    → checked first ≡ ok f
    → lookup f.session_name w.agent.sessions ≡ some session
    → (w' : World) × Restarts w w' first f now
reachable_restart max w session first f now r c h =
    let name = f.session_name in
    let id = session.id in
    let s = Reachable-Sound max w r in
    let (front, back, e) = owner_of-found name id w.owners (sym (s.owned name) ∙ ap id_of h) in
    elim (Bool-cases (is_pending id w.pending)) [
      | inr p ↦ (
        freed w name (front ++ back),
        (owner_ends w name id front back e p, refl, starts_again w first f now (front ++ back) c),
      )
      | inl p ↦
          let v : World = record w { pending = without id w.pending } in
          let ends = owner_ends v name id front back e (is_pending-without id w.pending) in
          (
            freed v name (front ++ back),
            (
              onward w v (freed v name (front ++ back)) (worker_spawned w id p) ends,
              refl,
              starts_again v first f now (front ++ back) c,
            ),
          )
    ]
