-- ===== src/Agent/Sessions/Spec.antt =====
-- The abstract view of the agent's sessions: which names are in use, by which user and which session.
-- It forgets the order of the registry, the sizes, the screens, the attachments and the permits.
use pbox.Base.{
  ℕ, ◌≡◌, refl, ap, ◌∙◌, inl, inr, Bool, true, false, if◌then◌else◌, Option, none, some, Text,
  text_eq, Bool-cases, Option-cases,
}
use pbox.Agent.Sessions.{ExecRequest, Session, lookup, update, new_session}
use pbox.Agent.Sessions.Registry.{lookup-insert, lookup-remove, lookup-update, update-none}
use pbox.Agent.Sessions.Prepare.{dimensions-bounds, checked-IsChecked}
use pbox.Agent.Sessions.Sound.{IsMild}
use pbox.Agent.Sessions.Arrivals.{CanStart, with_new, start_cases, attach_cases}
use pbox.Agent.Sessions.Reaching.{
  resize-IsMild, attached_by-IsMild, detached-IsMild, published-IsMild,
}
use pbox.Agent.Sessions.Steps.{
  World, start, attach, change_sessions, Step, start_requested, attach_requested, resized,
  viewer_gone, output_published, worker_spawned, owner_ended, permit_dropped, command_started,
  command_ended,
}

-- The number of the session and its user.
abbrev pub seen : Option Session → Option (ℕ × Text)
seen none = none
seen (some session) = some (session.id, session.info.user)

abbrev pub view : World → Text → Option (ℕ × Text)
view w name = seen (lookup name w.agent.sessions)

-- Names are taken when they are free, and given back; nothing else changes.
pub data ViewChange (before after : Text → Option (ℕ × Text)) : Type 0 where
  kept : ((name : Text) → after name ≡ before name) → ViewChange before after
  opened :
      (name user : Text) (id : ℕ)
      → before name ≡ none
      → ((key : Text) → after key ≡ (if text_eq name key then some (id, user) else before key))
      → ViewChange before after
  closed :
      (name : Text)
      → ((key : Text) → after key ≡ (if text_eq name key then none else before key))
      → ViewChange before after

seen-if :
    (b : Bool) (x y : Option Session) → seen (if b then x else y) ≡ (if b then seen x else seen y)
seen-if true x y = refl
seen-if false x y = refl

view-change :
    (w : World) (name : Text) (change : Session → Session)
    → IsMild change
    → (key : Text) → view (change_sessions (update name change) w) key ≡ view w key
view-change w name change m key = elim (Option-cases (lookup key w.agent.sessions)) [
  | inl e ↦ rw (e, update-none key name change w.agent.sessions e) refl
  | inr (session, e) ↦
      rw (e, lookup-update key name change w.agent.sessions session e)
        (elim (Bool-cases (text_eq key name)) [
          | inl f ↦ rw (f, m.same_id session, m.same_user session) refl
          | inr f ↦ rw f refl
        ])
]

view-with_new :
    (w : World) (first f : ExecRequest) (now : ℕ)
    → CanStart w first f
    → (key : Text)
    → view (with_new w f now) key
      ≡ (if text_eq f.session_name key then some (w.agent.next, f.user) else view w key)
view-with_new w first f now can key =
    ap seen (
      lookup-insert key f.session_name (new_session f w.agent.next now) w.agent.sessions can.absent)
    ∙ seen-if (text_eq f.session_name key) _ _

opened_by :
    (w w' : World) (first f : ExecRequest) (now : ℕ)
    → CanStart w first f
    → ((key : Text) → view w' key ≡ view (with_new w f now) key)
    → ViewChange (view w) (view w')
opened_by w w' first f now can e =
    opened f.session_name f.user w.agent.next (ap seen can.absent)
      (λ key. e key ∙ view-with_new w first f now can key)

-- Every step of the agent either leaves the view as it is, or opens a session under a name that was
-- free, for its user, or frees one name; whatever the step is, no other name changes its session or
-- its user.
pub Step-ViewChange : (w w' : World) → Step w w' → ViewChange (view w) (view w')
Step-ViewChange w _ (start_requested _ first now report) = elim (start_cases w first now report) [
  | inl (status, e) ↦ kept (λ key. ap (λ r. view (r.1) key) e)
  | inr (f, b) ↦
      opened_by w ((start w first now report).1) first f now b.can
        (λ key. ap (λ v. view v key) b.world)
]
Step-ViewChange w _ (attach_requested _ first now a) =
    let w' = (attach w first now a).1 in
    elim (attach_cases w first now a) [
      | inl (status, e) ↦ kept (λ key. ap (λ r. view (r.1) key) e)
      | inr (f, inl (can, e)) ↦
          let mild = attached_by-IsMild a f (checked-IsChecked first f can.passes) in
          opened_by w w' first f now can (λ key.
            ap (λ r. view (r.1) key) e ∙ view-change (with_new w f now) f.session_name _ mild key)
      | inr (f, inr j) ↦
          let mild = attached_by-IsMild a f (checked-IsChecked first f j.can.passes) in
          kept (λ key. ap (λ r. view (r.1) key) j.same ∙ view-change w f.session_name _ mild key)
    ]
Step-ViewChange w _ (resized _ name rows cols r c e) =
    kept (view-change w name _ (resize-IsMild r c (dimensions-bounds rows cols r c e)))
Step-ViewChange w _ (viewer_gone _ name a) = kept (view-change w name _ (detached-IsMild a))
Step-ViewChange w _ (output_published _ name event) =
    kept (view-change w name _ (published-IsMild event))
Step-ViewChange w _ (worker_spawned _ id e) = kept (λ key. refl)
Step-ViewChange w _ (owner_ended _ name id front back e p) =
    closed name
      (λ key. ap seen (lookup-remove key name w.agent.sessions) ∙ seen-if (text_eq name key) _ _)
Step-ViewChange w _ (permit_dropped _ left e) = kept (λ key. refl)
Step-ViewChange w _ (command_started _ left e) = kept (λ key. refl)
Step-ViewChange w _ (command_ended _ left e) = kept (λ key. refl)
