-- ===== src/Agent/Sessions/Sound.antt =====
-- What holds of the agent's sessions and owners however their steps interleave.
use pbox.Base.{
  ℕ, suc, ◌+◌, ◌-◌, ◌≡◌, ◌≤◌, ◌<◌, refl, ap, sym, ◌∙◌, subst, inl, inr, Option, none, some, List,
  [], ◌∷◌, ◌++◌, Text, text_eq, text_lt, length, All, Bool-cases, Option-cases, ok, arith,
}
use pbox.Agent.Sessions.{Session, Registry, validate_name, lookup, insert, remove, update}
use pbox.Agent.Sessions.Registry.{
  Distinct, lookup-insert, lookup-remove, lookup-update, update-none, length-insert, length-update,
  length-remove, insert-Distinct, remove-Distinct, update-Distinct,
}
use pbox.Agent.Sessions.Owners.{owner_of, Apart, owner_of-without, Apart-without, length-without}
use pbox.Agent.Sessions.Steps.{World, initial, change_sessions, end_owner}

abbrev pub id_of : Option Session → Option ℕ
id_of none = none
id_of (some session) = some session.id

-- A session under its name: the name and the size are in bounds.
pub record IsFit (entry : Text × Session) : Type 0 where
  pub named : validate_name (entry.0) ≡ ok tt
  pub some_rows : 1 ≤ (entry.1).info.rows
  pub rows : (entry.1).info.rows ≤ 200
  pub some_cols : 1 ≤ (entry.1).info.cols
  pub cols : (entry.1).info.cols ≤ 500

-- Names are unique; each session has one owner, with its number, and each owner its session; every
-- owner, every owner that leaves and every command holds a permit; names and sizes are in bounds.
pub record Sound (max : ℕ) (w : World) : Type 0 where
  pub distinct : Distinct w.agent.sessions
  pub apart : Apart w.owners
  pub owned : (name : Text) → id_of (lookup name w.agent.sessions) ≡ owner_of name w.owners
  pub permits : w.agent.slots + (length w.owners + (w.leaving + w.commands)) ≡ max
  pub counted : length w.agent.sessions ≡ length w.owners
  pub fit : All IsFit w.agent.sessions

pub session_of :
    (found : Option Session) (id : ℕ)
    → id_of found ≡ some id
    → (session : Session) × (found ≡ some session)
session_of none id e = absurd (ground arith)
session_of (some session) id e = (session, refl)

pub initial-Sound : (max : ℕ) → Sound max (initial max)
initial-Sound max = record {
  distinct = tt;
  apart = tt;
  owned = λ name. refl;
  permits = omega arith;
  counted = refl;
  fit = tt;
}

All-insert :
    (name : Text) (session : Session) (registry : Registry)
    → IsFit (name, session)
    → All IsFit registry
    → All IsFit (insert name session registry)
unfolding insert
All-insert name session [] f a = (f, tt)
All-insert name session ((k, other) ∷ registry) f (g, a) = elim (Bool-cases (text_lt name k)) [
  | inl e ↦ rw e (f, (g, a))
  | inr e ↦ rw e (g, All-insert name session registry f a)
]

All-remove :
    (name : Text) (registry : Registry) → All IsFit registry → All IsFit (remove name registry)
All-remove name [] a = tt
All-remove name ((k, other) ∷ registry) (g, a) = elim (Bool-cases (text_eq k name)) [
  | inl e ↦ rw e (All-remove name registry a)
  | inr e ↦ rw e (g, All-remove name registry a)
]

-- A change that keeps the number and the user of a session, and the bounds.
pub record IsMild (change : Session → Session) : Type 0 where
  pub same_id : (session : Session) → (change session).id ≡ session.id
  pub same_user : (session : Session) → (change session).info.user ≡ session.info.user
  pub stays :
      (name : Text) (session : Session) → IsFit (name, session) → IsFit (name, change session)

All-update :
    (name : Text) (change : Session → Session) (registry : Registry)
    → IsMild change
    → All IsFit registry
    → All IsFit (update name change registry)
All-update name change [] m a = tt
All-update name change ((k, other) ∷ registry) m (g, a) = elim (Bool-cases (text_eq k name)) [
  | inl e ↦ rw e (m.stays k other g, All-update name change registry m a)
  | inr e ↦ rw e (g, All-update name change registry m a)
]

-- A mild change keeps the number that is found under a name.
id_of-update :
    (key name : Text) (change : Session → Session) (registry : Registry)
    → IsMild change
    → id_of (lookup key (update name change registry)) ≡ id_of (lookup key registry)
id_of-update key name change registry m = elim (Option-cases (lookup key registry)) [
  | inl e ↦ rw (e, update-none key name change registry e) refl
  | inr (session, e) ↦
      rw (e, lookup-update key name change registry session e)
        (elim (Bool-cases (text_eq key name)) [
          | inl f ↦ rw f (ap (λ i. some i) (m.same_id session))
          | inr f ↦ rw f refl
        ])
]

pub changed-Sound :
    (max : ℕ) (w : World) (name : Text) (change : Session → Session)
    → IsMild change
    → Sound max w
    → Sound max (change_sessions (update name change) w)
changed-Sound max w name change m s = record {
  distinct = update-Distinct name change w.agent.sessions s.distinct;
  apart = s.apart;
  owned = λ key. id_of-update key name change w.agent.sessions m ∙ s.owned key;
  permits = s.permits;
  counted = length-update name change w.agent.sessions ∙ s.counted;
  fit = All-update name change w.agent.sessions m s.fit;
}

-- A session and its owner that come together.
pub created-Sound :
    (max : ℕ) (w : World) (name : Text) (session : Session) (next : ℕ)
    → 0 < w.agent.slots
    → lookup name w.agent.sessions ≡ none
    → IsFit (name, session)
    → Sound max w
    → Sound max (record w {
      agent = record {
        sessions = insert name session w.agent.sessions;
        slots = w.agent.slots - 1;
        next = next;
      };
      owners = (name, session.id) ∷ w.owners;
      pending = session.id ∷ w.pending;
    })
created-Sound max w name session next slot absent f s = record {
  distinct = insert-Distinct name session w.agent.sessions absent s.distinct;
  apart = (sym (s.owned name) ∙ ap id_of absent, s.apart);
  owned = λ key.
      ap id_of (lookup-insert key name session w.agent.sessions absent)
      ∙ (elim (Bool-cases (text_eq name key)) [ inl e ↦ rw e refl | inr e ↦ rw e (s.owned key) ]);
  permits = omega (arith, s.permits);
  counted = length-insert name session w.agent.sessions ∙ ap suc s.counted;
  fit = All-insert name session w.agent.sessions f s.fit;
}

-- An owner that ends, with the session of its name.
pub ended-Sound :
    (max : ℕ) (w : World) (name : Text) (id : ℕ) (front back : List (Text × ℕ))
    → w.owners ≡ front ++ (name, id) ∷ back
    → Sound max w
    → Sound max (end_owner w name (front ++ back))
ended-Sound max w name id front back e s =
    let apart = subst Apart e s.apart in
    let before = λ (key : Text). s.owned key ∙ ap (owner_of key) e in
    let (found, _) = owner_of-without name name id front back apart in
    let (session, has) = session_of (lookup name w.agent.sessions) id (before name ∙ found) in
    let fewer = length-remove name session w.agent.sessions s.distinct has in
    let shorter = length-without w.owners front back (name, id) e in
    record {
      distinct = remove-Distinct name w.agent.sessions s.distinct;
      apart = Apart-without name id front back apart;
      owned = λ key.
          let (_, left) = owner_of-without key name id front back apart in
          ap id_of (lookup-remove key name w.agent.sessions)
          ∙ elim (Bool-cases (text_eq name key)) [
            | inl f ↦ rw f (sym (left ∙ rw f refl))
            | inr f ↦ rw f (before key ∙ sym (left ∙ rw f refl))
          ];
      permits = omega (arith, s.permits);
      counted = omega (arith, s.counted);
      fit = All-remove name w.agent.sessions s.fit;
    }
