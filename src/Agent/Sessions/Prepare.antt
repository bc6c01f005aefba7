-- ===== src/Agent/Sessions/Prepare.antt =====
-- `prepare` of crates/pbox-agent/src/sessions.rs: the checks of a request, and what it returns.
use pbox.Base.{
  ℕ, ◌≡◌, ◌≤◌, ◌<◌, refl, sym, ◌∙◌, subst, inl, inr, Bool, true, false, not, ◌==◌, ltb, Option,
  none, some, [], ◌∷◌, Text, codes, text_eq, is_empty, Bool-cases, ok, ok-injective, >>=-eq-ok,
  fail_if-eq-ok, arith,
}
use pbox.Agent.Sessions.{
  ExecRequest, Session, Agent, Prepared, check_protocol, or_default, dimensions, validate_name,
  named_or, checked, created, reused, create, reuse, create_or_reuse, prepare, lookup, no_pty,
  unsupported_version,
}

-- A request as `prepare` leaves it.
pub record IsChecked (first : ExecRequest) : Type 0 where
  pub named : validate_name first.session_name ≡ ok tt
  pub owned : is_empty first.user ≡ false
  pub some_rows : 1 ≤ first.terminal_rows
  pub rows : first.terminal_rows ≤ 200
  pub some_cols : 1 ≤ first.terminal_cols
  pub cols : first.terminal_cols ≤ 500

pub dimensions-bounds :
    (rows cols r c : ℕ)
    → dimensions rows cols ≡ ok (r, c)
    → (1 ≤ r) × (r ≤ 200) × (1 ≤ c) × (c ≤ 500)
unfolding dimensions or_default
dimensions-bounds rows cols r c h = (ground arith, ground arith, ground arith, ground arith)

-- Dimensions within the bounds are kept.
pub dimensions-kept : (r c : ℕ) → 1 ≤ r → r ≤ 200 → 1 ≤ c → c ≤ 500 → dimensions r c ≡ ok (r, c)
unfolding dimensions or_default
dimensions-kept r c h1 h2 h3 h4 = ground arith

named_or-some :
    (name default : Text) → is_empty default ≡ false → is_empty (named_or name default) ≡ false
unfolding named_or
named_or-some [] default h = h
named_or-some (c ∷ name) default h = refl

pub checked-IsChecked : (first f : ExecRequest) → checked first ≡ ok f → IsChecked f
unfolding checked check_protocol
checked-IsChecked first f h =
    let (_, h1) = fail_if-eq-ok (not (first.protocol_version == 3)) unsupported_version _ h in
    let (_, h2) = fail_if-eq-ok (not first.allocate_pty) no_pty _ h1 in
    let (passed, named, h3) =
      >>=-eq-ok (validate_name (named_or first.session_name (codes "main"))) _ h2 in
    let ((rows, cols), sized, h4) =
      >>=-eq-ok (dimensions first.terminal_rows first.terminal_cols) _ h3 in
    let (lo, hi, lo', hi') =
      dimensions-bounds first.terminal_rows first.terminal_cols rows cols sized in
    subst IsChecked (ok-injective h4) (record {
      named = named;
      owned = named_or-some first.user (codes "pbox") refl;
      some_rows = lo;
      rows = hi;
      some_cols = lo';
      cols = hi';
    })

create_free :
    (agent : Agent) (f : ExecRequest) (now : ℕ)
    → ltb 0 agent.slots ≡ true
    → create agent f now ≡ ok (created agent f now)
unfolding create
create_free agent f now e = rw e refl

reuse_same :
    (agent : Agent) (f : ExecRequest) (session : Session)
    → text_eq session.info.user f.user ≡ true
    → reuse agent f false session ≡ ok (reused agent f session)
unfolding reuse
reuse_same agent f session e = rw e refl

create-eq-ok :
    (agent : Agent) (f : ExecRequest) (now : ℕ) (p : Prepared)
    → create agent f now ≡ ok p
    → (0 < agent.slots) × (p ≡ created agent f now)
unfolding create
create-eq-ok agent f now p h = elim (Bool-cases (ltb 0 agent.slots)) [
  | inl e ↦ (ground arith, sym (ok-injective (sym (create_free agent f now e) ∙ h)))
  | inr e ↦ absurd (ground arith)
]

reuse-eq-ok :
    (agent : Agent) (f : ExecRequest) (create_only : Bool) (session : Session) (p : Prepared)
    → reuse agent f create_only session ≡ ok p
    → (create_only ≡ false)
      × (text_eq session.info.user f.user ≡ true)
      × (p ≡ reused agent f session)
unfolding reuse
reuse-eq-ok agent f true session p h = absurd (ground arith)
reuse-eq-ok agent f false session p h = elim (Bool-cases (text_eq session.info.user f.user)) [
  | inl e ↦ (refl, e, sym (ok-injective (sym (reuse_same agent f session e) ∙ h)))
  | inr e ↦ absurd (ground arith)
]

-- What `prepare` found, where it succeeded: no session and a free permit, or one of the same user.
abbrev pub Found : Agent → Bool → ℕ → ExecRequest → Prepared → Option Session → Type 0
Found agent create_only now f p none = (0 < agent.slots) × (p ≡ created agent f now)
Found agent create_only now f p (some session) =
    (create_only ≡ false) × (text_eq session.info.user f.user ≡ true) × (p ≡ reused agent f session)

create_or_reuse-Found :
    (agent : Agent) (f : ExecRequest) (create_only : Bool) (now : ℕ) (p : Prepared)
    (found : Option Session)
    → create_or_reuse agent f create_only now found ≡ ok p
    → Found agent create_only now f p found
create_or_reuse-Found agent f create_only now p none h = create-eq-ok agent f now p h
create_or_reuse-Found agent f create_only now p (some session) h =
    reuse-eq-ok agent f create_only session p h

pub prepare-Found :
    (agent : Agent) (first : ExecRequest) (create_only : Bool) (now : ℕ) (p : Prepared)
    → prepare agent first create_only now ≡ ok p
    → (f : ExecRequest) × (checked first ≡ ok f)
      × Found agent create_only now f p (lookup f.session_name agent.sessions)
unfolding prepare
prepare-Found agent first create_only now p h =
    let (f, e, g) = >>=-eq-ok (checked first) _ h in
    (f, e, create_or_reuse-Found agent f create_only now p (lookup f.session_name agent.sessions) g)
