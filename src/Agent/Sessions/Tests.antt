-- ===== src/Agent/Sessions/Tests.antt =====
-- Sessions that are started, joined and ended.
use pbox.Base.{◌≡◌, refl, subst, true, some, [], ◌∷◌, codes, text_eq, ok, ◌⊎◌}
use pbox.Agent.Sessions.{
  ExecRequest, Status, already_exists, other_user, slots_exhausted, no_session, invalid_name,
  size_exceeded, check_protocol, or_default, dimensions, validate_name, named_or, checked,
  new_session, create, reuse, prepare, lookup, insert, resize, attached_by, get, read,
}
use pbox.Agent.Sessions.Sound.{Sound}
use pbox.Agent.Sessions.Arrivals.{with_new, Started, start_cases, attach_cases, Attached}
use pbox.Agent.Sessions.Reaching.{Reachable-Sound}
use pbox.Agent.Sessions.Freeing.{Restarts, reachable_restart}
use pbox.Agent.Sessions.Spec.{view, ViewChange, Step-ViewChange}
use pbox.Agent.Sessions.Steps.{
  World, answered, refused, running, failed, start, attach, initial, end_owner, start_requested,
  owner_ended, Reachable, launched, after,
}

abbrev request : ExecRequest
request = record {
  protocol_version = 3;
  user = [];
  cwd = codes "/root";
  argv = codes "sh" ∷ [];
  env = [];
  allocate_pty = true;
  session_name = [];
  terminal_rows = 0;
  terminal_cols = 0;
}

abbrev accepted : ExecRequest
accepted = record request {
  user = codes "pbox";
  session_name = codes "main";
  terminal_rows = 24;
  terminal_cols = 80;
}

request-accepted : checked request ≡ ok accepted
unfolding checked check_protocol named_or validate_name dimensions or_default
request-accepted = refl

abbrev one : World
one = with_new (initial 1) accepted 100

started : start (initial 1) request 100 running ≡ (answered (new_session accepted 0 100).info, one)
unfolding start prepare checked check_protocol named_or validate_name dimensions or_default create
    insert
started = refl

started_twice : start one request 101 running ≡ (refused already_exists, one)
unfolding start prepare checked check_protocol named_or validate_name dimensions or_default reuse
    insert text_eq
started_twice = refl

no_permit :
    start one (record request { session_name = codes "other" }) 101 running
    ≡ (refused slots_exhausted, one)
unfolding start prepare checked check_protocol named_or validate_name dimensions or_default create
    insert text_eq
no_permit = refl

bad_name :
    start one (record request { session_name = codes "a b" }) 101 running
    ≡ (refused invalid_name, one)
unfolding start prepare checked check_protocol named_or validate_name
bad_name = refl

too_large :
    start one (record request { terminal_rows = 201 }) 101 running ≡ (refused size_exceeded, one)
unfolding start prepare checked check_protocol named_or validate_name dimensions or_default
too_large = refl

root_refused : attach one (record request { user = codes "root" }) 101 7 ≡ (refused other_user, one)
unfolding attach prepare checked check_protocol named_or validate_name dimensions or_default reuse
    insert text_eq
root_refused = refl

-- One attachment, and then none that is open.
abbrev joined : World
joined = (attach one (record request { terminal_rows = 50 }) 101 7).1

joined_rows :
    read joined.agent (codes "main")
    ≡ ok (record (new_session accepted 0 100).info { attached = true; rows = 50 })
unfolding attach prepare checked check_protocol named_or validate_name dimensions or_default reuse
    insert text_eq attached_by resize get read
joined_rows = refl

main_session : lookup (codes "main") one.agent.sessions ≡ some (new_session accepted 0 100)
unfolding insert text_eq
main_session = refl

one_reachable : Reachable 1 one
one_reachable =
    subst (λ r. Reachable 1 (r.1)) started
      (after (initial 1) ((start (initial 1) request 100 running).1) launched
        (start_requested (initial 1) request 100 running))

Reachable-Sound_example : Sound 1 one
Reachable-Sound_example = Reachable-Sound 1 one one_reachable

reachable_restart_example : (w' : World) × Restarts one w' request accepted 102
reachable_restart_example =
    reachable_restart 1 one (new_session accepted 0 100) request accepted 102 one_reachable
      request-accepted main_session

-- The world with the worker of the session spawned.
abbrev owned : World
owned = record one { pending = [] }

Step-ViewChange_example : ViewChange (view owned) (view (end_owner owned (codes "main") []))
Step-ViewChange_example =
    Step-ViewChange owned (end_owner owned (codes "main") [])
      (owner_ended owned (codes "main") 0 [] [] refl refl)

not_spawned : start (initial 1) request 100 (failed no_session) ≡ (refused no_session, one)
unfolding start prepare checked check_protocol named_or validate_name dimensions or_default create
    insert
not_spawned = refl

start_cases_example :
    ((status : Status) × (start (initial 1) request 100 (failed no_session)
        ≡ (refused status, initial 1)))
    ⊎ ((f : ExecRequest) × Started
          (initial 1)
          request
          f
          100
          (failed no_session)
          (start (initial 1) request 100 (failed no_session)))
start_cases_example = start_cases (initial 1) request 100 (failed no_session)

attach_cases_example :
    ((status : Status) × (attach one request 101 7 ≡ (refused status, one)))
    ⊎ ((f : ExecRequest) × Attached one request 101 7 f (attach one request 101 7))
attach_cases_example = attach_cases one request 101 7
