-- ===== src/Relay/Server.antt =====
-- crates/pbox-relay/src/server.rs: the relay's state and its handlers. A connection task holds a
-- permit of a semaphore for as long as it lives, and a sender is known by its waiter's generation.
pub mod Waiters
pub mod Steps
pub mod Sound
pub mod Endings
pub mod Arrivals
pub mod Forward
mod Tests
use pbox.Base.{
  ℕ, ◌+◌, ◌-◌, ◌%◌, ◌<◌, ◌≤◌, ◌≡◌, Bool, true, false, not, ◌&&◌, ◌||◌, Option, none, some, List, [],
  ◌∷◌, ◌++◌, Text, codes, text_eq, strip_prefix, starts_with, ltb, leb, ◌==◌, if◌then◌else◌, length,
  Result, ok, err, ◌>>◌, fail_if, ℤ,
}
use pbox.Relay.Route.{valid_route}
use pbox.Relay.Token
use pbox.Relay.Token.{Crypto}
use pbox.Relay.Access

-- `Waiting`, the map of waiting agents: the generation of the sender of each box.
abbrev pub Waiting : Type 0
Waiting = List (Text × ℕ)

abbrev pub get : Text → Waiting → Option ℕ
get box_id [] = none
get box_id ((key, generation) ∷ ws) = if text_eq key box_id then some generation else get box_id ws

abbrev pub remove : Text → Waiting → Waiting
remove box_id [] = []
remove box_id ((key, generation) ∷ ws) =
    let rest = remove box_id ws in if text_eq key box_id then rest else (key, generation) ∷ rest

-- The semaphores are their numbers of free permits.
pub record Relay : Type 0 where
  pub key : Text
  pub waiting : Waiting
  pub slots : ℕ
  pub clients : ℕ
  pub next : ℕ

pub data RouterError : Type 0 where
  short_key no_connections : RouterError

unfoldable pub router : Text → ℕ → Result RouterError Relay
router key max_connections = do
  fail_if (not (leb 32 (length key))) short_key
  fail_if (max_connections == 0) no_connections
  ok (record {
    key = key;
    waiting = [];
    slots = max_connections;
    clients = max_connections;
    next = 0;
  })

-- What follows "Bearer " in the authorization header, or nothing.
unfoldable pub bearer : Option Text → Text
bearer none = []
bearer (some value) = elim (strip_prefix (codes "Bearer ") value) [ none ↦ [] | some token ↦ token ]

-- `fetch_add` wraps at 2 ^ 64.
unfoldable pub fetch_add : ℕ → ℕ
fetch_add next = (next + 1) % 18446744073709551616

unfoldable pub is_role : Text → Bool
is_role role = text_eq role (codes "agent") || text_eq role (codes "client")

-- What a connection becomes: an answer at once, or a task that holds a permit.
pub data Admission : Type 0 where
  answered : ℕ → Admission
  agent_task : ℕ → Admission
  client_task : Admission

unfoldable pub admit_client : Relay → Admission × Relay
admit_client r =
    if ltb 0 r.clients
    then (
      client_task,
      record {
        key = r.key;
        waiting = r.waiting;
        slots = r.slots;
        clients = r.clients - 1;
        next = r.next;
      },
    )
    else (answered 503, r)

-- A refused agent gives its permit back, but the generation is spent.
unfoldable pub admit_agent : Relay → Text → Admission × Relay
admit_agent r box_id =
    if ltb 0 r.slots
    then elim (get box_id r.waiting) [
      | some generation ↦ (
        answered 409,
        record {
          key = r.key;
          waiting = r.waiting;
          slots = r.slots;
          clients = r.clients;
          next = fetch_add r.next;
        },
      )
      | none ↦ (
        agent_task r.next,
        record {
          key = r.key;
          waiting = (box_id, r.next) ∷ r.waiting;
          slots = r.slots - 1;
          clients = r.clients;
          next = fetch_add r.next;
        },
      )
    ]
    else (answered 503, r)

-- Only a waiter of the same generation is removed: a newer one of the same box stays.
unfoldable pub remove_waiter : Text → ℕ → Waiting → Waiting
remove_waiter box_id generation ws = elim (get box_id ws) [
  | none ↦ ws
  | some id ↦ if id == generation then remove box_id ws else ws
]

-- The time is read when a connection comes in.
module _ (c : Crypto) where
  unfoldable pub authorised_connection : Text → Text → Text → Text → ℤ → Bool
  authorised_connection master role id token now =
      if text_eq role (codes "client") && starts_with (codes "v2.") token
      then Access.authorised c master id token now
      else Token.authorised c master role id token

  unfoldable pub allowed : Text → Text → Text → Option Text → ℤ → Bool
  allowed key role box_id header now =
      is_role role
      && valid_route box_id
      && authorised_connection key role box_id (bearer header) now

  unfoldable pub check : Relay → Text → Text → Option Text → ℤ → ℕ
  check r role box_id header now = if allowed r.key role box_id header now then 204 else 401

  unfoldable pub upgrade : Relay → Text → Text → Option Text → ℤ → Admission × Relay
  upgrade r role box_id header now =
      if allowed r.key role box_id header now
      then if text_eq role (codes "client") then admit_client r else admit_agent r box_id
      else (answered 401, r)
