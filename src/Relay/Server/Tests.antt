-- ===== src/Relay/Server/Tests.antt =====
-- A relay of two permits with one agent and one client, and one direction of a session.
use pbox.Base.{
  ◌≡◌, refl, subst, true, Option, some, none, List, [], ◌∷◌, ◌++◌, Text, codes, text_eq,
  strip_prefix, starts_with, split_once, ok, pos,
}
use pbox.Relay.Route.{valid_route, valid_box_id}
use pbox.Relay.Token.{Crypto, scoped_token, key_for}
use pbox.Relay.Token
use pbox.Relay.Server.{
  Relay, router, bearer, check, upgrade, allowed, authorised_connection, admit_agent, is_role,
  fetch_add, remove_waiter, answered,
}
use pbox.Relay.Server.Steps.{
  World, Request, Reachable, start, after, arrive, arrived, ended, initial,
}
use pbox.Relay.Server.Sound.{Sound}
use pbox.Relay.Server.Arrivals.{reachable-Sound, reachable-Idle}
use pbox.Relay.Server.Forward.{Item, received, binary}

-- A code under which the signature is the message itself.
abbrev plain : Crypto
plain = record { hmac = λ k m. m; encode = λ b. b; decode = λ t. some t }

abbrev key : Text
key = codes "0123456789abcdef0123456789abcdef"

abbrev box_id : Text
box_id = codes "pbx_12345678"

abbrev bearing : Text → Option Text
bearing role = some (codes "Bearer pbox-relay-v1/" ++ (role ++ (codes "/" ++ box_id)))

abbrev fresh : Relay
fresh = record { key = key; waiting = []; slots = 2; clients = 2; next = 0 }

built : router key 2 ≡ ok fresh
unfolding router
built = refl

abbrev with_agent : Relay
with_agent = record { key = key; waiting = (box_id, 0) ∷ []; slots = 1; clients = 2; next = 1 }

abbrev agent_request : Request
agent_request = record {
  role = codes "agent";
  box_id = box_id;
  header = bearing (codes "agent");
  now = pos 5;
}

abbrev waiting_world : World
waiting_world = record {
  relay = with_agent;
  agents = (box_id, 0) ∷ [];
  failed = [];
  looking = [];
  taken = [];
  requests = agent_request ∷ [];
}

agent_in :
    arrive plain (initial plain fresh) (codes "agent") box_id (bearing (codes "agent")) (pos 5)
    ≡ waiting_world
unfolding upgrade allowed is_role valid_route valid_box_id split_once starts_with bearer
    strip_prefix authorised_connection Token.authorised key_for text_eq admit_agent fetch_add
agent_in = refl

second_agent : upgrade plain with_agent (codes "agent") box_id (bearing (codes "agent")) (pos 5) ≡ (
  answered 409,
  record { key = key; waiting = (box_id, 0) ∷ []; slots = 1; clients = 2; next = 2 },
)
unfolding upgrade allowed is_role valid_route valid_box_id split_once starts_with bearer
    strip_prefix authorised_connection Token.authorised key_for text_eq admit_agent fetch_add
second_agent = refl

unsigned : check plain with_agent (codes "agent") box_id none (pos 5) ≡ 401
unfolding check allowed is_role valid_route valid_box_id split_once starts_with bearer
    authorised_connection Token.authorised key_for text_eq
unsigned = refl

agent_waits : Reachable plain key 2 waiting_world
agent_waits = subst (Reachable plain key 2) agent_in (
    after (initial plain fresh)
      (arrive plain (initial plain fresh) (codes "agent") box_id (bearing (codes "agent")) (pos 5))
      (start fresh built)
      (arrived (initial plain fresh) (codes "agent") box_id (bearing (codes "agent")) (pos 5)))

reachable-Sound_example : Sound plain key 2 waiting_world
reachable-Sound_example = reachable-Sound plain key 2 waiting_world agent_waits

-- The agent hangs up.
abbrev left_world : World
left_world = record {
  relay = record {
    key = key;
    waiting = remove_waiter box_id 0 with_agent.waiting;
    slots = 2;
    clients = 2;
    next = 1;
  };
  agents = [];
  failed = [];
  looking = [];
  taken = [];
  requests = agent_request ∷ [];
}

agent_left : Reachable plain key 2 left_world
agent_left = after waiting_world left_world agent_waits (ended waiting_world box_id 0 [] [] refl)

reachable-Idle_example :
    (left_world.relay.waiting ≡ []) × (left_world.relay.slots ≡ 2) × (left_world.relay.clients ≡ 2)
reachable-Idle_example = reachable-Idle plain key 2 left_world agent_left refl refl refl refl

abbrev stream : List Item
stream = received (binary (codes "ls")) true ∷ received (binary (codes "pwd")) true ∷ []
