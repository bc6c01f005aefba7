-- ===== src/Relay/Server/Steps.antt =====
-- The relay with its connection tasks, and the steps that interleave: a request that comes in, a
-- client that takes a waiting agent or gives up, and the ways in which a task ends.
use pbox.Base.{ℕ, ◌+◌, ◌≡◌, Option, some, List, [], ◌∷◌, ◌++◌, Text, ok, ℤ}
use pbox.Relay.Token.{Crypto}
use pbox.Relay.Server.{
  Waiting, get, remove, Relay, router, Admission, answered, agent_task, client_task, remove_waiter,
  upgrade,
}

-- A request for a connection, with the time at which it came in.
pub record Request : Type 0 where
  pub role : Text
  pub box_id : Text
  pub header : Option Text
  pub now : ℤ

-- Agents hold a permit of `slots`, from their upgrade to their end; an agent whose upgrade failed is
-- in `failed` until its waiter is removed. Clients hold a permit of `clients`, while they look for an
-- agent and until their socket is sent to the agent that they took, or dropped.
-- The requests that have come in are kept for what is said of the others; no step reads them.
pub record World : Type 0 where
  pub relay : Relay
  pub agents : List (Text × ℕ)
  pub failed : List (Text × ℕ)
  pub looking : List Text
  pub taken : List (Text × ℕ)
  pub requests : List Request

abbrev pub with_waiting : Waiting → Relay → Relay
with_waiting ws r = record {
  key = r.key;
  waiting = ws;
  slots = r.slots;
  clients = r.clients;
  next = r.next;
}

abbrev pub free_slot : Relay → Relay
free_slot r = record {
  key = r.key;
  waiting = r.waiting;
  slots = r.slots + 1;
  clients = r.clients;
  next = r.next;
}

abbrev pub free_client : Relay → Relay
free_client r = record {
  key = r.key;
  waiting = r.waiting;
  slots = r.slots;
  clients = r.clients + 1;
  next = r.next;
}

-- The tasks after a request for a box was answered.
abbrev pub spawn : World → Text → Admission → Relay → World
spawn w box_id (answered code) r = record {
  relay = r;
  agents = w.agents;
  failed = w.failed;
  looking = w.looking;
  taken = w.taken;
  requests = w.requests;
}
spawn w box_id (agent_task generation) r = record {
  relay = r;
  agents = (box_id, generation) ∷ w.agents;
  failed = w.failed;
  looking = w.looking;
  taken = w.taken;
  requests = w.requests;
}
spawn w box_id client_task r = record {
  relay = r;
  agents = w.agents;
  failed = w.failed;
  looking = box_id ∷ w.looking;
  taken = w.taken;
  requests = w.requests;
}

abbrev pub noted : World → Request → World
noted w request = record {
  relay = w.relay;
  agents = w.agents;
  failed = w.failed;
  looking = w.looking;
  taken = w.taken;
  requests = request ∷ w.requests;
}

module _ (c : Crypto) where
  abbrev pub arrive : World → Text → Text → Option Text → ℤ → World
  arrive w role box_id header now =
      let (admission, relay) = upgrade c w.relay role box_id header now in
      spawn (noted w (record { role = role; box_id = box_id; header = header; now = now })) box_id
        admission relay

  pub data Step : World → World → Type 0 where
    arrived :
        (w : World) (role box_id : Text) (header : Option Text) (now : ℤ)
        → Step w (arrive w role box_id header now)
    took :
        (w : World) (box_id : Text) (generation : ℕ) (front back : List Text)
        → w.looking ≡ front ++ box_id ∷ back
        → get box_id w.relay.waiting ≡ some generation
        → Step w (record {
          relay = with_waiting (remove box_id w.relay.waiting) w.relay;
          agents = w.agents;
          failed = w.failed;
          looking = front ++ back;
          taken = (box_id, generation) ∷ w.taken;
          requests = w.requests;
        })
    gave_up :
        (w : World) (box_id : Text) (front back : List Text)
        → w.looking ≡ front ++ box_id ∷ back
        → Step w (record {
          relay = free_client w.relay;
          agents = w.agents;
          failed = w.failed;
          looking = front ++ back;
          taken = w.taken;
          requests = w.requests;
        })
    sent :
        (w : World) (box_id : Text) (generation : ℕ) (front back : List (Text × ℕ))
        → w.taken ≡ front ++ (box_id, generation) ∷ back
        → Step w (record {
          relay = free_client w.relay;
          agents = w.agents;
          failed = w.failed;
          looking = w.looking;
          taken = front ++ back;
          requests = w.requests;
        })
    ended :
        (w : World) (box_id : Text) (generation : ℕ) (front back : List (Text × ℕ))
        → w.agents ≡ front ++ (box_id, generation) ∷ back
        → Step w (record {
          relay =
              free_slot (with_waiting (remove_waiter box_id generation w.relay.waiting) w.relay);
          agents = front ++ back;
          failed = w.failed;
          looking = w.looking;
          taken = w.taken;
          requests = w.requests;
        })
    failed_upgrade :
        (w : World) (box_id : Text) (generation : ℕ) (front back : List (Text × ℕ))
        → w.agents ≡ front ++ (box_id, generation) ∷ back
        → Step w (record {
          relay = free_slot w.relay;
          agents = front ++ back;
          failed = (box_id, generation) ∷ w.failed;
          looking = w.looking;
          taken = w.taken;
          requests = w.requests;
        })
    cleaned :
        (w : World) (box_id : Text) (generation : ℕ) (front back : List (Text × ℕ))
        → w.failed ≡ front ++ (box_id, generation) ∷ back
        → Step w (record {
          relay = with_waiting (remove_waiter box_id generation w.relay.waiting) w.relay;
          agents = w.agents;
          failed = front ++ back;
          looking = w.looking;
          taken = w.taken;
          requests = w.requests;
        })

  abbrev pub initial : Relay → World
  initial r = record {
    relay = r;
    agents = [];
    failed = [];
    looking = [];
    taken = [];
    requests = [];
  }

  -- What the router that was built with a key and a bound can become.
  pub data Reachable (key : Text) (max : ℕ) : World → Type 0 where
    start : (r : Relay) → router key max ≡ ok r → Reachable key max (initial r)
    after : (w w' : World) → Reachable key max w → Step w w' → Reachable key max w'
