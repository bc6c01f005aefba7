-- ===== src/Relay/Server/Sound.antt =====
-- What holds of the relay however its connections interleave.
use pbox.Base.{
  ℕ, ◌+◌, ◌≡◌, sym, subst, true, some, List, [], ◌∷◌, ◌++◌, Text, codes, length, All, arith, ok,
}
use pbox.Relay.Route.{valid_route}
use pbox.Relay.Token.{Crypto}
use pbox.Relay.Server.{get, remove, Relay, router, bearer, authorised_connection}
use pbox.Relay.Server.Waiters.{
  Distinct, Backed, In, All-without, All-remove, All-get, remove-Distinct, length-without,
}
use pbox.Relay.Server.Steps.{World, Request, with_waiting, free_client, initial}

module _ (c : Crypto) (key : Text) (max : ℕ) where
  -- One of the requests that came in was for the role and the box, which is a route, and its bearer token
  -- was authorised at its time.
  abbrev pub Allowed : List Request → Text → Text → Type 0
  Allowed requests role box_id =
      (request : Request) × In request requests
      × (request.role ≡ role)
      × (request.box_id ≡ box_id)
      × (valid_route box_id ≡ true)
      × (authorised_connection c key role box_id (bearer request.header) request.now ≡ true)

  -- A box has one waiter, whose task lives; agents and clients keep the bound; waiters, clients and
  -- pairs came from requests with tokens for their box.
  pub record Sound (w : World) : Type 0 where
    pub same_key : w.relay.key ≡ key
    pub distinct : Distinct w.relay.waiting
    pub backed : All (Backed w.agents w.failed) w.relay.waiting
    pub slots : w.relay.slots + length w.agents ≡ max
    pub clients : w.relay.clients + (length w.looking + length w.taken) ≡ max
    pub waiters_allowed : All (λ e. Allowed w.requests (codes "agent") (e.0)) w.relay.waiting
    pub clients_allowed : All (Allowed w.requests (codes "client")) w.looking
    pub pairs_allowed :
        All
          (λ e.
            Allowed w.requests (codes "agent") (e.0) × Allowed w.requests (codes "client") (e.0))
          w.taken

  pub initial-Sound : (r : Relay) → router key max ≡ ok r → Sound (initial c r)
  unfolding router
  initial-Sound r h =
      let none_waits : r.waiting ≡ [] = ground arith in
      record {
        same_key = ground arith;
        distinct = subst Distinct (sym none_waits) tt;
        backed = subst (All (Backed [] [])) (sym none_waits) tt;
        slots = ground arith;
        clients = ground arith;
        waiters_allowed = subst (All (λ e. Allowed [] (codes "agent") (e.0))) (sym none_waits) tt;
        clients_allowed = tt;
        pairs_allowed = tt;
      }

  pub took-Sound :
      (w : World) (box_id : Text) (generation : ℕ) (front back : List Text)
      → w.looking ≡ front ++ box_id ∷ back
      → get box_id w.relay.waiting ≡ some generation
      → Sound w
      → Sound (record {
        relay = with_waiting (remove box_id w.relay.waiting) w.relay;
        agents = w.agents;
        failed = w.failed;
        looking = front ++ back;
        taken = (box_id, generation) ∷ w.taken;
        requests = w.requests;
      })
  took-Sound w box_id generation front back e found s =
      let ws = w.relay.waiting in
      let (client, rest) =
        All-without (Allowed w.requests (codes "client")) box_id front back
          (subst (All (Allowed w.requests (codes "client"))) e s.clients_allowed) in
      record {
        same_key = s.same_key;
        distinct = remove-Distinct box_id ws s.distinct;
        backed = All-remove (Backed w.agents w.failed) box_id ws s.backed;
        slots = s.slots;
        clients = let n = length-without w.looking front back box_id e in omega arith;
        waiters_allowed =
            All-remove (λ x. Allowed w.requests (codes "agent") (x.0)) box_id ws s.waiters_allowed;
        clients_allowed = rest;
        pairs_allowed = (
          (
            All-get (λ x. Allowed w.requests (codes "agent") (x.0)) box_id generation ws found
                s.waiters_allowed,
            client,
          ),
          s.pairs_allowed,
        );
      }

  pub gave_up-Sound :
      (w : World) (box_id : Text) (front back : List Text)
      → w.looking ≡ front ++ box_id ∷ back
      → Sound w
      → Sound (record {
        relay = free_client w.relay;
        agents = w.agents;
        failed = w.failed;
        looking = front ++ back;
        taken = w.taken;
        requests = w.requests;
      })
  gave_up-Sound w box_id front back e s =
      let n = length-without w.looking front back box_id e in
      let (_, rest) =
        All-without (Allowed w.requests (codes "client")) box_id front back
          (subst (All (Allowed w.requests (codes "client"))) e s.clients_allowed) in
      record {
        same_key = s.same_key;
        distinct = s.distinct;
        backed = s.backed;
        slots = s.slots;
        clients = omega arith;
        waiters_allowed = s.waiters_allowed;
        clients_allowed = rest;
        pairs_allowed = s.pairs_allowed;
      }

  pub sent-Sound :
      (w : World) (box_id : Text) (generation : ℕ) (front back : List (Text × ℕ))
      → w.taken ≡ front ++ (box_id, generation) ∷ back
      → Sound w
      → Sound (record {
        relay = free_client w.relay;
        agents = w.agents;
        failed = w.failed;
        looking = w.looking;
        taken = front ++ back;
        requests = w.requests;
      })
  sent-Sound w box_id generation front back e s =
      let n = length-without w.taken front back (box_id, generation) e in
      let (_, rest) =
        All-without
          (λ e.
            Allowed w.requests (codes "agent") (e.0) × Allowed w.requests (codes "client") (e.0))
          (box_id, generation) front back
          (subst
            (All (λ e.
              Allowed w.requests (codes "agent") (e.0) × Allowed w.requests (codes "client") (e.0)))
            e s.pairs_allowed) in
      record {
        same_key = s.same_key;
        distinct = s.distinct;
        backed = s.backed;
        slots = s.slots;
        clients = omega arith;
        waiters_allowed = s.waiters_allowed;
        clients_allowed = s.clients_allowed;
        pairs_allowed = rest;
      }
