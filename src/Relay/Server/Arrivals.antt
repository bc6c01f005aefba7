-- ===== src/Relay/Server/Arrivals.antt =====
-- The relay stays sound when a request comes in, and so whatever happens.
use pbox.Base.{
  ℕ, ◌≡◌, refl, ap, sym, ◌∙◌, subst, inl, inr, true, false, Option, List, [], ◌∷◌, Text, text_eq,
  codes, length, ltb, All, Bool-cases, Option-cases, arith, ℤ, text_eq_sound,
}
use pbox.Relay.Token.{Crypto}
use pbox.Relay.Server.{
  Waiting, get, upgrade, allowed, authorised_connection, admit_agent, admit_client, is_role, bearer,
}
use pbox.Relay.Server.Waiters.{Backed, All-mono}
use pbox.Relay.Server.Steps.{
  World, Request, noted, spawn, arrive, Step, arrived, took, gave_up, sent, ended, failed_upgrade,
  cleaned, Reachable, start, after,
}
use pbox.Relay.Server.Sound.{Allowed, Sound, initial-Sound, took-Sound, gave_up-Sound, sent-Sound}
use pbox.Relay.Server.Endings.{ended-Sound, cleaned-Sound, failed_upgrade-Sound}

nobody : (ws : Waiting) → All (Backed [] []) ws → ws ≡ []
nobody [] a = refl
nobody (w ∷ ws) (b, a) = elim b [ inl i ↦ absurd i | inr i ↦ absurd i ]

module _ (c : Crypto) (key : Text) (max : ℕ) where
  client-Sound :
      (w : World) (box_id : Text)
      → Allowed c key max w.requests (codes "client") box_id
      → Sound c key max w
      → Sound c key max (spawn w box_id ((admit_client w.relay).0) ((admit_client w.relay).1))
  unfolding admit_client
  client-Sound w box_id shown s = elim (Bool-cases (ltb 0 w.relay.clients)) [
    | inr e ↦ rw e s
    | inl e ↦ rw e (record {
      same_key = s.same_key;
      distinct = s.distinct;
      backed = s.backed;
      slots = s.slots;
      clients = ground arith;
      waiters_allowed = s.waiters_allowed;
      clients_allowed = (shown, s.clients_allowed);
      pairs_allowed = s.pairs_allowed;
    })
  ]

  agent-Sound :
      (w : World) (box_id : Text)
      → Allowed c key max w.requests (codes "agent") box_id
      → Sound c key max w
      → Sound c key max
          (spawn w box_id ((admit_agent w.relay box_id).0) ((admit_agent w.relay box_id).1))
  unfolding admit_agent
  agent-Sound w box_id shown s = elim (Bool-cases (ltb 0 w.relay.slots)) [
    | inr e ↦ rw e s
    | inl e ↦ elim (Option-cases (get box_id w.relay.waiting)) [
      | inr (g, e') ↦
          rw (e, e')
            (record {
              same_key = s.same_key;
              distinct = s.distinct;
              backed = s.backed;
              slots = s.slots;
              clients = s.clients;
              waiters_allowed = s.waiters_allowed;
              clients_allowed = s.clients_allowed;
              pairs_allowed = s.pairs_allowed;
            })
      | inl e' ↦
          rw (e, e')
            (record {
              same_key = s.same_key;
              distinct = (e', s.distinct);
              backed = (
                inl (inl refl),
                All-mono (Backed w.agents w.failed)
                    (Backed ((box_id, w.relay.next) ∷ w.agents) w.failed)
                    (λ x b. elim b [ inl i ↦ inl (inr i) | inr i ↦ inr i ]) w.relay.waiting
                    s.backed,
              );
              slots = ground arith;
              clients = s.clients;
              waiters_allowed = (shown, s.waiters_allowed);
              clients_allowed = s.clients_allowed;
              pairs_allowed = s.pairs_allowed;
            })
    ]
  ]

  -- A role that is allowed is one of two, so what is not a client is an agent.
  role_agent :
      (role : Text)
      → is_role role ≡ true
      → text_eq role (codes "client") ≡ false
      → role ≡ codes "agent"
  unfolding is_role
  role_agent role h n =
      let t : text_eq role (codes "agent") ≡ true = ground arith in
      text_eq_sound role (codes "agent") t

  shows :
      (k role box_id : Text) (header : Option Text) (now : ℤ) (requests : List Request)
      → k ≡ key
      → allowed c k role box_id header now ≡ true
      → Allowed c key max
          (record { role = role; box_id = box_id; header = header; now = now } ∷ requests)
          role
          box_id
  unfolding allowed
  shows k role box_id header now requests e h = (
    record { role = role; box_id = box_id; header = header; now = now },
    inl refl,
    refl,
    refl,
    ground arith,
    ap (λ x. authorised_connection c x role box_id (bearer header) now) (sym e) ∙ ground arith,
  )

  later :
      (request : Request) (requests : List Request) (role box_id : Text)
      → Allowed c key max requests role box_id
      → Allowed c key max (request ∷ requests) role box_id
  later request requests role box_id (q, i, r, b, v, a) = (q, inr i, r, b, v, a)

  -- One more request that came in takes nothing away.
  noted-Sound :
      (w : World) (request : Request) → Sound c key max w → Sound c key max (noted w request)
  noted-Sound w request s =
      let more = later request w.requests in
      record {
        same_key = s.same_key;
        distinct = s.distinct;
        backed = s.backed;
        slots = s.slots;
        clients = s.clients;
        waiters_allowed =
            All-mono _ _ (λ x a. more (codes "agent") (x.0) a) w.relay.waiting s.waiters_allowed;
        clients_allowed =
            All-mono _ _ (λ x a. more (codes "client") x a) w.looking s.clients_allowed;
        pairs_allowed =
            All-mono _ _
              (λ x a. (more (codes "agent") (x.0) (a.0), more (codes "client") (x.0) (a.1))) w.taken
              s.pairs_allowed;
      }

  shows_role :
      (k role box_id : Text) (header : Option Text) (now : ℤ)
      → allowed c k role box_id header now ≡ true
      → is_role role ≡ true
  unfolding allowed
  shows_role k role box_id header now h = ground arith

  arrive-Sound :
      (w : World) (role box_id : Text) (header : Option Text) (now : ℤ)
      → Sound c key max w
      → Sound c key max (arrive c w role box_id header now)
  unfolding upgrade
  arrive-Sound w role box_id header now s' =
      let request : Request = record { role = role; box_id = box_id; header = header; now = now } in
      let v = noted w request in
      let s = noted-Sound w request s' in
      elim (Bool-cases (allowed c w.relay.key role box_id header now)) [
        | inr e ↦ rw e s
        | inl e ↦
            let a = shows w.relay.key role box_id header now w.requests s.same_key e in
            elim (Bool-cases (text_eq role (codes "client"))) [
              | inl e' ↦
                  rw (e, e')
                    (client-Sound v box_id
                      (subst (λ x. Allowed c key max v.requests x box_id)
                        (text_eq_sound role (codes "client") e') a)
                      s)
              | inr e' ↦
                  rw (e, e')
                    (agent-Sound v box_id
                      (subst (λ x. Allowed c key max v.requests x box_id)
                        (role_agent role (shows_role w.relay.key role box_id header now e) e') a)
                      s)
            ]
      ]

  Step-Sound : (w w' : World) → Step c w w' → Sound c key max w → Sound c key max w'
  Step-Sound w _ (arrived _ role box_id header now) s = arrive-Sound w role box_id header now s
  Step-Sound w _ (took _ box_id g front back e found) s =
      took-Sound c key max w box_id g front back e found s
  Step-Sound w _ (gave_up _ box_id front back e) s = gave_up-Sound c key max w box_id front back e s
  Step-Sound w _ (sent _ box_id g front back e) s = sent-Sound c key max w box_id g front back e s
  Step-Sound w _ (ended _ box_id g front back e) s = ended-Sound c key max w box_id g front back e s
  Step-Sound w _ (failed_upgrade _ box_id g front back e) s =
      failed_upgrade-Sound c key max w box_id g front back e s
  Step-Sound w _ (cleaned _ box_id g front back e) s =
      cleaned-Sound c key max w box_id g front back e s

  -- However requests, hand-overs and endings interleave, a box has at most one waiting agent, whose
  -- connection task is there to remove it; agents and clients keep the bound on connections; and for each
  -- waiting agent, each client and both sides of each pair, one of the requests that have come in was for
  -- their role and their box, which is a route, and its bearer token was authorised when it came in.
  pub reachable-Sound : (w : World) → Reachable c key max w → Sound c key max w
  reachable-Sound w (start r e) = initial-Sound c key max r e
  reachable-Sound w (after v _ h step) = Step-Sound v w step (reachable-Sound v h)

  -- A reachable relay of which every connection task is gone has all its permits back and nobody waits in
  -- it.
  pub reachable-Idle :
      (w : World)
      → Reachable c key max w
      → w.agents ≡ []
      → w.failed ≡ []
      → w.looking ≡ []
      → w.taken ≡ []
      → (w.relay.waiting ≡ []) × (w.relay.slots ≡ max) × (w.relay.clients ≡ max)
  reachable-Idle w h a f l t =
      let s = reachable-Sound w h in
      let na : length w.agents ≡ 0 = ap length a in
      let nl : length w.looking ≡ 0 = ap length l in
      let nt : length w.taken ≡ 0 = ap length t in
      (
        nobody w.relay.waiting (
            subst (λ x. All (Backed x []) w.relay.waiting) a
              (subst (λ x. All (Backed w.agents x) w.relay.waiting) f s.backed)),
        omega arith,
        omega arith,
      )
