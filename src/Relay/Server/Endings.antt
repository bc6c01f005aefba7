-- ===== src/Relay/Server/Endings.antt =====
-- The relay stays sound when a connection task ends or its upgrade fails.
use pbox.Base.{ℕ, ◌≡◌, ◌≢◌, subst, inl, inr, ◌⊎◌, List, ◌∷◌, ◌++◌, Text, codes, All, arith}
use pbox.Relay.Token.{Crypto}
use pbox.Relay.Server.{Waiting, remove_waiter}
use pbox.Relay.Server.Waiters.{
  Distinct, Backed, In, In-without, All-mono, All-both, length-without, remove_waiter-other,
  All-remove_waiter, remove_waiter-Distinct,
}
use pbox.Relay.Server.Steps.{World, with_waiting, free_slot}
use pbox.Relay.Server.Sound.{Allowed, Sound}

-- A task that is gone takes its waiter along, so the others are still backed.
still-Backed :
    (agents failed front back : List (Text × ℕ)) (box_id : Text) (generation : ℕ) (ws : Waiting)
    → Distinct ws
    → ((x : Text × ℕ) → Backed agents failed x → (x ≡ (box_id, generation)) ⊎ Backed front back x)
    → All (Backed agents failed) ws
    → All (Backed front back) (remove_waiter box_id generation ws)
still-Backed agents failed front back box_id generation ws d f a =
    All-mono (λ x. Backed agents failed x × (x ≢ (box_id, generation))) (Backed front back)
      (λ x p. elim (f x (p.0)) [ inl e ↦ absurd (p.1 e) | inr b ↦ b ])
      (remove_waiter box_id generation ws)
      (All-both (Backed agents failed) (λ x. x ≢ (box_id, generation))
        (remove_waiter box_id generation ws)
        (All-remove_waiter (Backed agents failed) box_id generation ws a)
        (remove_waiter-other box_id generation ws d))

module _ (c : Crypto) (key : Text) (max : ℕ) where
  pub ended-Sound :
      (w : World) (box_id : Text) (generation : ℕ) (front back : List (Text × ℕ))
      → w.agents ≡ front ++ (box_id, generation) ∷ back
      → Sound c key max w
      → Sound c key max (record {
        relay = free_slot (with_waiting (remove_waiter box_id generation w.relay.waiting) w.relay);
        agents = front ++ back;
        failed = w.failed;
        looking = w.looking;
        taken = w.taken;
        requests = w.requests;
      })
  ended-Sound w box_id generation front back e s =
      let n = length-without w.agents front back (box_id, generation) e in
      let moved : (x : Text × ℕ)
          → Backed w.agents w.failed x
          → (x ≡ (box_id, generation)) ⊎ Backed (front ++ back) w.failed x =
        λ x b. elim b [
          | inl i ↦ elim (In-without x (box_id, generation) front back (subst (In x) e i)) [
            | inl q ↦ inl q
            | inr j ↦ inr (inl j)
          ]
          | inr i ↦ inr (inr i)
        ] in
      record {
        same_key = s.same_key;
        distinct = remove_waiter-Distinct box_id generation w.relay.waiting s.distinct;
        backed =
            still-Backed w.agents w.failed (front ++ back) w.failed box_id generation
              w.relay.waiting s.distinct moved s.backed;
        slots = omega arith;
        clients = s.clients;
        waiters_allowed =
            All-remove_waiter (λ x. Allowed c key max w.requests (codes "agent") (x.0)) box_id
              generation w.relay.waiting s.waiters_allowed;
        clients_allowed = s.clients_allowed;
        pairs_allowed = s.pairs_allowed;
      }

  pub cleaned-Sound :
      (w : World) (box_id : Text) (generation : ℕ) (front back : List (Text × ℕ))
      → w.failed ≡ front ++ (box_id, generation) ∷ back
      → Sound c key max w
      → Sound c key max (record {
        relay = with_waiting (remove_waiter box_id generation w.relay.waiting) w.relay;
        agents = w.agents;
        failed = front ++ back;
        looking = w.looking;
        taken = w.taken;
        requests = w.requests;
      })
  cleaned-Sound w box_id generation front back e s =
      let moved : (x : Text × ℕ)
          → Backed w.agents w.failed x
          → (x ≡ (box_id, generation)) ⊎ Backed w.agents (front ++ back) x =
        λ x b. elim b [
          | inl i ↦ inr (inl i)
          | inr i ↦ elim (In-without x (box_id, generation) front back (subst (In x) e i)) [
            | inl q ↦ inl q
            | inr j ↦ inr (inr j)
          ]
        ] in
      record {
        same_key = s.same_key;
        distinct = remove_waiter-Distinct box_id generation w.relay.waiting s.distinct;
        backed =
            still-Backed w.agents w.failed w.agents (front ++ back) box_id generation
              w.relay.waiting s.distinct moved s.backed;
        slots = s.slots;
        clients = s.clients;
        waiters_allowed =
            All-remove_waiter (λ x. Allowed c key max w.requests (codes "agent") (x.0)) box_id
              generation w.relay.waiting s.waiters_allowed;
        clients_allowed = s.clients_allowed;
        pairs_allowed = s.pairs_allowed;
      }

  pub failed_upgrade-Sound :
      (w : World) (box_id : Text) (generation : ℕ) (front back : List (Text × ℕ))
      → w.agents ≡ front ++ (box_id, generation) ∷ back
      → Sound c key max w
      → Sound c key max (record {
        relay = free_slot w.relay;
        agents = front ++ back;
        failed = (box_id, generation) ∷ w.failed;
        looking = w.looking;
        taken = w.taken;
        requests = w.requests;
      })
  failed_upgrade-Sound w box_id generation front back e s =
      let n = length-without w.agents front back (box_id, generation) e in
      let moved : (x : Text × ℕ)
          → Backed w.agents w.failed x
          → Backed (front ++ back) ((box_id, generation) ∷ w.failed) x =
        λ x b. elim b [
          | inl i ↦ elim (In-without x (box_id, generation) front back (subst (In x) e i)) [
            | inl q ↦ inr (inl q)
            | inr j ↦ inl j
          ]
          | inr i ↦ inr (inr i)
        ] in
      record {
        same_key = s.same_key;
        distinct = s.distinct;
        backed =
            All-mono (Backed w.agents w.failed)
              (Backed (front ++ back) ((box_id, generation) ∷ w.failed)) moved w.relay.waiting
              s.backed;
        slots = omega arith;
        clients = s.clients;
        waiters_allowed = s.waiters_allowed;
        clients_allowed = s.clients_allowed;
        pairs_allowed = s.pairs_allowed;
      }
