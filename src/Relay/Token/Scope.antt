-- ===== src/Relay/Token/Scope.antt =====
-- For whom a token is good.
use pbox.Base.{
  ℕ, ◌≡◌, ◌≢◌, ap, sym, ◌∙◌, inl, inr, true, false, Option, some, ◌∷◌, ◌++◌, Text, codes, text_eq,
  text_eq_iff, text_eq_refl, text_eq_sound, split_once_sound, ◌⊎◌, drop, split_once,
  split_once-append, Without, Option-cases, Bool-cases, arith, split_once_absent,
}
use pbox.Relay.Token.{Crypto, IsHex, Collides, message, scoped_token, key_for, authorised}

-- Where the text up to the first separator ends is determined.
pub cut_unique :
    (s : ℕ) (a a' b b' : Text)
    → Without s a
    → Without s a'
    → a ++ s ∷ b ≡ a' ++ s ∷ b'
    → (a ≡ a') × (b ≡ b')
cut_unique s a a' b b' w w' e =
    let same : ◌≡◌ {A = Option (Text × Text)} (some (a, b)) (some (a', b')) =
      sym (split_once-append s a b w) ∙ ap (split_once s) e ∙ split_once-append s a' b' w' in
    (ground arith, ground arith)

-- Two roles without a slash and two ids are signed as one message only if they agree.
message-injective :
    (role role' id id' : Text)
    → Without b'/' role
    → Without b'/' role'
    → message role id ≡ message role' id'
    → (role ≡ role') × (id ≡ id')
message-injective role role' id id' w w' e = cut_unique b'/' role role' id id' w w' (ap (drop 14) e)

differ : (s t : Text) → text_eq s t ≡ false → s ≢ t
differ s t h e =
    let same : text_eq s t ≡ true = ap (λ x. text_eq x t) e ∙ text_eq_refl t in ground arith

agent_role : text_eq (codes "agent") (codes "agent") ≡ true
agent_role = text_eq_refl (codes "agent")

module _ (c : Crypto) (master : Text) where
  -- The three ways in which the key is chosen.
  key_for_delegated :
      (parent child : Text)
      → Without b'~' parent
      → key_for c master (codes "agent") (parent ++ b'~' ∷ child)
        ≡ c.encode (c.hmac master (message (codes "snapshot") parent))
  unfolding key_for
  key_for_delegated parent child w = rw (agent_role, split_once-append b'~' parent child w, key_for)

  pub key_for_plain : (role id : Text) → role ≢ codes "agent" → key_for c master role id ≡ master
  unfolding key_for
  key_for_plain role id ne = ground (arith, text_eq_iff role (codes "agent"))

  key_for_box : (role id : Text) → Without b'~' id → key_for c master role id ≡ master
  unfolding key_for
  key_for_box role id w = let e = split_once_absent b'~' id w in ground (arith, e)

  authorised_decode :
      (role id token : Text)
      → authorised c master role id token ≡ true
      → c.decode token ≡ some (c.hmac (key_for c master role id) (message role id))
  unfolding authorised
  authorised_decode role id token h = elim (Option-cases (c.decode token)) [
    | inl e ↦ absurd (ground arith)
    | inr (bytes, e) ↦ e ∙ ap some (sym (text_eq_sound _ bytes (rw (e, authorised) at h)))
  ]

  pub decode_authorised :
      (role id token : Text)
      → c.decode token ≡ some (c.hmac (key_for c master role id) (message role id))
      → authorised c master role id token ≡ true
  unfolding authorised
  decode_authorised role id token e = rw (e, authorised) (text_eq_refl _)

  -- Which keys are not the master key: those of the agents' routes that hold a separator.
  key_for_cases :
      (role id : Text)
      → (key_for c master role id ≡ master)
        ⊎ ((parent : Text) × (child : Text) × (role ≡ codes "agent")
            × (id ≡ parent ++ b'~' ∷ child)
            × Without b'~' parent
            × (key_for c master role id ≡ scoped_token c master (codes "snapshot") parent))
  unfolding key_for scoped_token
  key_for_cases role id = elim (Bool-cases (text_eq role (codes "agent"))) [
    | inr other ↦ inl (rw (other, key_for))
    | inl agent ↦ elim (Option-cases (split_once b'~' id)) [
      | inl e ↦ inl (rw (agent, e, key_for))
      | inr ((parent, child), e) ↦
          let (same, w) = split_once_sound b'~' id parent child e in
          inr (
            parent,
            child,
            text_eq_sound role (codes "agent") agent,
            same,
            w,
            rw (agent, e, key_for),
          )
    ]
  ]

  -- A token that the master key signed for a role and a route is accepted for them, unless the route
  -- is an agent's with a separator: such routes are signed with their snapshot's seed. Hexadecimal
  -- text is taken to be read back.
  pub authorised-scoped_token :
      (role id : Text)
      → IsHex c
      → (role ≢ codes "agent") ⊎ Without b'~' id
      → authorised c master role id (scoped_token c master role id) ≡ true
  unfolding scoped_token
  authorised-scoped_token role id hex plain =
      decode_authorised role id _
        (hex.decode-encode _ ∙ ap (λ k. some (c.hmac k (message role id))) (sym key))
    where
      key : key_for c master role id ≡ master
      key = elim plain [ inl ne ↦ key_for_plain role id ne | inr w ↦ key_for_box role id w ]

  -- The seed of a snapshot signs for the agent of a box that is made from it, if hexadecimal text is read
  -- back and the snapshot's id has no separator.
  pub authorised-delegated :
      (parent child : Text)
      → IsHex c
      → Without b'~' parent
      → authorised c master (codes "agent") (parent ++ b'~' ∷ child) (
          scoped_token c
            (scoped_token c master (codes "snapshot") parent)
            (codes "agent")
            (parent ++ b'~' ∷ child))
        ≡ true
  unfolding scoped_token
  authorised-delegated parent child hex w =
      decode_authorised (codes "agent") (parent ++ b'~' ∷ child) _ (
        hex.decode-encode _
        ∙ ap (λ k. some (c.hmac k (message (codes "agent") (parent ++ b'~' ∷ child))))
            (sym (key_for_delegated parent child w)))

  -- Two inputs with one code are the same, or a collision.
  code_cases :
      (k k' m m' : Text) → c.hmac k m ≡ c.hmac k' m' → ((k ≡ k') × (m ≡ m')) ⊎ Collides c k m k' m'
  code_cases k k' m m' e = elim (Bool-cases (text_eq k k')) [
    | inr f ↦ inr (e, λ (same, _). differ k k' f same)
    | inl f ↦ elim (Bool-cases (text_eq m m')) [
      | inr g ↦ inr (e, λ (_, same). differ m m' g same)
      | inl g ↦ inl (text_eq_sound k k' f, text_eq_sound m m' g)
    ]
  ]

  -- One token that is accepted for two roles and routes whose key is the master key is accepted for the
  -- same, or it is a collision under the master key.
  pub authorised_scope :
      (role role' id id' token : Text)
      → Without b'/' role
      → Without b'/' role'
      → key_for c master role id ≡ master
      → key_for c master role' id' ≡ master
      → authorised c master role id token ≡ true
      → authorised c master role' id' token ≡ true
      → ((role ≡ role') × (id ≡ id'))
        ⊎ Collides c master (message role id) master (message role' id')
  authorised_scope role role' id id' token w w' k k' h h' =
      let same : some (c.hmac master (message role id)) ≡ some (c.hmac master (message role' id')) =
        ap (λ x. some (c.hmac x (message role id))) (sym k)
        ∙ sym (authorised_decode role id token h)
        ∙ authorised_decode role' id' token h'
        ∙ ap (λ x. some (c.hmac x (message role' id'))) k' in
      elim (code_cases master master (message role id) (message role' id') (ground arith)) [
        | inl (_, m) ↦ inl (message-injective role role' id id' w w' m)
        | inr x ↦ inr x
      ]

  decoded : (a b : Text) → IsHex c → c.encode a ≡ c.encode b → a ≡ b
  decoded a b hex e =
      let same : some a ≡ some b =
        sym (hex.decode-encode a) ∙ ap c.decode e ∙ hex.decode-encode b in
      ground arith

  same_parent :
      (parent parent' : Text)
      → IsHex c
      → scoped_token c master (codes "snapshot") parent
        ≡ scoped_token c master (codes "snapshot") parent'
      → (parent ≡ parent')
        ⊎ Collides c master
            (message (codes "snapshot") parent)
            master
            (message (codes "snapshot") parent')
  unfolding scoped_token
  same_parent parent parent' hex e =
      elim (code_cases master master (message (codes "snapshot") parent)
        (message (codes "snapshot") parent') (decoded _ _ hex e)) [
          | inl (_, m) ↦ inl (
              (message-injective (codes "snapshot") (codes "snapshot") parent parent' (omega arith)
                (omega arith) m).1)
          | inr x ↦ inr x
        ]

  -- The key that accepts a token is the one that it was made with, or the codes collide.
  key_of_token :
      (key role id role' id' : Text)
      → IsHex c
      → authorised c master role' id' (scoped_token c key role id) ≡ true
      → (key_for c master role' id' ≡ key)
        ⊎ Collides c (key_for c master role' id') (message role' id') key (message role id)
  unfolding scoped_token
  key_of_token key role id role' id' hex h =
      let same : some (c.hmac (key_for c master role' id') (message role' id'))
          ≡ some (c.hmac key (message role id)) =
        sym (authorised_decode role' id' _ h) ∙ hex.decode-encode _ in
      elim (code_cases (key_for c master role' id') key (message role' id') (message role id)
        (ground arith)) [ inl (k, _) ↦ inl k | inr x ↦ inr x ]

  -- What the seed of a snapshot can sign for: if hexadecimal text is read back and the seed is not the
  -- master key, a token made from it is accepted only for the agents of the routes of that snapshot, so
  -- not for a box, a client or another snapshot; or else two inputs that are not the same have one code:
  -- what was signed and what is asked for, or the messages of that snapshot and of another under the
  -- master key.
  pub delegation_scope :
      (parent role id role' id' : Text)
      → IsHex c
      → scoped_token c master (codes "snapshot") parent ≢ master
      → authorised c master role' id'
          (scoped_token c (scoped_token c master (codes "snapshot") parent) role id)
        ≡ true
      → ((role' ≡ codes "agent") × ((child : Text) × (id' ≡ parent ++ b'~' ∷ child)))
        ⊎ (Collides c
              (key_for c master role' id')
              (message role' id')
              (scoped_token c master (codes "snapshot") parent)
              (message role id)
            ⊎ ((parent' : Text) × Collides c master
                  (message (codes "snapshot") parent')
                  master
                  (message (codes "snapshot") parent)))
  delegation_scope parent role id role' id' hex other h =
      let seed = scoped_token c master (codes "snapshot") parent in
      elim (key_of_token seed role id role' id' hex h) [
        | inr x ↦ inr (inl x)
        | inl key ↦ elim (key_for_cases role' id') [
          | inl is_master ↦ absurd (other (sym key ∙ is_master))
          | inr (parent', child, agent, route, w, k) ↦
              elim (same_parent parent' parent hex (sym k ∙ key)) [
                | inr x ↦ inr (inr (parent', x))
                | inl same ↦ inl (agent, (child, route ∙ ap (λ p. p ++ b'~' ∷ child) same))
              ]
        ]
      ]
