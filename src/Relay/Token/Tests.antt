-- ===== src/Relay/Token/Tests.antt =====
-- Tokens over a code that keeps its key and message apart by a separator that a count puts first.
use pbox.Base.{◌≡◌, ◌≢◌, refl, inr, true, false, ◌∷◌, ◌++◌, Text, codes, text_eq, arith, ◌⊎◌}
use pbox.Relay.Token.Pairing.{pairing, pairing-IsHex}
use pbox.Relay.Token.{scoped_token, authorised, key_for, message, Collides}
use pbox.Relay.Token.Scope.{authorised-scoped_token, authorised-delegated, delegation_scope}

abbrev master : Text
master = codes "key"

abbrev box_id : Text
box_id = codes "pbx_12345678"

abbrev bootstrap : Text
bootstrap = codes "pbx_12345678~pbx_abcdefgh"

abbrev seed : Text
seed = scoped_token pairing master (codes "snapshot") box_id

abbrev agent_token : Text
agent_token = scoped_token pairing master (codes "agent") box_id

no_client : authorised pairing master (codes "client") box_id agent_token ≡ false
unfolding authorised scoped_token key_for text_eq
no_client = refl

agent_token-authorised : authorised pairing master (codes "agent") box_id agent_token ≡ true
agent_token-authorised =
    authorised-scoped_token pairing master (codes "agent") box_id pairing-IsHex (inr (omega arith))

delegated-authorised :
    authorised pairing master
      (codes "agent")
      bootstrap
      (scoped_token pairing seed (codes "agent") bootstrap)
    ≡ true
delegated-authorised =
    authorised-delegated pairing master box_id (codes "pbx_abcdefgh") pairing-IsHex (omega arith)

seed_not_master : seed ≢ master
unfolding scoped_token
seed_not_master e = cc

delegation_scope_example :
    ((codes "agent" ≡ codes "agent") × ((child : Text) × (bootstrap ≡ box_id ++ b'~' ∷ child)))
    ⊎ (Collides pairing
          (key_for pairing master (codes "agent") bootstrap)
          (message (codes "agent") bootstrap)
          seed
          (message (codes "agent") bootstrap)
        ⊎ ((parent' : Text) × Collides pairing master
              (message (codes "snapshot") parent')
              master
              (message (codes "snapshot") box_id)))
delegation_scope_example =
    delegation_scope pairing master box_id (codes "agent") bootstrap (codes "agent") bootstrap
      pairing-IsHex seed_not_master delegated-authorised
