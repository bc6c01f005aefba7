-- ===== src/Relay/Token.antt =====
-- crates/pbox-relay/src/lib.rs: the capability tokens, `scoped_token` and `authorised`. A text is its
-- bytes. The crates hmac, sha2 and hex are the section parameter `c : Crypto`.
pub mod Scope
pub mod Pairing
mod Tests
use pbox.Base.{
  ℕ, ◌≡◌, Bool, true, false, ◌&&◌, Option, none, some, ◌++◌, List, Text, codes, text_eq, split_once,
  All, if◌then◌else◌,
}

-- HMAC-SHA256 of a key and a message, and hexadecimal text.
pub record Crypto : Type 0 where
  pub hmac : Text → Text → Text
  pub encode : Text → Text
  pub decode : Text → Option Text

-- What is signed: the role and the box behind the protocol's name.
abbrev pub message : Text → Text → Text
message role box_id = codes "pbox-relay-v1/" ++ (role ++ (codes "/" ++ box_id))

module _ (c : Crypto) where
  unfoldable pub scoped_token : Text → Text → Text → Text
  scoped_token master role box_id = c.encode (c.hmac master (message role box_id))

  -- A snapshot's seed signs for the agents of its own routes; the master signs for all else.
  unfoldable pub key_for : Text → Text → Text → Text
  unfolding scoped_token
  key_for master role box_id =
      if text_eq role (codes "agent")
      then elim (split_once b'~' box_id) [
        | some (parent, child) ↦ scoped_token master (codes "snapshot") parent
        | none ↦ master
      ]
      else master

  unfoldable pub authorised : Text → Text → Text → Text → Bool
  authorised master role box_id token = elim (c.decode token) [
    | none ↦ false
    | some bytes ↦ text_eq (c.hmac (key_for master role box_id) (message role box_id)) bytes
  ]

  -- What the crates document: hexadecimal text is read back.
  pub record IsHex : Type 0 where
    pub decode-encode : (b : Text) → c.decode (c.encode b) ≡ some b

  -- A collision: two inputs that are not the same have one code.
  abbrev pub Collides : Text → Text → Text → Text → Type 0
  Collides k m k' m' = (c.hmac k m ≡ c.hmac k' m') × ((k ≡ k') × (m ≡ m') → ⊥)
