-- ===== src/Relay/Token/Pairing.antt =====
-- A code that keeps its key and message apart by the key's length, which stands first: an instance of
-- what is asked of a message authentication code.
use pbox.Base.{refl, some, ◌∷◌, ◌++◌, length}
use pbox.Relay.Token.{Crypto, IsHex}

abbrev pub pairing : Crypto
pairing = record { hmac = λ k m. length k ∷ (k ++ m); encode = λ b. b; decode = λ t. some t }

pub pairing-IsHex : IsHex pairing
pairing-IsHex = record { decode-encode = λ b. refl }
