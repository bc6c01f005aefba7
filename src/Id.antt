-- ===== src/Id.antt =====
-- crates/pbox-core/src/id.rs: the public id of a box, `pbx_` and eight characters. A text is its
-- characters. The random choices of `generate` are an argument.
pub mod Laws
mod Tests
use pbox.Base.{
  ℕ, ◌%◌, Bool, not, List, [], ◌∷◌, ◌++◌, map, Text, codes, starts_with, ◌==◌, if◌then◌else◌,
  length, get_or, drop, any, Result, ok, err, ◌>>=◌, ◌>>◌, fail_if,
}

abbrev pub prefix : Text
prefix = codes "pbx_"

abbrev pub id_length : ℕ
id_length = 8

abbrev pub alphabet : Text
alphabet = codes "0123456789abcdefghjkmnpqrstvwxyz"

pub record PboxId : Type 0 where
  pub value : Text

pub data PboxIdError : Type 0 where
  invalid_prefix invalid_length : PboxIdError
  invalid_character : ℕ → PboxIdError

-- `ALPHABET.contains(&byte)`.
unfoldable pub in_alphabet : ℕ → Bool
in_alphabet byte = any (λ a. a == byte) alphabet

-- `character as u8` keeps the low eight bits.
abbrev pub as_u8 : ℕ → ℕ
as_u8 character = character % 256

-- The loop over the characters of the suffix.
unfoldable pub check_characters : Text → Result PboxIdError (Unit {0})
check_characters [] = ok tt
check_characters (character ∷ rest) =
    if not (in_alphabet (as_u8 character))
    then err (invalid_character character)
    else check_characters rest

unfoldable pub parse : Text → Result PboxIdError PboxId
parse value = do
  fail_if (not (starts_with prefix value)) invalid_prefix
  let suffix = drop (length prefix) value
  fail_if (not (length suffix == id_length)) invalid_length
  check_characters suffix
  ok (record { value = value })

-- The indices that the random number generator draws, one for each character.
pub generate : List ℕ → PboxId
generate indices = record { value = prefix ++ map (λ i. get_or alphabet i 0) indices }
