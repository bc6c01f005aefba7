-- ===== src/Agent/Keys.antt =====
-- crates/pbox-agent/src/sessions.rs: `terminal_input` and `encode_key`, the bytes that text and named
-- keys become on the terminal of a session. A key is a text of characters, what is sent is bytes.
pub mod Paste
pub mod Single
mod Tests
use pbox.Base.{
  to_ascii_lowercase, is_control, ℕ, ◌+◌, ◌-◌, ◌≡◌, Bool, true, false, not, ◌&&◌, ◌||◌, Option,
  none, some, List, [], ◌∷◌, ◌++◌, map, Text, codes, text_eq, ltb, leb, ◌==◌, if◌then◌else◌, length,
  any, is_empty, is_uppercase, show, bit_and, bit_or, split, utf8, utf8_all, Result, ok, err, ◌>>=◌,
  ◌>>◌, fail_if, ok_or,
}
use pbox.Agent.Modes.{TerminalModes}

-- What the encoding reads of the terminal: the modes of vt100 and those of the callbacks.
pub record Screen : Type 0 where
  pub bracketed_paste : Bool
  pub application_cursor : Bool
  pub modes : TerminalModes

pub data InputError : Type 0 where
  control_characters : InputError
  unknown_key : Text → InputError

-- The code of a key, what it writes without modifiers, and the number and suffix of its sequence.
pub record KeyEncoding : Type 0 where
  pub code : ℕ
  pub legacy : Text
  pub csi : Option (ℕ × ℕ)

abbrev writes : ℕ → Text → KeyEncoding
writes code legacy = record { code = code; legacy = legacy; csi = none }

abbrev moves : ℕ → ℕ → ℕ → KeyEncoding
moves code number suffix = record { code = code; legacy = []; csi = some (number, suffix) }

abbrev pub named_keys : List (Text × KeyEncoding)
named_keys =
    (codes "enter", writes 13 (13 ∷ []))
    ∷ (codes "return", writes 13 (13 ∷ []))
    ∷ (10 ∷ [], writes 13 (13 ∷ []))
    ∷ (13 ∷ [], writes 13 (13 ∷ []))
    ∷ (codes "tab", writes 9 (9 ∷ []))
    ∷ (9 ∷ [], writes 9 (9 ∷ []))
    ∷ (codes "escape", writes 27 (27 ∷ []))
    ∷ (codes "esc", writes 27 (27 ∷ []))
    ∷ (codes "backspace", writes 127 (127 ∷ []))
    ∷ (codes "space", writes 32 (32 ∷ []))
    ∷ (codes "up", moves 57352 1 b'A')
    ∷ (codes "down", moves 57353 1 b'B')
    ∷ (codes "right", moves 57351 1 b'C')
    ∷ (codes "left", moves 57350 1 b'D')
    ∷ (codes "home", moves 57356 1 b'H')
    ∷ (codes "end", moves 57357 1 b'F')
    ∷ (codes "insert", moves 57348 2 b'~')
    ∷ (codes "delete", moves 57349 3 b'~')
    ∷ (codes "f1", moves 57364 1 b'P')
    ∷ (codes "f2", moves 57365 1 b'Q')
    ∷ (codes "f3", moves 57366 13 b'~')
    ∷ (codes "f4", moves 57367 1 b'S')
    ∷ (codes "f5", moves 57368 15 b'~')
    ∷ (codes "f6", moves 57369 17 b'~')
    ∷ (codes "f7", moves 57370 18 b'~')
    ∷ (codes "f8", moves 57371 19 b'~')
    ∷ (codes "f9", moves 57372 20 b'~')
    ∷ (codes "f10", moves 57373 21 b'~')
    ∷ (codes "f11", moves 57374 23 b'~')
    ∷ (codes "f12", moves 57375 24 b'~')
    ∷ (codes "pageup", moves 57354 5 b'~')
    ∷ (codes "pagedown", moves 57355 6 b'~')
    ∷ []

unfoldable pub named_key : Text → List (Text × KeyEncoding) → Option KeyEncoding
named_key lower [] = none
named_key lower ((name, key) ∷ keys) = if text_eq name lower then some key else named_key lower keys

unfoldable pub modifier_of : Text → Option ℕ
modifier_of part =
    let lower = to_ascii_lowercase part in
    if text_eq lower (codes "shift")
    then some 1
    else if text_eq lower (codes "alt")
    then some 2
    else if text_eq lower (codes "ctrl") || text_eq lower (codes "control")
    then some 4
    else none

-- The modifiers, with those that were read before, and the name, the last part.
unfoldable pub modifiers_of : InputError → ℕ → List Text → Result InputError (ℕ × Text)
modifiers_of invalid modifiers [] = err invalid
modifiers_of invalid modifiers (name ∷ []) = ok (modifiers, name)
modifiers_of invalid modifiers (part ∷ next ∷ parts) = do
  modifier ← ok_or (modifier_of part) invalid
  modifiers_of invalid (bit_or modifiers modifier) (next ∷ parts)

unfoldable pub has : ℕ → ℕ → Bool
has flags bit = not (bit_and flags bit == 0)

-- A name that is one character stands for itself.
abbrev character_key : ℕ → Text → Option KeyEncoding
character_key modifiers (c ∷ []) =
    let lower = if has modifiers 4 && is_uppercase c then c + 32 else c in
    some (writes lower (lower ∷ []))
character_key modifiers name = none

abbrev pub or_character : ℕ → Text → Option KeyEncoding → Option KeyEncoding
or_character modifiers name none = character_key modifiers name
or_character modifiers name (some key) = some key

unfoldable pub key_named : ℕ → Text → Option KeyEncoding
key_named modifiers name =
    or_character modifiers name (named_key (to_ascii_lowercase name) named_keys)

unfoldable pub control_of : ℕ → Option ℕ
control_of code =
    if code == 9 || (code == 13 || code == 27)
    then some code
    else if code == 127
    then some 8
    else if code == 32 || code == 64
    then some 0
    else if leb 97 code && leb code 122
    then some (code - 96)
    else if leb 91 code && leb code 95
    then some (code - 64)
    else if code == 63
    then some 127
    else none

abbrev control_byte : ℕ → Option Text
control_byte code = elim (control_of code) [ none ↦ none | some control ↦ some (control ∷ []) ]

unfoldable pub cursor_sequence : Bool → ℕ → ℕ → ℕ × ℕ → Text
cursor_sequence application flags modifiers (number, suffix) =
    if not (modifiers == 0)
    then 27 ∷ b'[' ∷ (show number ++ (b';' ∷ (show (modifiers + 1) ++ suffix ∷ [])))
    else if suffix == b'~'
    then 27 ∷ b'[' ∷ (show number ++ b'~' ∷ [])
    else if (application || (suffix == b'P' || (suffix == b'Q' || suffix == b'S'))) && flags == 0
    then 27 ∷ b'O' ∷ suffix ∷ []
    else 27 ∷ b'[' ∷ suffix ∷ []

abbrev one_character : Text → Bool
one_character (c ∷ []) = true
one_character name = false

-- `str::to_uppercase` is a parameter, since it follows the tables of Unicode.
module _ (to_uppercase : Text → Text) where
  unfoldable pub legacy_bytes : ℕ → Text → KeyEncoding → Text
  legacy_bytes modifiers name key =
      utf8_all (if has modifiers 1 && one_character name then to_uppercase name else key.legacy)

  unfoldable pub plain_bytes : InputError → ℕ → Text → KeyEncoding → Result InputError Text
  plain_bytes invalid modifiers name key = do
    bytes ←
        if has modifiers 4
        then ok_or (control_byte key.code) invalid
        else ok (legacy_bytes modifiers name key)
    ok ((if has modifiers 2 then 27 ∷ [] else []) ++ bytes)

  unfoldable pub key_bytes : InputError → Screen → ℕ → Text → KeyEncoding → Result InputError Text
  key_bytes invalid screen modifiers name key =
      let flags = screen.modes.kitty in
      elim key.csi [
        | some sequence ↦ ok (cursor_sequence screen.application_cursor flags modifiers sequence)
        | none ↦
            if has flags 8 || (has flags 1 && (not (modifiers == 0) || key.code == 27))
            then ok (27 ∷ b'[' ∷ (show key.code ++ (b';' ∷ (show (modifiers + 1) ++ b'u' ∷ []))))
            else if key.code == 9 && modifiers == 1
            then ok (27 ∷ codes "[Z")
            else plain_bytes invalid modifiers name key
      ]

  unfoldable pub encode_key : Screen → Text → Result InputError Text
  encode_key screen key =
      let invalid = unknown_key key in
      do
        (modifiers, name) ← modifiers_of invalid 0 (split b'+' key)
        found ← ok_or (key_named modifiers name) invalid
        key_bytes invalid screen modifiers name found

  unfoldable pub encode_keys : Screen → List Text → Result InputError Text
  encode_keys screen [] = ok []
  encode_keys screen (key ∷ keys) = do
    bytes ← encode_key screen key
    rest ← encode_keys screen keys
    ok (bytes ++ rest)

  unfoldable pub text_bytes : Screen → Text → Result InputError Text
  text_bytes screen text =
      if is_empty text
      then ok []
      else if screen.bracketed_paste
      then ok (27 ∷ codes "[200~" ++ (utf8_all text ++ (27 ∷ codes "[201~")))
      else if has screen.modes.kitty 8
      then encode_keys screen (map (λ c. c ∷ []) text)
      else ok (utf8_all text)

  unfoldable pub terminal_input : Screen → Text → List Text → Result InputError Text
  terminal_input screen text keys = do
    fail_if (any (λ c. is_control c && not (c == 10 || (c == 13 || c == 9))) text)
        control_characters
    bytes ← text_bytes screen text
    rest ← encode_keys screen keys
    ok (bytes ++ rest)
