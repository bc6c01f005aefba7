-- ===== src/Agent/Keys/Tests.antt =====
-- Text and keys on concrete terminals.
use pbox.Base.{
  is_control, ◌≡◌, ◌≢◌, refl, true, false, [], ◌∷◌, ◌++◌, map, Text, codes, is_lowercase,
  if◌then◌else◌, ◌-◌, split, text_eq, show, show_digits, utf8, utf8_all, ok, err, Without, arith,
  All, some,
}
use pbox.Agent.Modes.{default_modes}
use pbox.Agent.Keys.{
  unknown_key, control_characters, Screen, has, named_key, modifier_of, modifiers_of, key_named,
  control_of, cursor_sequence, legacy_bytes, plain_bytes, key_bytes, encode_key, encode_keys,
  text_bytes, terminal_input,
}
use pbox.Agent.Keys.Paste.{terminal_input-pasted, terminal_input_plus}
use pbox.Agent.Keys.Single.{IsTyped, terminal_input_keys}

abbrev upper : Text → Text
upper = map (λ c. if is_lowercase c then c - 32 else c)

abbrev plain : Screen
plain = record { bracketed_paste = false; application_cursor = false; modes = default_modes }

abbrev pasting : Screen
pasting = record {
  bracketed_paste = true;
  application_cursor = false;
  modes = record default_modes { kitty = 9 };
}

abbrev reporting : Screen
reporting = record {
  bracketed_paste = false;
  application_cursor = false;
  modes = record default_modes { kitty = 8 };
}

hello :
    terminal_input upper plain (codes "hello") (codes "Enter" ∷ codes "Ctrl+C" ∷ codes "Up" ∷ [])
    ≡ ok (codes "hello" ++ (13 ∷ 3 ∷ 27 ∷ codes "[A"))
unfolding terminal_input text_bytes is_control encode_keys encode_key split modifiers_of modifier_of
    key_named named_key text_eq key_bytes plain_bytes legacy_bytes cursor_sequence has control_of
    utf8
hello = refl

pasted :
    terminal_input upper pasting (codes "hi") (codes "Enter" ∷ codes "Ctrl+C" ∷ [])
    ≡ ok (
        27 ∷ codes "[200~hi"
        ++ (27 ∷ codes "[201~" ++ (27 ∷ codes "[13;1u" ++ (27 ∷ codes "[99;5u"))))
unfolding terminal_input text_bytes is_control encode_keys encode_key split modifiers_of modifier_of
    key_named named_key text_eq key_bytes plain_bytes legacy_bytes has control_of utf8 show
    show_digits
pasted = refl

refused : terminal_input upper plain (98 ∷ 27 ∷ []) [] ≡ err control_characters
unfolding terminal_input is_control
refused = refl

unknown :
    terminal_input upper plain (codes "hi") (codes "unknown" ∷ [])
    ≡ err (unknown_key (codes "unknown"))
unfolding terminal_input text_bytes is_control encode_keys encode_key split modifiers_of key_named
    named_key text_eq utf8 has
unknown = refl

back_tab : encode_key upper plain (codes "Shift+Tab") ≡ ok (27 ∷ codes "[Z")
unfolding encode_key split modifiers_of modifier_of key_named named_key text_eq key_bytes has
back_tab = refl

terminal_input-pasted_example :
    (rest : Text) × (encode_keys upper pasting (codes "Enter" ∷ codes "Ctrl+C" ∷ []) ≡ ok rest)
    × (27 ∷ codes "[200~hi"
          ++ (27 ∷ codes "[201~" ++ (27 ∷ codes "[13;1u" ++ (27 ∷ codes "[99;5u")))
        ≡ (27 ∷ codes "[200~" ++ (utf8_all (codes "hi") ++ (27 ∷ codes "[201~"))) ++ rest)
    × All (λ b. b ≢ 27) (utf8_all (codes "hi"))
terminal_input-pasted_example =
    terminal_input-pasted upper pasting (codes "hi") (codes "Enter" ∷ codes "Ctrl+C" ∷ []) _ refl
      refl pasted

reports_all : has 8 8 ≡ true
unfolding has
reports_all = refl

terminal_input_plus_example : terminal_input upper reporting (codes "1+1") [] ≢ ok (codes "1+1")
terminal_input_plus_example =
    terminal_input_plus upper reporting (codes "1") (codes "1") [] (codes "1+1") refl reports_all

reports_none : has 0 8 ≡ false
unfolding has
reports_none = refl

no_ambiguous : has 0 1 ≡ false
unfolding has
no_ambiguous = refl

typed : All IsTyped (codes "ls")
unfolding is_control
typed = (
  (omega arith, refl, (λ e. absurd (omega arith))),
  ((omega arith, refl, (λ e. absurd (omega arith))), tt),
)

terminal_input_keys_example :
    (terminal_input upper plain (codes "ls") [] ≡ ok (utf8_all (codes "ls")))
    × (terminal_input upper plain [] (map (λ c. c ∷ []) (codes "ls")) ≡ ok (utf8_all (codes "ls")))
terminal_input_keys_example = terminal_input_keys upper plain (codes "ls") refl reports_none typed

control : modifier_of (codes "CTRL") ≡ some 4
unfolding modifier_of text_eq
control = refl

separate : Without b'+' (codes "CTRL")
separate = (
  (λ e. absurd (omega arith)),
  ((λ e. absurd (omega arith)), ((λ e. absurd (omega arith)), ((λ e. absurd (omega arith)), tt))),
)
