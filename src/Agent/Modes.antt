-- ===== src/Agent/Modes.antt =====
-- crates/pbox-agent/src/sessions.rs: `TerminalModes`, the keyboard and cursor modes that the agent
-- follows on the output of a terminal, and `restore_modes`, which sets them on a terminal that
-- attaches. The crate vt100 cuts output into control sequences: it is a section parameter.
pub mod Restore
pub mod Bounds
mod Tests
use pbox.Base.{
  ℕ, zero, suc, ◌+◌, ◌-◌, ◌≡◌, Bool, true, false, ◌&&◌, Option, none, some, List, [], ◌∷◌, ◌++◌,
  Text, codes, text_eq, ltb, leb, ◌==◌, if◌then◌else◌, length, show, bit_and, bit_or,
}

pub record TerminalModes : Type 0 where
  pub headless : Bool
  pub replies : Text
  pub kitty : ℕ
  pub stack : List ℕ
  pub modify_keys : ℕ
  pub focus : Bool
  pub cursor_style : Option ℕ
  pub cursor_blink : Option Bool

abbrev pub default_modes : TerminalModes
default_modes = record {
  headless = false;
  replies = [];
  kitty = 0;
  stack = [];
  modify_keys = 0;
  focus = false;
  cursor_style = none;
  cursor_blink = none;
}

-- A control sequence: its first intermediate byte, the first number of each parameter, and its last byte.
pub record Csi : Type 0 where
  pub intermediate : Option ℕ
  pub params : List ℕ
  pub command : ℕ

abbrev first_or : List ℕ → ℕ → ℕ
first_or [] d = d
first_or (p ∷ ps) d = p

abbrev second_or : List ℕ → ℕ → ℕ
second_or [] d = d
second_or (p ∷ ps) d = first_or ps d

abbrev is : Option ℕ → ℕ → Bool
is none b = false
is (some a) b = a == b

abbrev is_none : Option ℕ → Bool
is_none none = true
is_none (some a) = false

-- The answer of a terminal that nobody watches, with the cursor's row and column.
unfoldable pub reply_to : TerminalModes → ℕ → ℕ → Csi → Text
reply_to m row col s =
    let value = first_or s.params 0 in
    if is_none s.intermediate && s.command == b'n' && value == 5
    then 27 ∷ codes "[0n"
    else if is_none s.intermediate && s.command == b'n' && value == 6
    then 27 ∷ codes "[" ++ (show (row + 1) ++ (codes ";" ++ (show (col + 1) ++ codes "R")))
    else if is_none s.intermediate && s.command == b'c' && value == 0
    then 27 ∷ codes "[?1;2c"
    else if is s.intermediate b'>' && s.command == b'c' && value == 0
    then 27 ∷ codes "[>0;1;0c"
    else if is s.intermediate b'?' && s.command == b'u'
    then 27 ∷ codes "[?" ++ (show m.kitty ++ codes "u")
    else []

-- The bound of the stack is sixteen: the oldest entry is dropped.
unfoldable pub make_room : List ℕ → List ℕ
make_room [] = []
make_room (f ∷ fs) = if length (f ∷ fs) == 16 then fs else f ∷ fs

-- `stack.pop().unwrap_or(0)`: the last entry, and the others.
unfoldable pub pop : List ℕ → List ℕ × ℕ
pop [] = ([], 0)
pop (f ∷ []) = ([], f)
pop (f ∷ g ∷ fs) = let (rest, last) = pop (g ∷ fs) in (f ∷ rest, last)

unfoldable pub pop_times : ℕ → TerminalModes → TerminalModes
pop_times zero m = m
pop_times (suc n) m =
    let (rest, last) = pop m.stack in pop_times n (record m { stack = rest; kitty = last })

unfoldable pub clamp : ℕ → ℕ → ℕ → ℕ
clamp low high n = if ltb n low then low else if ltb high n then high else n

-- `!value` of a u16.
unfoldable pub complement : ℕ → ℕ
complement value = 65535 - value

unfoldable pub set_flags : ℕ → ℕ → ℕ → ℕ
set_flags kitty value mode =
    if mode == 2
    then bit_or kitty value
    else if mode == 3
    then bit_and kitty (complement value)
    else value

-- The second `match` of the callback, in the order of its arms.
unfoldable pub follow : Csi → TerminalModes → TerminalModes
follow s m =
    let value = first_or s.params 0 in
    let second = second_or s.params 1 in
    if is s.intermediate b' ' && s.command == b'q' && leb value 6
    then record m { cursor_style = some value }
    else if is s.intermediate b'?' && s.command == b'h' && value == 12
    then record m { cursor_blink = some true }
    else if is s.intermediate b'?' && s.command == b'l' && value == 12
    then record m { cursor_blink = some false }
    else if is s.intermediate b'>' && s.command == b'u'
    then record m { stack = make_room m.stack ++ m.kitty ∷ []; kitty = value }
    else if is s.intermediate b'<' && s.command == b'u'
    then pop_times (clamp 1 16 value) m
    else if is s.intermediate b'=' && s.command == b'u'
    then record m { kitty = set_flags m.kitty value second }
    else if is s.intermediate b'>' && s.command == b'm' && value == 4
    then record m { modify_keys = second }
    else if is s.intermediate b'?' && s.command == b'h' && value == 1004
    then record m { focus = true }
    else if is s.intermediate b'?' && s.command == b'l' && value == 1004
    then record m { focus = false }
    else m

-- The callback, on sequences that `terminal_extension` of the client does not take.
unfoldable pub unhandled_csi : ℕ → ℕ → Csi → TerminalModes → TerminalModes
unhandled_csi row col s m =
    let answered = record m { replies = m.replies ++ reply_to m row col s } in
    follow s (if m.headless then answered else m)

abbrev answer_osc : Text → Text
answer_osc number =
    if text_eq number (codes "10")
    then 27 ∷ codes "]10;rgb:ffff/ffff/ffff" ++ (27 ∷ 92 ∷ [])
    else if text_eq number (codes "11")
    then 27 ∷ codes "]11;rgb:0000/0000/0000" ++ (27 ∷ 92 ∷ [])
    else []

unfoldable pub unhandled_osc : List Text → TerminalModes → TerminalModes
unhandled_osc (number ∷ query ∷ params) m =
    if m.headless && text_eq query (codes "?")
    then record m { replies = m.replies ++ answer_osc number }
    else m
unhandled_osc params m = m

-- How a sequence is written, with its intermediate byte before the command where it is a space.
abbrev join : List ℕ → Text
join [] = []
join (p ∷ []) = show p
join (p ∷ q ∷ ps) = show p ++ b';' ∷ join (q ∷ ps)

abbrev pub csi_bytes : Csi → Text
csi_bytes s = elim s.intermediate [
  | none ↦ 27 ∷ b'[' ∷ (join s.params ++ s.command ∷ [])
  | some i ↦
      if i == b' '
      then 27 ∷ b'[' ∷ (join s.params ++ b' ' ∷ s.command ∷ [])
      else 27 ∷ b'[' ∷ i ∷ (join s.params ++ s.command ∷ [])
]

abbrev csi : ℕ → List ℕ → ℕ → Csi
csi i params command = record { intermediate = some i; params = params; command = command }

abbrev style_commands : Option ℕ → List Csi
style_commands none = []
style_commands (some style) = csi b' ' (style ∷ []) b'q' ∷ []

abbrev blink_commands : Option Bool → List Csi
blink_commands none = []
blink_commands (some blink) = csi b'?' (12 ∷ []) (if blink then b'h' else b'l') ∷ []

abbrev push_commands : List ℕ → List Csi
push_commands [] = []
push_commands (flags ∷ fs) = csi b'>' (flags ∷ []) b'u' ∷ push_commands fs

abbrev stack_commands : List ℕ → ℕ → List Csi
stack_commands [] kitty = csi b'=' (kitty ∷ []) b'u' ∷ []
stack_commands (initial ∷ fs) kitty =
    csi b'=' (initial ∷ []) b'u' ∷ push_commands (fs ++ kitty ∷ [])

-- The sequences that `restore_modes` writes.
unfoldable pub restore_commands : TerminalModes → List Csi
restore_commands m =
    style_commands m.cursor_style
    ++ (blink_commands m.cursor_blink
        ++ (csi b'<' (16 ∷ []) b'u'
            ∷ (stack_commands m.stack m.kitty
                ++ (csi b'>' (4 ∷ m.modify_keys ∷ []) b'm'
                    ∷ csi b'?' (1004 ∷ []) (if m.focus then b'h' else b'l')
                    ∷ []))))

abbrev pub write_all : List Csi → Text
write_all [] = []
write_all (s ∷ ss) = csi_bytes s ++ write_all ss

unfoldable pub restore_modes : TerminalModes → Text
unfolding restore_commands
restore_modes m = write_all (restore_commands m)

-- The callbacks on the sequences of an output, in order.
abbrev pub run : List Csi → TerminalModes → TerminalModes
run [] m = m
run (s ∷ ss) m = run ss (follow s m)
