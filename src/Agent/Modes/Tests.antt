-- ===== src/Agent/Modes/Tests.antt =====
-- Terminal modes that are followed and restored.
use pbox.Base.{
  List, show, show_digits, ◌≡◌, refl, true, false, none, some, [], ◌∷◌, codes, ◌++◌, arith,
}
use pbox.Agent.Modes.{
  TerminalModes, default_modes, Csi, restore_modes, restore_commands, reply_to, run, unhandled_csi,
  make_room, follow, csi,
}
use pbox.Agent.Modes.Restore.{taken_over, run-restored}
use pbox.Agent.Modes.Bounds.{unhandled_csi-IsBounded, IsBounded}

-- The modes of an editor that pushed its flags twice.
abbrev editor : TerminalModes
editor = record {
  headless = false;
  replies = [];
  kitty = 9;
  stack = 0 ∷ 1 ∷ [];
  modify_keys = 2;
  focus = true;
  cursor_style = some 5;
  cursor_blink = none;
}

editor-IsBounded : IsBounded editor
editor-IsBounded = record { depth = omega arith; style = omega arith }

abbrev used : TerminalModes
used = record default_modes { stack = 3 ∷ []; kitty = 7; cursor_blink = some true }

editor_followed :
    run
      (csi b'>' (1 ∷ []) b'u'
        ∷ csi b'>' (9 ∷ []) b'u'
        ∷ csi b'>' (4 ∷ 2 ∷ []) b'm'
        ∷ csi b'?' (1004 ∷ []) b'h'
        ∷ csi b' ' (5 ∷ []) b'q'
        ∷ [])
      default_modes
    ≡ editor
unfolding follow make_room
editor_followed = refl

editor_written :
    restore_modes editor
    ≡ 27 ∷ codes "[5 q"
      ++ (27 ∷ codes "[<16u"
          ++ (27 ∷ codes "[=0u"
              ++ (27 ∷ codes "[>1u"
                  ++ (27 ∷ codes "[>9u" ++ (27 ∷ codes "[>4;2m" ++ (27 ∷ codes "[?1004h"))))))
unfolding restore_modes restore_commands show show_digits
editor_written = refl

position_reply :
    (unhandled_csi 2 6
      (record { intermediate = none; params = 6 ∷ []; command = b'n' })
      (record default_modes { headless = true })).replies
    ≡ 27 ∷ codes "[3;7R"
unfolding unhandled_csi reply_to follow show show_digits
position_reply = refl

abbrev edited : List Csi
edited = csi b'>' (1 ∷ []) b'u' ∷ csi b' ' (5 ∷ []) b'q' ∷ []

run-restored_example :
    run (restore_commands (run edited default_modes)) used
    ≡ taken_over (run edited default_modes) used
run-restored_example = run-restored edited used (omega arith)

unhandled_csi-IsBounded_example : IsBounded (unhandled_csi 0 0 (csi b'>' (9 ∷ []) b'u') editor)
unhandled_csi-IsBounded_example =
    unhandled_csi-IsBounded 0 0 (csi b'>' (9 ∷ []) b'u') editor editor-IsBounded
