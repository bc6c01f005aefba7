-- ===== src/Agent/Modes/Restore.antt =====
-- A terminal that `restore_modes` is written to has the modes that were followed.
use pbox.Base.{
  ℕ, zero, suc, ◌+◌, ◌≡◌, ◌≤◌, ◌<◌, refl, ap, ◌∙◌, Bool, true, false, Option, none, some, List, [],
  ◌∷◌, ◌++◌, append_assoc, length, length-append, if◌then◌else◌, arith,
}
use pbox.Agent.Modes.{
  TerminalModes, default_modes, Csi, make_room, pop, pop_times, clamp, set_flags, follow, csi,
  style_commands, blink_commands, push_commands, stack_commands, restore_commands, run,
}
use pbox.Agent.Modes.Bounds.{StyleBelow, IsBounded, followed-IsBounded}

run-append : (xs ys : List Csi) (m : TerminalModes) → run (xs ++ ys) m ≡ run ys (run xs m)
run-append [] ys m = refl
run-append (x ∷ xs) ys m = run-append xs ys (follow x m)

run-next : (xs ys : List Csi) (m n : TerminalModes) → run xs m ≡ n → run (xs ++ ys) m ≡ run ys n
run-next xs ys m n e = run-append xs ys m ∙ ap (run ys) e

length-pop : (fs : List ℕ) (n : ℕ) → length fs ≤ suc n → length ((pop fs).0) ≤ n
unfolding pop
length-pop [] n h = omega arith
length-pop (f ∷ []) n h = omega arith
length-pop (f ∷ g ∷ fs) zero h = absurd (omega arith)
length-pop (f ∷ g ∷ fs) (suc n) h = omega (arith, length-pop (g ∷ fs) n (omega arith))

empty_of_length : (fs : List ℕ) → length fs ≤ 0 → fs ≡ []
empty_of_length [] h = refl
empty_of_length (f ∷ fs) h = absurd (omega arith)

pop_times-empty :
    (n : ℕ) (m : TerminalModes)
    → length m.stack ≤ n
    → (k : ℕ) × (pop_times n m ≡ record m { stack = []; kitty = k })
unfolding pop_times
pop_times-empty zero m h =
    (m.kitty, ap (λ s. record m { stack = s; kitty = m.kitty }) (empty_of_length m.stack h))
pop_times-empty (suc n) m h =
    pop_times-empty n (record m { stack = (pop m.stack).0; kitty = (pop m.stack).1 })
      (length-pop m.stack n h)

make_room_lem : (fs : List ℕ) → length fs < 16 → make_room fs ≡ fs
unfolding make_room
make_room_lem [] h = refl
make_room_lem (f ∷ fs) h = ground arith

run-push_commands :
    (fs : List ℕ) (kitty : ℕ) (m : TerminalModes)
    → length m.stack + length fs < 16
    → run (push_commands (fs ++ kitty ∷ [])) m
      ≡ record m { stack = m.stack ++ m.kitty ∷ fs; kitty = kitty }
unfolding follow
run-push_commands [] kitty m h =
    ap (λ s. record m { stack = s ++ m.kitty ∷ []; kitty = kitty })
      (make_room_lem m.stack (omega arith))
run-push_commands (f ∷ fs) kitty m h =
    let room = make_room_lem m.stack (omega arith) in
    let pushed = record m { stack = m.stack ++ m.kitty ∷ []; kitty = f } in
    ap
      (λ s.
        run (push_commands (fs ++ kitty ∷ [])) (record m { stack = s ++ m.kitty ∷ []; kitty = f }))
      room
    ∙ run-push_commands fs kitty pushed (omega (arith, length-append m.stack (m.kitty ∷ [])))
    ∙ ap (λ s. record m { stack = s; kitty = kitty }) (append_assoc m.stack (m.kitty ∷ []) (f ∷ fs))

abbrev pub or_kept {ℓ} : {A : Type ℓ} → Option A → Option A → Option A
or_kept old none = old
or_kept old (some a) = some a

-- What a terminal's modes are after the modes of another were written to it.
abbrev pub taken_over : TerminalModes → TerminalModes → TerminalModes
taken_over m t = record t {
  kitty = m.kitty;
  stack = m.stack;
  modify_keys = m.modify_keys;
  focus = m.focus;
  cursor_style = or_kept t.cursor_style m.cursor_style;
  cursor_blink = or_kept t.cursor_blink m.cursor_blink;
}

run-style_commands :
    (style : Option ℕ) (m : TerminalModes)
    → StyleBelow style
    → run (style_commands style) m ≡ record m { cursor_style = or_kept m.cursor_style style }
unfolding follow
run-style_commands none m h = refl
run-style_commands (some style) m h = ground arith

run-blink_commands :
    (blink : Option Bool) (m : TerminalModes)
    → run (blink_commands blink) m ≡ record m { cursor_blink = or_kept m.cursor_blink blink }
unfolding follow
run-blink_commands none m = refl
run-blink_commands (some true) m = refl
run-blink_commands (some false) m = refl

run-stack_commands :
    (fs : List ℕ) (kitty : ℕ) (m : TerminalModes)
    → m.stack ≡ []
    → length fs ≤ 16
    → run (stack_commands fs kitty) m ≡ record m { stack = fs; kitty = kitty }
unfolding follow set_flags
run-stack_commands [] kitty m e h = ap (λ s. record m { stack = s; kitty = kitty }) e
run-stack_commands (f ∷ fs) kitty m e h =
    run-push_commands fs kitty (record m { kitty = f }) (omega (arith, ap (length {A = ℕ}) e))
    ∙ ap (λ s. record m { stack = s ++ f ∷ fs; kitty = kitty }) e

-- The last two commands.
run-last_commands :
    (keys : ℕ) (focus : Bool) (m : TerminalModes)
    → run
        (csi b'>' (4 ∷ keys ∷ []) b'm' ∷ csi b'?' (1004 ∷ []) (if focus then b'h' else b'l') ∷ [])
        m
      ≡ record m { modify_keys = keys; focus = focus }
unfolding follow
run-last_commands keys true m = refl
run-last_commands keys false m = refl

run-pop_all :
    (m : TerminalModes)
    → length m.stack ≤ 16
    → (k : ℕ) × (follow (csi b'<' (16 ∷ []) b'u') m ≡ record m { stack = []; kitty = k })
unfolding follow clamp
run-pop_all m h = pop_times-empty 16 m h

run-restore_commands :
    (m t : TerminalModes)
    → IsBounded m
    → length t.stack ≤ 16
    → run (restore_commands m) t ≡ taken_over m t
unfolding restore_commands
run-restore_commands m t bounded h =
    let styled = record t { cursor_style = or_kept t.cursor_style m.cursor_style } in
    let blinked = record styled { cursor_blink = or_kept t.cursor_blink m.cursor_blink } in
    let stacked = record blinked { stack = m.stack; kitty = m.kitty } in
    let (k, popped) = run-pop_all blinked h in
    let emptied = record blinked { stack = []; kitty = k } in
    let last =
      csi b'>' (4 ∷ m.modify_keys ∷ []) b'm'
      ∷ csi b'?' (1004 ∷ []) (if m.focus then b'h' else b'l')
      ∷ [] in
    let stack = stack_commands m.stack m.kitty ++ last in
    let blink = blink_commands m.cursor_blink ++ csi b'<' (16 ∷ []) b'u' ∷ stack in
    run-next (style_commands m.cursor_style) blink t styled
      (run-style_commands m.cursor_style t bounded.style)
    ∙ run-next (blink_commands m.cursor_blink) (csi b'<' (16 ∷ []) b'u' ∷ stack) styled blinked
        (run-blink_commands m.cursor_blink styled)
    ∙ ap (run stack) popped
    ∙ run-next (stack_commands m.stack m.kitty) last emptied stacked
        (run-stack_commands m.stack m.kitty emptied refl bounded.depth)
    ∙ run-last_commands m.modify_keys m.focus stacked

-- Let a new terminal of a session have read any control sequences, and let a terminal that attaches have
-- at most sixteen entries on its stack of keyboard flags. After the callbacks have read, on the latter,
-- what `restore_modes` writes for the former, it has the same keyboard flags and the same stack of
-- them, the same key modifier mode and the same focus mode, and also the same cursor style and blinking,
-- where those were set; nothing else of it changes.
pub run-restored :
    (ss : List Csi) (t : TerminalModes)
    → length t.stack ≤ 16
    → run (restore_commands (run ss default_modes)) t ≡ taken_over (run ss default_modes) t
run-restored ss t h = run-restore_commands (run ss default_modes) t (followed-IsBounded ss) h
