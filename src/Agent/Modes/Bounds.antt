-- ===== src/Agent/Modes/Bounds.antt =====
-- The bounds that the callbacks of `TerminalModes` keep.
use pbox.Base.{
  ℕ, zero, suc, ◌≡◌, ◌≤◌, refl, inl, inr, Bool, true, false, Option, none, some, List, [], ◌∷◌,
  ◌++◌, ◌==◌, ◌&&◌, length, length-append, leb, if◌then◌else◌, Bool-cases, arith,
}
use pbox.Agent.Modes.{
  TerminalModes, default_modes, Csi, make_room, pop, pop_times, clamp, follow, reply_to, first_or,
  is, unhandled_csi, run,
}

abbrev pub StyleBelow : Option ℕ → Type 0
StyleBelow none = Unit {0}
StyleBelow (some style) = style ≤ 6

pub record IsBounded (m : TerminalModes) : Type 0 where
  pub depth : length m.stack ≤ 16
  pub style : StyleBelow m.cursor_style

length-pop_le : (fs : List ℕ) → length ((pop fs).0) ≤ length fs
unfolding pop
length-pop_le [] = omega arith
length-pop_le (f ∷ []) = omega arith
length-pop_le (f ∷ g ∷ fs) = omega (arith, length-pop_le (g ∷ fs))

-- Popping keeps the bounds.
pop_times-IsBounded : (n : ℕ) (m : TerminalModes) → IsBounded m → IsBounded (pop_times n m)
unfolding pop_times
pop_times-IsBounded zero m b = b
pop_times-IsBounded (suc n) m b =
    pop_times-IsBounded n (record m { stack = (pop m.stack).0; kitty = (pop m.stack).1 })
      (record { depth = omega (arith, length-pop_le m.stack, b.depth); style = b.style })

make_room-bounded : (fs : List ℕ) → length fs ≤ 16 → length (make_room fs) ≤ 15
unfolding make_room
make_room-bounded [] h = omega arith
make_room-bounded (f ∷ fs) h = ground arith

either {ℓ} :
    {A : Type ℓ} (P : A → Type 0) (b : Bool) (x y : A)
    → (b ≡ true → P x)
    → P y
    → P (if b then x else y)
either P true x y f g = f refl
either P false x y f g = g

pushed_le : (fs : List ℕ) (kitty : ℕ) → length fs ≤ 16 → length (make_room fs ++ kitty ∷ []) ≤ 16
pushed_le fs kitty h =
    omega (arith, make_room-bounded fs h, length-append (make_room fs) (kitty ∷ []))

style_le : (b c : Bool) (n : ℕ) → (b && c && leb n 6) ≡ true → n ≤ 6
style_le b c n e = ground arith

follow-IsBounded : (s : Csi) (m : TerminalModes) → IsBounded m → IsBounded (follow s m)
unfolding follow
follow-IsBounded s m b =
    let value = first_or s.params 0 in
    elim (Bool-cases (is s.intermediate b' ' && s.command == b'q' && leb value 6)) [
      | inl e ↦ rw e (record {
        depth = b.depth;
        style = style_le (is s.intermediate b' ') (s.command == b'q') value e;
      })
      | inr e ↦
          rw e (elim (Bool-cases (is s.intermediate b'?' && s.command == b'h' && value == 12)) [
            | inl e ↦ rw e (record { depth = b.depth; style = b.style })
            | inr e ↦
                rw e
                  (elim (Bool-cases (is s.intermediate b'?' && s.command == b'l' && value == 12)) [
                    | inl e ↦ rw e (record { depth = b.depth; style = b.style })
                    | inr e ↦
                        rw e (elim (Bool-cases (is s.intermediate b'>' && s.command == b'u')) [
                          | inl e ↦ rw e (record {
                            depth = pushed_le m.stack m.kitty b.depth;
                            style = b.style;
                          })
                          | inr e ↦
                              rw e
                                (elim (Bool-cases (is s.intermediate b'<' && s.command == b'u')) [
                                  | inl e ↦ rw e (pop_times-IsBounded (clamp 1 16 value) m b)
                                  | inr e ↦
                                      rw e
                                        (elim (Bool-cases
                                          (is s.intermediate b'=' && s.command == b'u')) [
                                            | inl e ↦
                                                rw e (record { depth = b.depth; style = b.style })
                                            | inr e ↦
                                                rw e
                                                  (elim (Bool-cases (
                                                    is s.intermediate b'>'
                                                    && s.command == b'm'
                                                    && value == 4)) [
                                                      | inl e ↦ rw e (record {
                                                        depth = b.depth;
                                                        style = b.style;
                                                      })
                                                      | inr e ↦
                                                          rw e
                                                            (elim (Bool-cases (
                                                            is s.intermediate b'?'
                                                            && s.command == b'h'
                                                            && value == 1004)) [
                                                              | inl e ↦ rw e (record {
                                                              depth = b.depth;
                                                              style = b.style;
                                                              })
                                                              | inr e ↦
                                                                rw e
                                                                (elim (Bool-cases (
                                                                is s.intermediate b'?'
                                                                && s.command == b'l'
                                                                && value == 1004)) [
                                                                  | inl e ↦ rw e (record {
                                                                  depth = b.depth;
                                                                  style = b.style;
                                                                  })
                                                                  | inr e ↦ rw e (record {
                                                                  depth = b.depth;
                                                                  style = b.style;
                                                                  })
                                                                ])
                                                            ])
                                                    ])
                                          ])
                                ])
                        ])
                  ])
          ])
    ]

default-IsBounded : IsBounded default_modes
default-IsBounded = record { depth = omega arith; style = tt }

pub run-IsBounded : (ss : List Csi) (m : TerminalModes) → IsBounded m → IsBounded (run ss m)
run-IsBounded [] m b = b
run-IsBounded (s ∷ ss) m b = run-IsBounded ss (follow s m) (follow-IsBounded s m b)

pub followed-IsBounded : (ss : List Csi) → IsBounded (run ss default_modes)
followed-IsBounded ss = run-IsBounded ss default_modes default-IsBounded

-- The callback on a control sequence, whatever the sequence is and whether or not somebody watches the
-- terminal, keeps the stack of keyboard flags at sixteen entries or fewer and the cursor style, where
-- there is one, at six or less, where this held before.
pub unhandled_csi-IsBounded :
    (row col : ℕ) (s : Csi) (m : TerminalModes)
    → IsBounded m
    → IsBounded (unhandled_csi row col s m)
unfolding unhandled_csi
unhandled_csi-IsBounded row col s m b = follow-IsBounded s _ (
    either IsBounded m.headless (record m { replies = m.replies ++ reply_to m row col s }) m
      (λ _. record { depth = b.depth; style = b.style }) b)
