-- ===== src/Agent/Keys/Paste.antt =====
-- Text that is sent to a terminal: `terminal_input` of crates/pbox-agent/src/sessions.rs.
use pbox.Base.{
  is_control, ℕ, ◌≡◌, ◌≢◌, refl, ap, sym, ◌∙◌, Bool, true, false, not, ◌&&◌, ◌||◌, ◌==◌, List, [],
  ◌∷◌, ◌++◌, map, Text, codes, any, is_empty, text_eq, split, utf8_all, utf8_all-All, ok, err,
  ok-ne-err, ok-injective, >>=-eq-ok, fail_if-eq-ok, All, Bool-cases, inl, inr, arith,
}
use pbox.Agent.Keys.{
  control_characters, unknown_key, Screen, has, modifier_of, modifiers_of, encode_key, encode_keys,
  text_bytes, terminal_input,
}

any-false : (f : ℕ → Bool) (t : Text) → any f t ≡ false → All (λ c. f c ≡ false) t
any-false f [] h = tt
any-false f (c ∷ t) h = elim (Bool-cases (f c)) [
  | inl e ↦ absurd (ground arith)
  | inr e ↦ (e, any-false f t (ground arith))
]

-- The characters that text may not have.
abbrev is_refused : ℕ → Bool
is_refused c = is_control c && not (c == 10 || (c == 13 || c == 9))

no_escape : (t : Text) → All (λ c. is_refused c ≡ false) t → All (λ c. c ≢ 27) t
unfolding is_control
no_escape [] a = tt
no_escape (c ∷ t) (h, a) = ((λ e. absurd (ground arith)), no_escape t a)

-- What `terminal_input` does with text that it accepts.
accepted :
    (up : Text → Text) (screen : Screen) (text : Text) (keys : List Text) (bytes : Text)
    → terminal_input up screen text keys ≡ ok bytes
    → All (λ c. is_refused c ≡ false) text
      × ((sent : Text) × (rest : Text) × (text_bytes up screen text ≡ ok sent)
          × (encode_keys up screen keys ≡ ok rest)
          × (bytes ≡ sent ++ rest))
unfolding terminal_input
accepted up screen text keys bytes h =
    let (fine, h') = fail_if-eq-ok (any is_refused text) control_characters _ h in
    let (sent, e, h'') = >>=-eq-ok (text_bytes up screen text) _ h' in
    let (rest, f, g) = >>=-eq-ok (encode_keys up screen keys) _ h'' in
    (any-false is_refused text fine, (sent, rest, e, f, sym (ok-injective g)))

text_bytes-pasted :
    (up : Text → Text) (screen : Screen) (text : Text)
    → screen.bracketed_paste ≡ true
    → is_empty text ≡ false
    → text_bytes up screen text ≡ ok (27 ∷ codes "[200~" ++ (utf8_all text ++ (27 ∷ codes "[201~")))
unfolding text_bytes
text_bytes-pasted up screen text p n = rw (n, p) refl

text_bytes-keys :
    (up : Text → Text) (screen : Screen) (front back : Text)
    → screen.bracketed_paste ≡ false
    → has screen.modes.kitty 8 ≡ true
    → text_bytes up screen (front ++ b'+' ∷ back)
      ≡ encode_keys up screen (map (λ c. c ∷ []) (front ++ b'+' ∷ back))
unfolding text_bytes
text_bytes-keys up screen [] back p k = rw (p, k) refl
text_bytes-keys up screen (c ∷ front) back p k = rw (p, k) refl

-- Where a terminal has bracketed paste and `terminal_input` accepts a text that is not empty, the bytes
-- are the start of a paste, the UTF-8 bytes of the text, the end of the paste, and the bytes of the keys
-- in order; and no byte of the text is an escape, so that nothing in the text can end the paste.
pub terminal_input-pasted :
    (up : Text → Text) (screen : Screen) (text : Text) (keys : List Text) (bytes : Text)
    → screen.bracketed_paste ≡ true
    → is_empty text ≡ false
    → terminal_input up screen text keys ≡ ok bytes
    → (rest : Text) × (encode_keys up screen keys ≡ ok rest)
      × (bytes ≡ (27 ∷ codes "[200~" ++ (utf8_all text ++ (27 ∷ codes "[201~"))) ++ rest)
      × All (λ b. b ≢ 27) (utf8_all text)
terminal_input-pasted up screen text keys bytes p n h =
    let (fine, (sent, rest, e, f, g)) = accepted up screen text keys bytes h in
    let framed : 27 ∷ codes "[200~" ++ (utf8_all text ++ (27 ∷ codes "[201~")) ≡ sent =
      ok-injective (sym (text_bytes-pasted up screen text p n) ∙ e) in
    (
      rest,
      f,
      g ∙ ap (λ b. b ++ rest) (sym framed),
      utf8_all-All 27 text (omega arith) (no_escape text fine),
    )

plus_key :
    (up : Text → Text) (screen : Screen)
    → encode_key up screen (b'+' ∷ []) ≡ err (unknown_key (b'+' ∷ []))
unfolding encode_key modifiers_of modifier_of split text_eq
plus_key up screen = refl

encode_keys-plus :
    (up : Text → Text) (screen : Screen) (front back : Text) (bytes : Text)
    → encode_keys up screen (map (λ c. c ∷ []) (front ++ b'+' ∷ back)) ≢ ok bytes
unfolding encode_keys
encode_keys-plus up screen [] back bytes h =
    let (_, e, _) = >>=-eq-ok (encode_key up screen (b'+' ∷ [])) _ h in
    absurd (ok-ne-err (sym e ∙ plus_key up screen))
encode_keys-plus up screen (c ∷ front) back bytes h =
    let (_, _, h') = >>=-eq-ok (encode_key up screen (c ∷ [])) _ h in
    let (rest, e, _) =
      >>=-eq-ok (encode_keys up screen (map (λ c. c ∷ []) (front ++ b'+' ∷ back))) _ h' in
    encode_keys-plus up screen front back rest e

-- Where a terminal has no bracketed paste and its flags ask for every key as a sequence, a text with a
-- plus sign in it is refused, although it has no control character: each character is read as the name
-- of a key, and a plus sign separates the parts of such a name.
pub terminal_input_plus :
    (up : Text → Text) (screen : Screen) (front back : Text) (keys : List Text) (bytes : Text)
    → screen.bracketed_paste ≡ false
    → has screen.modes.kitty 8 ≡ true
    → terminal_input up screen (front ++ b'+' ∷ back) keys ≢ ok bytes
terminal_input_plus up screen front back keys bytes p k h =
    let (_, (sent, _, e, _, _)) = accepted up screen (front ++ b'+' ∷ back) keys bytes h in
    encode_keys-plus up screen front back sent (sym (text_bytes-keys up screen front back p k) ∙ e)
