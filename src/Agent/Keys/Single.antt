-- ===== src/Agent/Keys/Single.antt =====
-- Keys that are one character: `encode_key` of crates/pbox-agent/src/sessions.rs.
use pbox.Base.{
  is_control, ℕ, ◌+◌, ◌-◌, ◌≡◌, ◌≢◌, ◌≤◌, refl, ap, Bool, true, false, not, ◌&&◌, ◌||◌, ◌==◌,
  if◌then◌else◌, none, some, List, [], ◌∷◌, ◌++◌, map, append-nil, Text, any, is_uppercase,
  is_lowercase, text_eq, split_whole, split-append, Without, utf8, utf8_all, Result, ok, All, arith,
  ◌⊎◌,
}
use pbox.Agent.Keys.{
  InputError, unknown_key, Screen, KeyEncoding, has, named_key, named_keys, modifier_of,
  modifiers_of, key_named, or_character, control_of, legacy_bytes, plain_bytes, key_bytes,
  encode_key, encode_keys, text_bytes, terminal_input,
}

-- No name in the table is that one character.
abbrev is_other : ℕ → Text → Bool
is_other d [] = true
is_other d (c ∷ []) = not (c == d)
is_other d (c ∷ e ∷ t) = true

is_other-text_eq : (d : ℕ) (t : Text) → is_other d t ≡ true → text_eq t (d ∷ []) ≡ false
unfolding text_eq
is_other-text_eq d [] h = refl
is_other-text_eq d (c ∷ []) h = ground arith
is_other-text_eq d (c ∷ e ∷ t) h = ground arith

named_key-none :
    (d : ℕ) (keys : List (Text × KeyEncoding))
    → All (λ k. is_other d (k.0) ≡ true) keys
    → named_key (d ∷ []) keys ≡ none
unfolding named_key
named_key-none d [] a = refl
named_key-none d ((name, key) ∷ keys) (h, a) =
    rw (is_other-text_eq d name h) (named_key-none d keys a)

not_named : (d : ℕ) → 32 ≤ d → All (λ k. is_other d (k.0) ≡ true) named_keys
not_named d h = (
  refl,
  (
    refl,
    (
      ground arith,
      (
        ground arith,
        (
          refl,
          (
            ground arith,
            (
              refl,
              (
                refl,
                (
                  refl,
                  (
                    refl,
                    (
                      refl,
                      (
                        refl,
                        (
                          refl,
                          (
                            refl,
                            (
                              refl,
                              (
                                refl,
                                (
                                  refl,
                                  (
                                    refl,
                                    (
                                      refl,
                                      (
                                        refl,
                                        (
                                          refl,
                                          (
                                            refl,
                                            (
                                              refl,
                                              (
                                                refl,
                                                (
                                                  refl,
                                                  (
                                                    refl,
                                                    (
                                                      refl,
                                                      (refl, (refl, (refl, (refl, (refl, tt))))),
                                                    ),
                                                  ),
                                                ),
                                              ),
                                            ),
                                          ),
                                        ),
                                      ),
                                    ),
                                  ),
                                ),
                              ),
                            ),
                          ),
                        ),
                      ),
                    ),
                  ),
                ),
              ),
            ),
          ),
        ),
      ),
    ),
  ),
)

abbrev single : ℕ → KeyEncoding
single c = record { code = c; legacy = c ∷ []; csi = none }

-- The character that a name of one character is, after the letter case that control ignores.
abbrev folded : ℕ → ℕ → ℕ
folded modifiers c = if has modifiers 4 && is_uppercase c then c + 32 else c

key_named-single :
    (modifiers c : ℕ) → 32 ≤ c → key_named modifiers (c ∷ []) ≡ some (single (folded modifiers c))
unfolding key_named
key_named-single modifiers c h =
    ap (or_character modifiers (c ∷ [])) (
      named_key-none (if is_uppercase c then c + 32 else c) named_keys (not_named _ (ground arith)))

key_bytes-plain :
    (up : Text → Text) (invalid : InputError) (screen : Screen) (c : ℕ)
    → 32 ≤ c
    → has screen.modes.kitty 8 ≡ false
    → key_bytes up invalid screen 0 (c ∷ []) (single c) ≡ ok (utf8 c)
unfolding key_bytes plain_bytes legacy_bytes has
key_bytes-plain up invalid screen c h k =
    let not_escape : c == 27 ≡ false = ground arith in
    let not_tab : c == 9 ≡ false = ground arith in ground (arith, append-nil (utf8 c))

encode_key-single :
    (up : Text → Text) (screen : Screen) (c : ℕ)
    → 32 ≤ c
    → c ≢ b'+'
    → has screen.modes.kitty 8 ≡ false
    → encode_key up screen (c ∷ []) ≡ ok (utf8 c)
unfolding encode_key modifiers_of has
encode_key-single up screen c h n k =
    rw (split_whole b'+' (c ∷ []) (n, tt), key_named-single 0 c h)
      (key_bytes-plain up (unknown_key (c ∷ [])) screen c h k)

-- A character that a key can be named by, other than the one that separates the parts of a name.
abbrev pub IsTyped : ℕ → Type 0
IsTyped c = (32 ≤ c) × (is_control c ≡ false) × (c ≢ b'+')

encode_keys-singles :
    (up : Text → Text) (screen : Screen) (text : Text)
    → has screen.modes.kitty 8 ≡ false
    → All IsTyped text
    → encode_keys up screen (map (λ c. c ∷ []) text) ≡ ok (utf8_all text)
unfolding encode_keys
encode_keys-singles up screen [] k a = refl
encode_keys-singles up screen (c ∷ text) k ((h, _, n), a) =
    rw (encode_key-single up screen c h n k, encode_keys-singles up screen text k a) refl

none_refused :
    (text : Text)
    → All IsTyped text
    → any (λ c. is_control c && not (c == 10 || (c == 13 || c == 9))) text ≡ false
none_refused [] a = refl
none_refused (c ∷ text) ((_, h, _), a) = rw h (none_refused text a)

text_bytes-plain :
    (up : Text → Text) (screen : Screen) (text : Text)
    → screen.bracketed_paste ≡ false
    → has screen.modes.kitty 8 ≡ false
    → text_bytes up screen text ≡ ok (utf8_all text)
unfolding text_bytes
text_bytes-plain up screen [] p k = refl
text_bytes-plain up screen (c ∷ text) p k = rw (p, k) refl

abbrev accept : Text → Result InputError Text
accept bytes = ok bytes

-- On a terminal without bracketed paste whose flags do not ask for every key as a sequence, sending a
-- text without control characters and plus signs, and sending each of its characters as a key, both
-- give the UTF-8 bytes of the text.
pub terminal_input_keys :
    (up : Text → Text) (screen : Screen) (text : Text)
    → screen.bracketed_paste ≡ false
    → has screen.modes.kitty 8 ≡ false
    → All IsTyped text
    → (terminal_input up screen text [] ≡ ok (utf8_all text))
      × (terminal_input up screen [] (map (λ c. c ∷ []) text) ≡ ok (utf8_all text))
unfolding terminal_input encode_keys text_bytes
terminal_input_keys up screen text p k a = (
  rw (none_refused text a, text_bytes-plain up screen text p k)
      (ap accept (append-nil (utf8_all text))),
  rw (encode_keys-singles up screen text k a) refl,
)

abbrev is_letter : ℕ → Bool
is_letter c = is_lowercase c || is_uppercase c

key_bytes-control :
    (up : Text → Text) (invalid : InputError) (screen : Screen) (name : Text) (c : ℕ)
    → has screen.modes.kitty 8 ≡ false
    → has screen.modes.kitty 1 ≡ false
    → is_lowercase c ≡ true
    → key_bytes up invalid screen 4 name (single c) ≡ ok ((c - 96) ∷ [])
unfolding key_bytes plain_bytes has control_of
key_bytes-control up invalid screen name c k l h = ground arith

-- On a terminal whose flags ask neither for every key nor for ambiguous keys as sequences, a letter of
-- either case behind a name of the control modifier, in any case, is the control code of the letter,
-- between 1 and 26.
pub encode_key-control :
    (up : Text → Text) (screen : Screen) (part : Text) (c : ℕ)
    → has screen.modes.kitty 8 ≡ false
    → has screen.modes.kitty 1 ≡ false
    → Without b'+' part
    → modifier_of part ≡ some 4
    → is_letter c ≡ true
    → (code : ℕ) × (1 ≤ code)
      × (code ≤ 26)
      × ((c ≡ 64 + code) ⊎ (c ≡ 96 + code))
      × (encode_key up screen (part ++ b'+' ∷ c ∷ []) ≡ ok (code ∷ []))
unfolding encode_key modifiers_of has
encode_key-control up screen part c k l w m h =
    let invalid = unknown_key (part ++ b'+' ∷ c ∷ []) in
    let d = folded 4 c in
    let no_plus : c ≢ b'+' = λ e. absurd (ground arith) in
    let lower : is_lowercase d ≡ true = ground arith in
    (
      d - 96,
      ground arith,
      ground arith,
      ground arith,
      rw
          (
            split-append b'+' part (c ∷ []) w,
            split_whole b'+' (c ∷ []) (no_plus, tt),
            m,
            key_named-single 4 c (ground arith),
          )
          (key_bytes-control up invalid screen (c ∷ []) d k l lower),
    )
