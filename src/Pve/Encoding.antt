-- ===== src/Pve/Encoding.antt =====
-- `encode_query_component` against an independent decoder of percent escapes.
use pbox.Base.{
  ℕ, ◌+◌, ◌*◌, ◌/◌, ◌%◌, ◌-◌, ◌≡◌, ◌≢◌, ◌<◌, refl, ap, ◌∙◌, inl, inr, true, [], ◌∷◌, ◌++◌, Text,
  is_digit, ◌==◌, if◌then◌else◌, All, All-append, Bool-cases, arith,
}
use pbox.Pve.{is_plain, hex_digit, encode_byte, encode_query_component}

abbrev unhex : ℕ → ℕ
unhex c = if is_digit c then c - b'0' else c - b'A' + 10

-- A percent sign and two hexadecimal digits are a byte; all else is itself.
abbrev pub decode : Text → Text
decode [] = []
decode (c ∷ []) = c ∷ []
decode (c ∷ h ∷ []) = c ∷ h ∷ []
decode (c ∷ h ∷ l ∷ t) =
    let escaped = decode t in
    let plain = decode (h ∷ l ∷ t) in
    if c == b'%' then (unhex h * 16 + unhex l) ∷ escaped else c ∷ plain

decode_plain : (c : ℕ) (t : Text) → c ≢ b'%' → decode (c ∷ t) ≡ c ∷ decode t
decode_plain c [] n = refl
decode_plain c (h ∷ []) n = refl
decode_plain c (h ∷ l ∷ t) n = ground arith

unhex-hex_digit : (n : ℕ) → n < 16 → unhex (hex_digit n) ≡ n
unfolding hex_digit
unhex-hex_digit n b = ground arith

plain_percent : (byte : ℕ) → is_plain byte ≡ true → byte ≢ b'%'
unfolding is_plain
plain_percent byte h e = ground arith

halves : (byte : ℕ) → byte / 16 * 16 + byte % 16 ≡ byte
halves byte = omega arith

high : (byte : ℕ) → byte < 256 → byte / 16 < 16
high byte b = omega arith

decode-encode_byte :
    (byte : ℕ) (t : Text) → byte < 256 → decode (encode_byte byte ++ t) ≡ byte ∷ decode t
unfolding encode_byte
decode-encode_byte byte t b = elim (Bool-cases (is_plain byte)) [
  | inl p ↦ rw p (decode_plain byte t (plain_percent byte p))
  | inr p ↦
      rw
        (
          p,
          unhex-hex_digit (byte / 16) (high byte b),
          unhex-hex_digit (byte % 16) (omega arith),
          halves byte,
        )
        refl
]

-- Bytes that are encoded for a query are decoded to the same bytes.
pub decode-encode_query_component :
    (value : Text) → All (λ byte. byte < 256) value → decode (encode_query_component value) ≡ value
unfolding encode_query_component
decode-encode_query_component [] a = refl
decode-encode_query_component (byte ∷ value) (b, a) =
    decode-encode_byte byte (encode_query_component value) b
    ∙ ap (◌∷◌ byte) (decode-encode_query_component value a)

-- The bytes of an encoded component: those that stay, the percent sign and the digits behind it.
abbrev pub IsSafe : ℕ → Type 0
IsSafe c =
    (c ≢ b'&')
    × (c ≢ b'=')
    × (c ≢ b'#')
    × (c ≢ b'?')
    × (c ≢ b'+')
    × (c ≢ b' ')
    × (32 < c)
    × (c < 127)

plain-IsSafe : (c : ℕ) → is_plain c ≡ true → IsSafe c
unfolding is_plain
plain-IsSafe c h = (
  (λ e. ground arith),
  (λ e. ground arith),
  (λ e. ground arith),
  (λ e. ground arith),
  (λ e. ground arith),
  (λ e. ground arith),
  ground arith,
  ground arith,
)

digit_plain : (n : ℕ) → n < 16 → is_plain (hex_digit n) ≡ true
unfolding is_plain hex_digit
digit_plain n b = ground arith

percent : IsSafe b'%'
percent = (
  (λ e. ground arith),
  (λ e. ground arith),
  (λ e. ground arith),
  (λ e. ground arith),
  (λ e. ground arith),
  (λ e. ground arith),
  omega arith,
  omega arith,
)

digit-IsSafe : (n : ℕ) → n < 16 → IsSafe (hex_digit n)
digit-IsSafe n b = plain-IsSafe (hex_digit n) (digit_plain n b)

encode_byte-IsSafe : (byte : ℕ) → byte < 256 → All IsSafe (encode_byte byte)
unfolding encode_byte
encode_byte-IsSafe byte b = elim (Bool-cases (is_plain byte)) [
  | inl p ↦ rw p (plain-IsSafe byte p, tt)
  | inr p ↦ rw p (
    percent,
    (digit-IsSafe (byte / 16) (high byte b), (digit-IsSafe (byte % 16) (omega arith), tt)),
  )
]

-- Bytes that are encoded for a query are printable ASCII without a space and without one of `&=#?+`.
pub encode_query_component-IsSafe :
    (value : Text) → All (λ byte. byte < 256) value → All IsSafe (encode_query_component value)
unfolding encode_query_component
encode_query_component-IsSafe [] a = tt
encode_query_component-IsSafe (byte ∷ value) (b, a) =
    All-append IsSafe (encode_byte byte) (encode_query_component value) (encode_byte-IsSafe byte b)
      (encode_query_component-IsSafe value a)
