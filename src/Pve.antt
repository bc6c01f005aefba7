-- ===== src/Pve.antt =====
-- crates/pbox-core/src/pve.rs: what is checked and encoded before it goes into a request to PVE, and
-- what is picked from a reply: the state of a task and the IPv4 address of a container. A text is its
-- bytes in encode_query_component and its characters elsewhere.
pub mod Encoding
pub mod Segments
pub mod Selection
mod Tests
use pbox.Base.{
  is_ascii_control, ℕ, ◌+◌, ◌*◌, ◌/◌, ◌%◌, ◌-◌, ◌≡◌, ◌≤◌, ◌<◌, Bool, true, false, not, ◌&&◌, ◌||◌,
  Option, none, some, List, [], ◌∷◌, ◌++◌, Text, codes, text_eq, starts_with, is_empty, is_digit,
  is_lowercase, is_uppercase, is_alphanumeric, ltb, leb, ◌==◌, if◌then◌else◌, length, all, any,
  split, Result, ok, err, guard, fail_if, ◌>>=◌, ◌>>◌, parse_digits, show,
}

pub data PveError : Type 0 where
  invalid_path_segment : Text → PveError
  invalid_snapshot_name : Text → PveError

abbrev pub Check : Type 0
Check = Result PveError (Unit {0})

unfoldable pub is_reserved : ℕ → Bool
is_reserved ch = ch == b'/' || ch == 92 || ch == b'?' || ch == b'#' || ch == b'%'

unfoldable pub bad_segment : Text → Bool
bad_segment value =
    is_empty value
    || text_eq value (codes ".")
    || text_eq value (codes "..")
    || any is_reserved value

unfoldable pub validate_path_segment : Text → Text → Check
validate_path_segment value field = fail_if (bad_segment value) (invalid_path_segment field)

-- The path of `lxc_status_action`, behind the base URL.
unfoldable pub lxc_status_path : Text → ℕ → Text → Result PveError Text
lxc_status_path node vmid action = do
  validate_path_segment node (codes "node")
  validate_path_segment action (codes "action")
  ok (codes "/nodes/" ++ (node ++ (codes "/lxc/" ++ (show vmid ++ (codes "/status/" ++ action)))))

unfoldable pub validate_oci_reference : Text → Check
validate_oci_reference value =
    fail_if
      (is_empty value
        || any
            (λ ch.
              is_ascii_control ch
              || ch == b'?'
              || ch == b'#'
              || ch == b'%'
              || ch == b'&'
              || ch == 92)
            value)
      (invalid_path_segment (codes "OCI reference"))

unfoldable pub is_plain : ℕ → Bool
is_plain byte =
    is_alphanumeric byte
    || byte == b'-'
    || byte == b'.'
    || byte == b'_'
    || byte == b'~'
    || byte == b'/'
    || byte == b':'
    || byte == b'@'

-- `{:X}` of a number below sixteen.
unfoldable pub hex_digit : ℕ → ℕ
hex_digit n = if ltb n 10 then b'0' + n else b'A' + (n - 10)

unfoldable pub encode_byte : ℕ → Text
encode_byte byte =
    if is_plain byte then byte ∷ [] else b'%' ∷ hex_digit (byte / 16) ∷ hex_digit (byte % 16) ∷ []

unfoldable pub encode_query_component : Text → Text
encode_query_component [] = []
encode_query_component (byte ∷ value) = encode_byte byte ++ encode_query_component value

abbrev is_alphabetic : ℕ → Bool
is_alphabetic ch = is_lowercase ch || is_uppercase ch

-- The first character, and the others.
unfoldable pub valid_characters : Text → Bool
valid_characters [] = false
valid_characters (ch ∷ t) =
    is_alphabetic ch && all (λ c. is_alphanumeric c || c == b'_' || c == b'-') t

-- `value.len()` is the number of bytes; a name that passes is ASCII.
unfoldable pub validate_snapshot_name : Text → Check
validate_snapshot_name value =
    guard
      (leb 2 (length value)
        && not (is_empty value)
        && leb (length value) 40
        && not (text_eq value (codes "current"))
        && not (text_eq value (codes "vzdump"))
        && valid_characters value)
      (invalid_snapshot_name value)

unfoldable pub is_successful : Text → Option Text → Bool
is_successful status exitstatus = text_eq status (codes "stopped") && elim exitstatus [
  | none ↦ false
  | some e ↦ text_eq e (codes "OK") || starts_with (codes "WARNINGS:") e
]

-- The fields of a runtime interface that the choice of an address reads.
pub record LxcInterface : Type 0 where
  pub name : Option Text
  pub active : Option ℕ
  pub exists_ : Option ℕ
  pub inet : Option Text

-- `Ipv4Addr` as its four octets.
abbrev pub Ipv4 : Type 0
Ipv4 = ℕ × ℕ × ℕ × ℕ

-- A decimal octet: no more than three digits, no leading zero, 255 at most.
unfoldable pub parse_octet : Text → Option ℕ
parse_octet [] = none
parse_octet (d ∷ t) =
    if (d == b'0' && not (is_empty t)) || ltb 2 (length t) then none else parse_digits 255 0 (d ∷ t)

unfoldable pub octets : List Text → Option Ipv4
octets (a ∷ b ∷ c ∷ d ∷ []) = elim (parse_octet a) [
  | none ↦ none
  | some a ↦ elim (parse_octet b) [
    | none ↦ none
    | some b ↦ elim (parse_octet c) [
      | none ↦ none
      | some c ↦ elim (parse_octet d) [ none ↦ none | some d ↦ some (a, b, c, d) ]
    ]
  ]
]
octets _ = none

unfoldable pub parse_ipv4 : Text → Option Ipv4
parse_ipv4 t = octets (split b'.' t)

unfoldable pub is_unusable : Ipv4 → Bool
is_unusable (a, b, c, d) =
    (a == 0 && b == 0 && c == 0 && d == 0) || a == 127 || (a == 169 && b == 254)

abbrev pub is_zero : Option ℕ → Bool
is_zero none = false
is_zero (some n) = n == 0

abbrev pub first_part : List Text → Option Text
first_part [] = none
first_part (t ∷ ts) = some t

-- `is_eth0` is the negation of the first part of the key in the source.
abbrev pub is_eth0 : Option Text → Bool
is_eth0 none = false
is_eth0 (some n) = text_eq n (codes "eth0")

abbrev pub parsed_prefix : Option Text → Option Ipv4
parsed_prefix none = none
parsed_prefix (some t) = parse_ipv4 t

abbrev pub reachable_address : Option Ipv4 → Option Ipv4
reachable_address none = none
reachable_address (some a) = if is_unusable a then none else some a

unfoldable pub usable_address : Option Text → Option Ipv4
usable_address none = none
usable_address (some inet) = reachable_address (parsed_prefix (first_part (split b'/' inet)))

-- Whether the interface is not eth0, and its address, where it has one that is used.
unfoldable pub candidate : LxcInterface → Option (Bool × Ipv4)
candidate i =
    if is_zero i.active || is_zero i.exists_
    then none
    else elim (usable_address i.inet) [ none ↦ none | some a ↦ some (not (is_eth0 i.name), a) ]

-- The order of the keys: false is below true, and octets are compared from the left.
unfoldable pub before : ℕ → ℕ → Bool → Bool
before x y rest = ltb x y || (x == y && rest)

unfoldable pub octets_le : Ipv4 → Ipv4 → Bool
unfolding before
octets_le (a, b, c, d) (a', b', c', d') = before a a' (before b b' (before c c' (leb d d')))

unfoldable pub key_le : Bool × Ipv4 → Bool × Ipv4 → Bool
key_le (false, x) (false, y) = octets_le x y
key_le (false, x) (true, y) = true
key_le (true, x) (false, y) = false
key_le (true, x) (true, y) = octets_le x y

-- `min_by_key`: the first of the smallest.
unfoldable pub smaller : Bool × Ipv4 → Option (Bool × Ipv4) → Bool × Ipv4
smaller x none = x
smaller x (some y) = if key_le x y then x else y

unfoldable pub smallest : List LxcInterface → Option (Bool × Ipv4)
smallest [] = none
smallest (i ∷ is) =
    let rest = smallest is in elim (candidate i) [ none ↦ rest | some x ↦ some (smaller x rest) ]

unfoldable pub select_lxc_ipv4 : List LxcInterface → Option Ipv4
select_lxc_ipv4 is = elim (smallest is) [ none ↦ none | some x ↦ some (x.1) ]
