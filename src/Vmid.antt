-- ===== src/Vmid.antt =====
-- crates/pbox-core/src/vmid.rs: the pattern of the VMIDs that pbox may use, as `9xxx`, and the
-- choice of a free one. A text is its bytes. The set of used VMIDs is the list that it is made of.
pub mod Parsing
pub mod Display
pub mod Allocation
mod Tests
use pbox.Base.{
  ℕ, zero, suc, ◌+◌, ◌-◌, ◌*◌, ◌^◌, ◌≤◌, ◌<◌, ◌≡◌, Bool, not, ◌&&◌, ◌||◌, Option, none, some, List,
  ◌++◌, Text, is_digit, ltb, leb, ◌==◌, if◌then◌else◌, length, get_or, take, drop, replicate, any,
  position, Result, ok, err, ◌>>=◌, ◌>>◌, fail_if, ok_or, parse_unsigned, show, u64_max, u32_max,
  checked_pow, checked_mul, checked_add, try_u32,
}

pub record VmidPattern : Type 0 where
  pub prefix : ℕ
  pub wildcard_digits : ℕ
  pub first : ℕ
  pub last : ℕ

pub data VmidError : Type 0 where
  invalid_pattern overflow : VmidError
  exhausted : Text → VmidError

-- The tests of `parse`, in its order: the text's start, the two parts about `wildcard_start`, and a
-- prefix with a leading zero.
bad_start : Text → Bool
bad_start bytes =
    ltb (length bytes) 2 || not (is_digit (get_or bytes 0 0)) || get_or bytes 0 0 == b'0'

bad_parts : Text → ℕ → Bool
bad_parts bytes wildcard_start =
    wildcard_start == 0
    || any (λ b. not (b == b'x')) (drop wildcard_start bytes)
    || any (λ b. not (is_digit b)) (take wildcard_start bytes)

bad_prefix : Text → Bool
bad_prefix prefix_text = ltb 1 (length prefix_text) && get_or prefix_text 0 0 == b'0'

find_wildcard : Text → Option ℕ
find_wildcard bytes = position (λ b. b == b'x') bytes

-- The checks on the form of the pattern; the result is `wildcard_start`.
pub split_pattern : Text → Result VmidError ℕ
split_pattern bytes = do
  fail_if (bad_start bytes) invalid_pattern
  wildcard_start ← ok_or (find_wildcard bytes) invalid_pattern
  fail_if (bad_parts bytes wildcard_start) invalid_pattern
  fail_if (bad_prefix (take wildcard_start bytes)) invalid_pattern
  ok wildcard_start

-- The numbers of the pattern: its prefix, and the range that it spans.
pub range_of : Text → ℕ → Result VmidError VmidPattern
range_of prefix_text digits = do
  prefix ← ok_or (parse_unsigned u64_max prefix_text) overflow
  wildcard_digits ← ok_or (try_u32 digits) overflow
  factor ← ok_or (checked_pow 10 wildcard_digits) overflow
  first ← ok_or (checked_mul prefix factor) overflow
  last ← ok_or (checked_add first (factor - 1)) overflow
  ok (record { prefix = prefix; wildcard_digits = wildcard_digits; first = first; last = last })

pub parse : Text → Result VmidError VmidPattern
parse pattern = do
  wildcard_start ← split_pattern pattern
  range_of (take wildcard_start pattern) (length pattern - wildcard_start)

unfoldable pub contains : VmidPattern → ℕ → Bool
contains p vmid = leb p.first vmid && leb vmid p.last

pub display : VmidPattern → Text
display p = show p.prefix ++ replicate p.wildcard_digits b'x'

unfoldable pub is_used : List ℕ → ℕ → Bool
is_used used candidate = any (λ v. v == candidate) used

-- The loop of `allocate_lowest`, with the number of its rounds bounded; `none` is a loop that the
-- bound cut off.
allocate_from : ℕ → VmidPattern → List ℕ → ℕ → Option (Result VmidError ℕ)
allocate_from zero p used candidate = none
allocate_from (suc fuel) p used candidate =
    let rest = allocate_from fuel p used (candidate + 1) in
    if not (is_used used candidate)
    then some (ok candidate)
    else if candidate == p.last
    then some (err (exhausted (display p)))
    else rest

pub allocate_lowest : VmidPattern → List ℕ → Option (Result VmidError ℕ)
unfolding allocate_from
allocate_lowest p used = allocate_from (p.last - p.first + 1) p used p.first

-- What `parse` establishes of its result. The last field holds of every `u32`.
pub record IsValid (p : VmidPattern) : Type 0 where
  pub positive : 0 < p.prefix
  pub wild : 0 < p.wildcard_digits
  pub starts : p.first ≡ p.prefix * 10 ^ p.wildcard_digits
  pub ends : p.last ≡ p.first + (10 ^ p.wildcard_digits - 1)
  pub in_u64 : p.last ≤ u64_max
  pub in_u32 : p.wildcard_digits ≤ u32_max
