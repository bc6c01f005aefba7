-- ===== src/Config/Checks.antt =====
-- crates/pbox-core/src/config.rs: what is checked of a value, and how booleans and numbers are read.
-- The crate url is the section parameter `u : UrlCrate`.
use pbox.Base.{
  to_ascii_lowercase, ℕ, Bool, true, false, not, ◌&&◌, ◌||◌, none, some, [], ◌∷◌, Text, codes,
  text_eq, is_empty, ◌+◌, ◌==◌, if◌then◌else◌, take, drop, find, trim, Result, ok, err, ◌>>=◌, ◌>>◌,
  guard, fail_if, ok_or, parse_unsigned, u64_max,
}
use pbox.Relay.Route.{UrlCrate, is_some}
use pbox.Vmid.{VmidError}
use pbox.Config.Durations.{DurationError}

-- The texts that an error carries as its reason.
pub data Reason : Type 0 where
  empty_value not_an_origin beyond_origin surrounding_whitespace not_https no_host
        more_than_address :
      Reason
  not_a_policy not_a_bool not_a_port not_positive not_unsigned : Reason
  query_or_fragment external_transport other_transport embedded_credentials : Reason
  bad_duration : DurationError → Reason
  bad_pattern : VmidError → Reason

pub data ConfigError : Type 0 where
  unknown_key : Text → ConfigError
  invalid_value : Text → Reason → ConfigError

abbrev pub Check : Type 0
Check = Result ConfigError (Unit {0})

-- `value.trim().is_empty()`.
unfoldable pub blank : Text → Bool
blank value = is_empty (trim value)

unfoldable pub validate_non_empty : Text → Text → Check
validate_non_empty key value = fail_if (blank value) (invalid_value key empty_value)

unfoldable pub validate_positive : Text → ℕ → Check
validate_positive key value = fail_if (value == 0) (invalid_value key not_positive)

unfoldable pub is_policy : Text → Bool
is_policy value =
    text_eq value (codes "auto") || text_eq value (codes "always") || text_eq value (codes "never")

unfoldable pub validate_snapshot_policy : Text → Text → Check
validate_snapshot_policy key value = guard (is_policy value) (invalid_value key not_a_policy)

unfoldable pub parse_bool : Text → Text → Result ConfigError Bool
parse_bool key value =
    if text_eq value (codes "true")
    then ok true
    else if text_eq value (codes "false")
    then ok false
    else err (invalid_value key not_a_bool)

unfoldable pub parse_port : Text → Text → Result ConfigError ℕ
parse_port key value = do
  port ← ok_or (parse_unsigned 65535 value) (invalid_value key not_a_port)
  fail_if (port == 0) (invalid_value key not_a_port)
  ok port

unfoldable pub parse_u64 : Text → Text → Result ConfigError ℕ
parse_u64 key value = ok_or (parse_unsigned u64_max value) (invalid_value key not_unsigned)

unfoldable pub parse_positive : Text → Text → Result ConfigError ℕ
unfolding parse_u64 validate_positive
parse_positive key value = do parsed ← parse_u64 key value; validate_positive key parsed; ok parsed

unfoldable pub contains : Text → Text → Bool
contains needle value = is_some (find needle value)

-- The first of the parts between slashes and backslashes.
unfoldable pub authority_of : Text → Text
authority_of [] = []
authority_of (ch ∷ t) =
    let rest = authority_of t in if ch == b'/' || ch == 92 then [] else ch ∷ rest

unfoldable pub is_transport : Text → Bool
is_transport scheme =
    text_eq scheme (codes "https") || text_eq scheme (codes "ssh") || text_eq scheme (codes "file")

unfoldable pub check_url : Text → Text → Text → Check
check_url key scheme authority = do
  guard (is_transport scheme) (invalid_value key other_transport)
  fail_if (contains (codes "@") authority) (invalid_value key embedded_credentials)
  fail_if (not (text_eq scheme (codes "file")) && is_empty authority) (invalid_value key no_host)
  ok tt

unfoldable pub validate_repository_reference : Text → Text → Check
validate_repository_reference key value = do
  validate_non_empty key value
  fail_if (contains (codes "?") value || contains (codes "#") value)
      (invalid_value key query_or_fragment)
  fail_if (contains (codes "::") value) (invalid_value key external_transport)
  elim (find (codes "://") value) [
    | none ↦ ok tt
    | some at ↦
        check_url key (to_ascii_lowercase (take at value)) (authority_of (drop (at + 3) value))
  ]

module _ (u : UrlCrate) where
  unfoldable pub is_relay_scheme : Text → Bool
  is_relay_scheme scheme =
      text_eq scheme (codes "http")
      || text_eq scheme (codes "https")
      || text_eq scheme (codes "ws")
      || text_eq scheme (codes "wss")

  -- Whether a URL has a credential, a query or a fragment.
  unfoldable pub has_more : u.Url → Bool
  has_more url =
      not (is_empty (u.username url))
      || is_some (u.password url)
      || is_some (u.query url)
      || is_some (u.fragment url)

  unfoldable pub is_relay_origin : u.Url → Bool
  is_relay_origin url =
      is_relay_scheme (u.scheme url)
      && is_some (u.host_str url)
      && not (has_more url)
      && (is_empty (u.path url) || text_eq (u.path url) (codes "/"))

  unfoldable pub validate_relay_url : Text → Text → Check
  validate_relay_url key value = do
    url ← ok_or (u.parse value) (invalid_value key not_an_origin)
    guard (is_relay_origin url) (invalid_value key beyond_origin)
    ok tt

  unfoldable pub validate_pve_url : Text → Text → Check
  validate_pve_url key value = do
    guard (text_eq value (trim value)) (invalid_value key surrounding_whitespace)
    parsed ← ok_or (u.parse (trim value)) (invalid_value key not_https)
    guard (text_eq (u.scheme parsed) (codes "https") && is_some (u.host_str parsed))
        (invalid_value key no_host)
    fail_if (has_more parsed) (invalid_value key more_than_address)
    ok tt
