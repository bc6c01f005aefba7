-- ===== src/Relay/Route.antt =====
-- crates/pbox-relay/src/lib.rs: box ids in routes, and the URL that the two ends connect to. A text
-- is its bytes. The crate url is the section parameter `u : UrlCrate`.
pub mod Laws
mod Tests
use pbox.Base.{
  ℕ, ◌≡◌, Bool, true, false, not, ◌&&◌, ◌||◌, Option, none, some, ◌++◌, Text, codes, text_eq,
  starts_with, split_once, is_digit, is_lowercase, is_empty, ◌==◌, if◌then◌else◌, length, drop, all,
  Result, ok, err, ◌>>=◌, ◌>>◌, fail_if, ok_or,
}

unfoldable pub valid_box_id : Text → Bool
valid_box_id value =
    starts_with (codes "pbx_") value
    && length value == 12
    && all (λ b. is_lowercase b || is_digit b) (drop 4 value)

unfoldable pub valid_route : Text → Bool
valid_route value = elim (split_once b'~' value) [
  | some (parent, child) ↦ valid_box_id parent && valid_box_id child
  | none ↦ valid_box_id value
]

-- What the code calls of the crate url.
pub record UrlCrate : Type 1 where
  pub Url : Type 0
  pub parse : Text → Option Url
  pub scheme : Url → Text
  pub host_str : Url → Option Text
  pub username : Url → Text
  pub password : Url → Option Text
  pub query : Url → Option Text
  pub fragment : Url → Option Text
  pub path : Url → Text
  pub set_scheme : Text → Url → Option Url
  pub set_path : Text → Url → Url
  pub to_string : Url → Text

pub data UrlError : Type 0 where
  invalid_role_or_id invalid_url unsupported_scheme not_an_origin invalid_scheme : UrlError

abbrev pub is_some {ℓ} : {A : Type ℓ} → Option A → Bool
is_some none = false
is_some (some a) = true

unfoldable pub is_role : Text → Bool
is_role role = text_eq role (codes "agent") || text_eq role (codes "client")

unfoldable pub websocket_scheme : Text → Option Text
websocket_scheme scheme =
    if text_eq scheme (codes "https") || text_eq scheme (codes "wss")
    then some (codes "wss")
    else if text_eq scheme (codes "http") || text_eq scheme (codes "ws")
    then some (codes "ws")
    else none

module _ (u : UrlCrate) where
  -- Whether a URL is more than an origin: it has no host, or a credential, path, query or fragment.
  unfoldable pub beyond_origin : u.Url → Bool
  beyond_origin url =
      not (is_some (u.host_str url))
      || not (is_empty (u.username url))
      || is_some (u.password url)
      || is_some (u.query url)
      || is_some (u.fragment url)
      || not (is_empty (u.path url) || text_eq (u.path url) (codes "/"))

  pub websocket_url : Text → Text → Text → Result UrlError Text
  websocket_url origin role box_id = do
    fail_if (not (is_role role) || not (valid_route box_id)) invalid_role_or_id
    url ← ok_or (u.parse origin) invalid_url
    scheme ← ok_or (websocket_scheme (u.scheme url)) unsupported_scheme
    fail_if (beyond_origin url) not_an_origin
    url' ← ok_or (u.set_scheme scheme url) invalid_scheme
    ok (u.to_string (u.set_path (codes "/v1/" ++ (role ++ (codes "/" ++ box_id))) url'))
