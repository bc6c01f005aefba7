-- ===== src/Relay/Route/Tests.antt =====
-- Runs of the route checks on concrete ids and routes.
use pbox.Base.{
  Text, ◌≡◌, refl, true, false, codes, text_eq, starts_with, split_once, ◌++◌, [], ok, some, none,
}
use pbox.Id.{PboxId, in_alphabet}
use pbox.Id
use pbox.Relay.Route.{
  valid_box_id, valid_route, UrlCrate, websocket_url, is_role, websocket_scheme, beyond_origin,
}

route_plain : valid_route (codes "pbx_12345678") ≡ true
unfolding valid_route valid_box_id split_once starts_with
route_plain = refl

route_pair_ok : valid_route (codes "pbx_12345678~pbx_abcdefgh") ≡ true
unfolding valid_route valid_box_id split_once starts_with
route_pair_ok = refl

route_three : valid_route (codes "pbx_12345678~pbx_abcdefgh~pbx_87654321") ≡ false
unfolding valid_route valid_box_id split_once starts_with
route_three = refl

parsed : Id.parse (codes "pbx_t3yzd9y3") ≡ ok (record { value = codes "pbx_t3yzd9y3" })
unfolding Id.parse starts_with Id.check_characters in_alphabet
parsed = refl

-- A URL as its scheme and the path that was set.
abbrev urls : UrlCrate
urls = record {
  Url = Text × Text;
  parse = λ t. elim (split_once b':' t) [ none ↦ none | some (s, r) ↦ some (s, []) ];
  scheme = λ u. u.0;
  host_str = λ u. some [];
  username = λ u. [];
  password = λ u. none;
  query = λ u. none;
  fragment = λ u. none;
  path = λ u. u.1;
  set_scheme = λ s u. some (s, u.1);
  set_path = λ p u. (u.0, p);
  to_string = λ u. u.0 ++ (codes "://host" ++ u.1);
}

url_secure :
    websocket_url urls (codes "https://host") (codes "agent") (codes "pbx_12345678")
    ≡ ok (codes "wss://host/v1/agent/pbx_12345678")
unfolding websocket_url is_role valid_route valid_box_id split_once starts_with text_eq
    websocket_scheme beyond_origin
url_secure = refl
