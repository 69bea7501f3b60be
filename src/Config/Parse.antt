-- ===== src/Config/Parse.antt =====
-- `splitMapping` and the `Parse` functions.
pub mod Mappings
use mule.Base.{Text, ◌||◌, Option, none, some, Result, ok, err, ◌>>=◌, ◌>>◌, if◌then◌else◌}
use mule.Config.Strings.{cut, is_empty}
use mule.Config.Validate.{
  Error, bad_mapping, bad_client_route, validate_route_id, validate_client_id, validate_tcp_address,
  validate_listen_address,
}

pub record RouteListen : Type 0 where
  pub route : Text
  pub address : Text

pub record Client : Type 0 where
  pub id : Text
  pub secret_file : Text

-- `if !ok || left == "" || right == "" { return err }`.
abbrev pub both_parts : Error → Option (Text × Text) → Result Error (Text × Text)
both_parts e none = err e
both_parts e (some (left, right)) =
    if is_empty left || is_empty right then err e else ok (left, right)

unfoldable pub split_mapping : Text → Result Error (Text × Text)
unfolding cut
split_mapping v = both_parts (bad_mapping v) (cut b'=' v)

unfoldable pub parse_route_listen : Text → Result Error RouteListen
unfolding split_mapping validate_route_id validate_listen_address
parse_route_listen v = do
  (route, address) ← split_mapping v
  validate_route_id route
  validate_listen_address address
  ok (record { route = route; address = address })

unfoldable pub parse_route_target : Text → Result Error (Text × Text)
unfolding split_mapping validate_route_id validate_tcp_address
parse_route_target v = do
  (route, target) ← split_mapping v
  validate_route_id route
  validate_tcp_address target
  ok (route, target)

unfoldable pub parse_client : Text → Result Error Client
unfolding split_mapping validate_client_id
parse_client v = do
  (id, path) ← split_mapping v
  validate_client_id id
  ok (record { id = id; secret_file = path })

unfoldable pub parse_client_route_target : Text → Result Error (Text × Text × Text)
unfolding split_mapping cut validate_client_id validate_route_id validate_tcp_address
parse_client_route_target v = do
  (left, target) ← split_mapping v
  (client_id, route) ← both_parts (bad_client_route v) (cut b':' left)
  validate_client_id client_id
  validate_route_id route
  validate_tcp_address target
  ok (client_id, route, target)
