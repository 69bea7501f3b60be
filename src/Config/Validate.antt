-- ===== src/Config/Validate.antt =====
-- The error values of the package, and its `Validate` functions.
pub mod Accepting
use mule.Base.{ℕ, Text, Bool, true, false, ◌||◌, Result, ok, err, guard, ◌==◌, codes, text_eq}
use mule.Config.Strings.{is_alnum, is_empty, class_match}
use mule.Config.Address.{HostPortError, validate_host_port}

-- One constructor for each message, with the text that it quotes.
pub data Error : Type 0 where
  invalid_route_id invalid_forward_id invalid_client_id : Text → Error
  invalid_address : Text → HostPortError → Error
  invalid_log_format invalid_log_level : Text → Error
  bad_mapping bad_client_route : Text → Error
  no_listen no_target no_client simple_routes_unavailable mixed_modes : Error
  duplicate_listen_route duplicate_route duplicate_client : Text → Error
  empty_secret_file unknown_client no_routes : Text → Error

-- `[A-Za-z0-9_.-]`, `[A-Za-z0-9_.:-]` and `[A-Za-z0-9-]`.
abbrev pub is_route_char : ℕ → Bool
is_route_char c = is_alnum c || (c == b'_' || (c == b'.' || c == b'-'))

abbrev pub is_forward_char : ℕ → Bool
is_forward_char c = is_alnum c || (c == b'_' || (c == b'.' || (c == b':' || c == b'-')))

abbrev pub is_client_char : ℕ → Bool
is_client_char c = is_alnum c || c == b'-'

abbrev pub route_id_pattern : Text → Bool
route_id_pattern = class_match is_route_char 64

abbrev pub forward_id_pattern : Text → Bool
forward_id_pattern = class_match is_forward_char 128

abbrev pub client_id_pattern : Text → Bool
client_id_pattern = class_match is_client_char 63

unfoldable pub validate_route_id : Text → Result Error (Unit {0})
validate_route_id route = guard (route_id_pattern route) (invalid_route_id route)

unfoldable pub validate_forward_id : Text → Result Error (Unit {0})
validate_forward_id id = guard (is_empty id || forward_id_pattern id) (invalid_forward_id id)

unfoldable pub validate_client_id : Text → Result Error (Unit {0})
validate_client_id id = guard (client_id_pattern id) (invalid_client_id id)

abbrev pub with_address : Text → Result HostPortError (Unit {0}) → Result Error (Unit {0})
with_address addr (ok u) = ok u
with_address addr (err e) = err (invalid_address addr e)

unfoldable pub validate_tcp_address : Text → Result Error (Unit {0})
unfolding validate_host_port
validate_tcp_address addr = with_address addr (validate_host_port addr false)

unfoldable pub validate_listen_address : Text → Result Error (Unit {0})
unfolding validate_host_port
validate_listen_address addr = with_address addr (validate_host_port addr true)

unfoldable pub validate_udp_address : Text → Result Error (Unit {0})
unfolding validate_host_port
validate_udp_address addr = with_address addr (validate_host_port addr true)

unfoldable pub validate_log_format : Text → Result Error (Unit {0})
validate_log_format v =
    guard (text_eq v (codes "text") || text_eq v (codes "json")) (invalid_log_format v)

unfoldable pub validate_log_level : Text → Result Error (Unit {0})
validate_log_level v =
    guard
      (text_eq v (codes "debug")
        || (text_eq v (codes "info") || (text_eq v (codes "warn") || text_eq v (codes "error"))))
      (invalid_log_level v)
