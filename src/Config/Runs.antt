-- ===== src/Config/Runs.antt =====
-- Concrete configurations, and the theorems at them.
use mule.Base.{
  ◌≡◌, refl, inl, inr, Text, true, false, [], ◌∷◌, List, ok, err, arith, codes, some, none, pos,
  negsuc, has_text,
}
use mule.Config.Strings.{atoi, contains, cut}
use mule.Config.Address.{
  split_host_port, split_plain, split_bracketed, validate_host_port, too_many_colons, host_required,
  port_out_of_range, not_an_address,
}
use mule.Config.Address.Ports.{Accepted}
use mule.Config.Validate.{validate_route_id, validate_listen_address, duplicate_listen_route}
use mule.Config.Validate.Accepting.{validate_listen_address_iff}
use mule.Config.Parse.{RouteListen, Client}
use mule.Config.Normalize.{
  Common, Forward, Exit, default_route, check_listens, normalize_forward_listens,
}

abbrev web : RouteListen
web = record { route = codes "web"; address = codes ":3000" }

-- The addresses of config_test.go.
ipv6_address : split_host_port (codes "[2001:db8::1]:4400") ≡ ok (codes "2001:db8::1", codes "4400")
unfolding split_host_port split_bracketed contains cut
ipv6_address = refl

bare_ipv6 :
    validate_host_port (codes "2001:db8::1:4400") false ≡ err (not_an_address too_many_colons)
unfolding validate_host_port split_host_port split_plain contains cut atoi
bare_ipv6 = refl

no_host : validate_host_port (codes ":3000") false ≡ err host_required
unfolding validate_host_port split_host_port split_plain contains cut atoi
no_host = refl

port_zero : validate_host_port (codes "127.0.0.1:0") false ≡ err port_out_of_range
unfolding validate_host_port split_host_port split_plain contains cut atoi
port_zero = refl

port_not_a_number : validate_host_port (codes "127.0.0.1:notaport") false ≡ err port_out_of_range
unfolding validate_host_port split_host_port split_plain contains cut atoi
port_not_a_number = refl

port_too_high : validate_host_port (codes "127.0.0.1:65536") false ≡ err port_out_of_range
unfolding validate_host_port split_host_port split_plain contains cut atoi
port_too_high = refl

negative_number : atoi (codes "-20") ≡ some (negsuc 19)
unfolding atoi
negative_number = refl

past_int : atoi (codes "9223372036854775808") ≡ none
unfolding atoi
past_int = refl

any_host : validate_host_port (codes ":3000") true ≡ ok tt
unfolding validate_host_port split_host_port split_plain contains cut atoi
any_host = refl

any_host-Accepted : Accepted (codes ":3000") true
any_host-Accepted = record {
  host = [];
  port = codes "3000";
  number = 3000;
  form = inl (refl, unfold contains in refl, unfold contains in refl);
  hosted = inl refl;
  decimal = unfold atoi in refl;
  lowest = omega arith;
  highest = omega arith;
}

local-Accepted : Accepted (codes "h:80") false
local-Accepted = record {
  host = codes "h";
  port = codes "80";
  number = 80;
  form = inl (refl, unfold contains in refl, unfold contains in refl);
  hosted = inr (λ e. cc);
  decimal = unfold atoi in refl;
  lowest = omega arith;
  highest = omega arith;
}

abbrev client_a : Client
client_a = record { id = codes "a"; secret_file = codes "k" }

abbrev no_common : Common
no_common = record {
  secret_file = [];
  log_format = [];
  log_level = [];
  metrics_listen = [];
  shutdown_timeout = pos 0;
}

abbrev two_listens : Text → Forward
two_listens route = record {
  common = no_common;
  listen_tcp = codes ":3000";
  listens = record { route = route; address = codes ":3000" } ∷ [];
  peer = [];
  forward_id = [];
  send_client_addr = false;
  connect_timeout = pos 0;
  handshake_timeout = pos 0;
  idle_timeout = pos 0;
  max_connections = pos 0;
  keep_alive = pos 0;
}

-- As in config_test.go.
default_twice :
    normalize_forward_listens (two_listens default_route)
    ≡ err (duplicate_listen_route default_route)
unfolding normalize_forward_listens check_listens has_text validate_route_id validate_listen_address
default_twice = rw ((validate_listen_address_iff (codes ":3000")).1 any_host-Accepted)

abbrev exit_of : Text → List (Text × Text) → List Client → List (Text × List (Text × Text)) → Exit
exit_of target routes clients client_routes = record {
  common = no_common;
  listen_udp = [];
  target = target;
  routes = routes;
  clients = clients;
  client_routes = client_routes;
  dial_timeout = pos 0;
  handshake_timeout = pos 0;
  idle_timeout = pos 0;
  max_streams = pos 0;
  max_pending_dials = pos 0;
  keep_alive = pos 0;
}

abbrev web_route : List (Text × Text)
web_route = (codes "web", codes "h:80") ∷ []

abbrev one_client : Exit
one_client = exit_of [] [] (client_a ∷ []) ((codes "a", web_route) ∷ [])
