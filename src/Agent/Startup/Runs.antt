-- ===== src/Agent/Startup/Runs.antt =====
-- An agent with two forward services, on addresses that can and cannot be listened on.
use mule.Base.{Bool, ◌≡◌, ◌≤◌, not, refl, Text, false, [], ◌∷◌, codes, pos, text_eq}
use mule.Config.Strings.{cut, contains, atoi, unsigned, digits_value}
use mule.Config.Address.{validate_host_port, split_host_port, split_plain}
use mule.Config.Validate.{
  validate_route_id, validate_listen_address, validate_client_id, validate_udp_address,
}
use mule.Config.Services.{check_services}
use mule.Agent.Settings.{Config, apply_defaults, validate_config}
use mule.Agent.Startup.{
  opens, closes, starts_accepting, closes_connection, not_listening, open_listeners, run,
}
use mule.Agent.Startup.Closing.{opened, closed, run_closes}

abbrev agent : Config
agent = record {
  server = codes "h:4400";
  agent_id = codes "gpu-1";
  secret_file = codes "s";
  forward = (codes "ssh", codes ":22") ∷ (codes "web", codes ":80") ∷ [];
  reverse = [];
  connect_timeout = pos 0;
  handshake_timeout = pos 0;
  idle_timeout = pos 0;
  max_connections = pos 0;
  keep_alive = pos 0;
  reconnect_delay = pos 0;
  send_client_addr = false;
}

abbrev web_taken : Text → Bool
web_taken address = not (text_eq address (codes ":80"))

run_closes_example :
    opened (codes ":22") (run web_taken agent).0 ≤ closed (codes ":22") (run web_taken agent).0
run_closes_example = run_closes web_taken agent (codes ":22")

fails_on_web : run web_taken agent ≡ (
  opens (codes ":22")
      ∷ starts_accepting (codes "ssh")
      ∷ closes (codes ":22")
      ∷ closes_connection
      ∷ [],
  not_listening (codes ":80"),
)
unfolding run open_listeners apply_defaults validate_config check_services validate_client_id
    validate_route_id validate_udp_address validate_listen_address validate_host_port
    split_host_port split_plain cut contains atoi unsigned digits_value
fails_on_web = refl
