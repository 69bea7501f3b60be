-- ===== src/Agent/Settings.antt =====
-- internal/agent/agent.go: the configuration, its defaults and its validation.
pub mod Valid
use mule.Base.{◌*◌, Text, Bool, not, ◌||◌, ◌&&◌, List, ℤ, Result, ok, guard, ◌>>=◌, ◌>>◌, map_err}
use mule.Config.Strings.{is_empty}
use mule.Config.Normalize.{is_nil}
use mule.Config.Validate.{
  validate_client_id, validate_tcp_address, validate_listen_address, validate_udp_address,
}
use mule.Config.Services.{check_services}
use mule.Config.Limits.{second, or_default, not_positive}
use mule.Config.Validate

pub record Config : Type 0 where
  pub server : Text
  pub agent_id : Text
  pub secret_file : Text
  pub forward : List (Text × Text)
  pub reverse : List (Text × Text)
  pub connect_timeout : ℤ
  pub handshake_timeout : ℤ
  pub idle_timeout : ℤ
  pub max_connections : ℤ
  pub keep_alive : ℤ
  pub reconnect_delay : ℤ
  pub send_client_addr : Bool

-- One constructor for each message.
pub data Error : Type 0 where
  missing_names no_service not_positive_delay not_positive_duration not_positive_limit : Error
  config : Validate.Error → Error

unfoldable pub apply_defaults : Config → Config
apply_defaults cfg = record cfg {
  connect_timeout = or_default cfg.connect_timeout (10 * second);
  handshake_timeout = or_default cfg.handshake_timeout (10 * second);
  idle_timeout = or_default cfg.idle_timeout (300 * second);
  max_connections = or_default cfg.max_connections 100;
  keep_alive = or_default cfg.keep_alive (20 * second);
  reconnect_delay = or_default cfg.reconnect_delay second;
}

abbrev pub lacks_names : Config → Bool
lacks_names cfg = is_empty cfg.server || (is_empty cfg.agent_id || is_empty cfg.secret_file)

abbrev pub lacks_services : Config → Bool
lacks_services cfg = is_nil cfg.forward && is_nil cfg.reverse

abbrev pub bad_durations : Config → Bool
bad_durations cfg =
    not_positive cfg.connect_timeout
    || (not_positive cfg.handshake_timeout
        || (not_positive cfg.idle_timeout || not_positive cfg.keep_alive))

unfoldable pub validate_config : Config → Result Error (Unit {0})
validate_config cfg = do
  guard (not (lacks_names cfg)) missing_names
  map_err config (validate_udp_address cfg.server)
  map_err config (validate_client_id cfg.agent_id)
  guard (not (lacks_services cfg)) no_service
  guard (not (not_positive cfg.reconnect_delay)) not_positive_delay
  guard (not (bad_durations cfg)) not_positive_duration
  guard (not (not_positive cfg.max_connections)) not_positive_limit
  map_err config (check_services validate_listen_address cfg.forward)
  map_err config (check_services validate_tcp_address cfg.reverse)
