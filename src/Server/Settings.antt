-- ===== src/Server/Settings.antt =====
-- internal/server/server.go: the configuration, its defaults and its validation. Durations are in
-- nanoseconds.
pub mod Valid
pub mod Defaults
use mule.Base.{
  ℕ, ◌*◌, Text, Bool, not, ◌||◌, [], ◌∷◌, List, if◌then◌else◌, ℤ, pos, leb_ℤ, eq_ℤ, Result, ok,
  guard, ◌>>=◌, ◌>>◌, map_err, has_text,
}
use mule.Config.Strings.{is_empty}
use mule.Config.Normalize.{is_nil}
use mule.Config.Validate.{
  validate_client_id, validate_tcp_address, validate_listen_address, validate_udp_address,
}
use mule.Config.Services.{check_services}
use mule.Config.Limits.{second, or_default, not_positive}
use mule.Config.Validate

pub record AgentConfig : Type 0 where
  pub id : Text
  pub secret_file : Text
  pub forward : List (Text × Text)
  pub reverse : List (Text × Text)

pub record Config : Type 0 where
  pub listen_udp : Text
  pub agents : List AgentConfig
  pub handshake_timeout : ℤ
  pub idle_timeout : ℤ
  pub dial_timeout : ℤ
  pub max_streams : ℤ
  pub max_pending_dials : ℤ
  pub keep_alive : ℤ

-- One constructor for each message, with the text that it quotes.
pub data Error : Type 0 where
  listen_udp_required no_agent not_positive_duration not_positive_limit : Error
  duplicate_agent : Text → Error
  config : Validate.Error → Error

unfoldable pub apply_defaults : Config → Config
apply_defaults cfg = record cfg {
  handshake_timeout = or_default cfg.handshake_timeout (10 * second);
  idle_timeout = or_default cfg.idle_timeout (300 * second);
  dial_timeout = or_default cfg.dial_timeout (10 * second);
  max_streams = or_default cfg.max_streams 100;
  max_pending_dials = or_default cfg.max_pending_dials 20;
  keep_alive = or_default cfg.keep_alive (20 * second);
}

abbrev pub bad_durations : Config → Bool
bad_durations cfg =
    not_positive cfg.handshake_timeout
    || (not_positive cfg.idle_timeout
        || (not_positive cfg.dial_timeout || not_positive cfg.keep_alive))

abbrev pub bad_limits : Config → Bool
bad_limits cfg = not_positive cfg.max_streams || not_positive cfg.max_pending_dials

-- `seen` holds the ids of the agents before.
unfoldable pub check_agents : List Text → List AgentConfig → Result Error (Unit {0})
check_agents seen [] = ok tt
check_agents seen (agent ∷ rest) = do
  map_err config (validate_client_id agent.id)
  guard (not (has_text agent.id seen)) (duplicate_agent agent.id)
  map_err config (check_services validate_tcp_address agent.forward)
  map_err config (check_services validate_listen_address agent.reverse)
  check_agents (agent.id ∷ seen) rest

unfoldable pub validate_config : Config → Result Error (Unit {0})
validate_config cfg = do
  guard (not (is_empty cfg.listen_udp)) listen_udp_required
  map_err config (validate_udp_address cfg.listen_udp)
  guard (not (is_nil cfg.agents)) no_agent
  guard (not (bad_durations cfg)) not_positive_duration
  guard (not (bad_limits cfg)) not_positive_limit
  check_agents [] cfg.agents
