-- ===== src/Agent/Loading.antt =====
-- internal/agent/agent.go: `LoadConfig`.
use mule.Base.{Text, Bool, List, ℤ, Result, ok, ◌>>=◌}
use mule.Config.Loading.{LoadError, Sources, decode_yaml_strict, readable, optional_duration}
use mule.Agent.Settings.{Config, apply_defaults}

pub record FileConfig : Type 0 where
  pub server : Text
  pub agent_id : Text
  pub secret_file : Text
  pub forward : List (Text × Text)
  pub reverse : List (Text × Text)
  pub connect_timeout : Text
  pub handshake_timeout : Text
  pub idle_timeout : Text
  pub max_connections : ℤ
  pub keep_alive : Text
  pub reconnect_delay : Text
  pub send_client_addr : Bool

-- With the durations parsed.
abbrev pub config_of : FileConfig → (connect handshake idle keep_alive reconnect : ℤ) → Config
config_of fc connect_timeout handshake_timeout idle_timeout keep_alive reconnect_delay = record {
  server = fc.server;
  agent_id = fc.agent_id;
  secret_file = fc.secret_file;
  forward = fc.forward;
  reverse = fc.reverse;
  connect_timeout = connect_timeout;
  handshake_timeout = handshake_timeout;
  idle_timeout = idle_timeout;
  max_connections = fc.max_connections;
  keep_alive = keep_alive;
  reconnect_delay = reconnect_delay;
  send_client_addr = fc.send_client_addr;
}

unfoldable pub load_config : Sources FileConfig → Text → Result LoadError Config
unfolding decode_yaml_strict apply_defaults
load_config sources path = do
  text ← readable (sources.read_file path)
  fc ← decode_yaml_strict sources.decoder text
  connect_timeout ← optional_duration sources.parse_duration fc.connect_timeout
  handshake_timeout ← optional_duration sources.parse_duration fc.handshake_timeout
  idle_timeout ← optional_duration sources.parse_duration fc.idle_timeout
  keep_alive ← optional_duration sources.parse_duration fc.keep_alive
  reconnect_delay ← optional_duration sources.parse_duration fc.reconnect_delay
  ok (
      apply_defaults
        (config_of fc connect_timeout handshake_timeout idle_timeout keep_alive reconnect_delay))
