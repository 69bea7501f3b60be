-- ===== src/Server/Loading.antt =====
-- internal/server/server.go: `LoadConfig`.
pub mod Order
mod Runs
use mule.Base.{Text, [], ◌∷◌, List, ℤ, Result, ok, ◌>>=◌}
use mule.Config.Loading.{LoadError, Sources, decode_yaml_strict, readable, optional_duration}
use mule.Server.Settings.{AgentConfig, Config, apply_defaults}

pub record FileAgentConfig : Type 0 where
  pub secret_file : Text
  pub forward : List (Text × Text)
  pub reverse : List (Text × Text)

pub record FileConfig : Type 0 where
  pub listen_udp : Text
  pub agents : List (Text × FileAgentConfig)
  pub handshake_timeout : Text
  pub idle_timeout : Text
  pub dial_timeout : Text
  pub max_streams : ℤ
  pub max_pending_dials : ℤ
  pub keep_alive : Text

abbrev pub agent_of : Text × FileAgentConfig → AgentConfig
agent_of (id, agent) = record {
  id = id;
  secret_file = agent.secret_file;
  forward = agent.forward;
  reverse = agent.reverse;
}

-- The loop over the agents, in the order in which the range meets them.
abbrev pub agents_of : List (Text × FileAgentConfig) → List AgentConfig
agents_of [] = []
agents_of (entry ∷ rest) = agent_of entry ∷ agents_of rest

-- With the durations parsed.
abbrev pub config_of : FileConfig → (handshake idle dial keep_alive : ℤ) → Config
config_of fc handshake_timeout idle_timeout dial_timeout keep_alive = record {
  listen_udp = fc.listen_udp;
  agents = agents_of fc.agents;
  handshake_timeout = handshake_timeout;
  idle_timeout = idle_timeout;
  dial_timeout = dial_timeout;
  max_streams = fc.max_streams;
  max_pending_dials = fc.max_pending_dials;
  keep_alive = keep_alive;
}

unfoldable pub load_config : Sources FileConfig → Text → Result LoadError Config
unfolding decode_yaml_strict apply_defaults
load_config sources path = do
  text ← readable (sources.read_file path)
  fc ← decode_yaml_strict sources.decoder text
  handshake_timeout ← optional_duration sources.parse_duration fc.handshake_timeout
  idle_timeout ← optional_duration sources.parse_duration fc.idle_timeout
  dial_timeout ← optional_duration sources.parse_duration fc.dial_timeout
  keep_alive ← optional_duration sources.parse_duration fc.keep_alive
  ok (apply_defaults (config_of fc handshake_timeout idle_timeout dial_timeout keep_alive))
