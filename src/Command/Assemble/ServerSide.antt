-- ===== src/Command/Assemble/ServerSide.antt =====
-- cmd/mule/main.go: `runServer`, up to `server.New`.
use mule.Base.{
  ◌*◌, Text, Bool, true, false, [], ◌∷◌, ◌++◌, List, if◌then◌else◌, codes, pos, Result, ok, ◌>>=◌,
  ◌>>◌, map_err,
}
use mule.Config.Strings.{is_empty}
use mule.Config.Normalize.{Common}
use mule.Config.Limits.{second}
use mule.Command.{parse_agent, add_server_mapping, validate_common}
use mule.Command.Flags.{
  Kind, text_flag, int_flag, duration_flag, Assignments, parse_flags, value_of, values_of,
  reject_flags_with_config,
}
use mule.Command.Assemble.{
  Failure, flags, mapping, load, World, common_kinds, duration_of, int_of, common_of,
}
use mule.Server.Settings as ServerSettings
use mule.Server.Loading as ServerLoading

abbrev pub server_kinds : List (Text × Kind)
server_kinds =
    (codes "config", text_flag)
    ∷ (codes "listen-udp", text_flag)
    ∷ (codes "agent", text_flag)
    ∷ (codes "forward", text_flag)
    ∷ (codes "reverse", text_flag)
    ∷ (codes "dial-timeout", duration_flag)
    ∷ (codes "handshake-timeout", duration_flag)
    ∷ (codes "idle-timeout", duration_flag)
    ∷ (codes "max-streams", int_flag)
    ∷ (codes "max-pending-dials", int_flag)
    ∷ (codes "keepalive", duration_flag)
    ∷ common_kinds

-- The flags that a configuration file owns.
abbrev pub server_owned : List Text
server_owned =
    codes "agent"
    ∷ codes "dial-timeout"
    ∷ codes "forward"
    ∷ codes "handshake-timeout"
    ∷ codes "idle-timeout"
    ∷ codes "keepalive"
    ∷ codes "listen-udp"
    ∷ codes "max-pending-dials"
    ∷ codes "max-streams"
    ∷ codes "reverse"
    ∷ []

unfoldable pub parse_agents :
    List Text → List ServerSettings.AgentConfig → Result Failure (List ServerSettings.AgentConfig)
unfolding parse_agent
parse_agents [] agents = ok agents
parse_agents (raw ∷ raws) agents = do
  agent ← map_err mapping (parse_agent raw)
  parse_agents raws (agents ++ agent ∷ [])

unfoldable pub add_mappings :
    List Text
    → Bool
    → List ServerSettings.AgentConfig
    → Result Failure (List ServerSettings.AgentConfig)
unfolding add_server_mapping
add_mappings [] forward agents = ok agents
add_mappings (raw ∷ raws) forward agents = do
  added ← map_err mapping (add_server_mapping agents raw forward)
  add_mappings raws forward added

-- The branch of `runServer` without a configuration file.
unfoldable pub server_from_flags : World → Assignments → Result Failure ServerSettings.Config
unfolding parse_agents add_mappings ServerSettings.apply_defaults
server_from_flags w set = do
  agents ← parse_agents (values_of (codes "agent") set) []
  with_forwards ← add_mappings (values_of (codes "forward") set) true agents
  with_reverses ← add_mappings (values_of (codes "reverse") set) false with_forwards
  ok (
      ServerSettings.apply_defaults (record {
        listen_udp = value_of (codes "listen-udp") [] set;
        agents = with_reverses;
        handshake_timeout = duration_of w (codes "handshake-timeout") (pos (10 * second)) set;
        idle_timeout = duration_of w (codes "idle-timeout") (pos (300 * second)) set;
        dial_timeout = duration_of w (codes "dial-timeout") (pos (10 * second)) set;
        max_streams = int_of w (codes "max-streams") (pos 100) set;
        max_pending_dials = int_of w (codes "max-pending-dials") (pos 20) set;
        keep_alive = duration_of w (codes "keepalive") (pos (20 * second)) set;
      }))

unfoldable pub server_config : World → Text → Assignments → Result Failure ServerSettings.Config
unfolding ServerLoading.load_config server_from_flags
server_config w path set =
    if is_empty path
    then server_from_flags w set
    else map_err load (ServerLoading.load_config w.server_sources path)

-- `runServer` up to `server.New`.
unfoldable pub server_ready : World → List Text → Result Failure (ServerSettings.Config × Common)
unfolding parse_flags reject_flags_with_config server_config validate_common
server_ready w args = do
  set ← map_err flags (parse_flags w.values server_kinds args)
  map_err flags (reject_flags_with_config set (value_of (codes "config") [] set) server_owned)
  cfg ← server_config w (value_of (codes "config") [] set) set
  map_err mapping (validate_common (common_of w set))
  ok (cfg, common_of w set)
