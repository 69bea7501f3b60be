-- ===== src/Command/Assemble/AgentSide.antt =====
-- cmd/mule/main.go: `runAgent`, up to `agent.New`.
use mule.Base.{
  ◌*◌, Text, [], ◌∷◌, List, if◌then◌else◌, codes, has_text, lookup, insert, pos, Result, ok, guard,
  ◌>>=◌, ◌>>◌, map_err,
}
use mule.Config.Strings.{is_empty}
use mule.Config.Normalize.{Common, is_none}
use mule.Config.Limits.{second}
use mule.Auth.Secret.{load_secret_file}
use mule.Command.{parse_service_mapping, validate_common}
use mule.Command.Flags.{
  Kind, text_flag, bool_flag, int_flag, duration_flag, Assignments, parse_flags, value_of,
  values_of, reject_flags_with_config,
}
use mule.Command.Assemble.{
  Failure, flags, mapping, load, secret, duplicate_forward, duplicate_reverse, World, common_kinds,
  duration_of, int_of, common_of, true_texts,
}
use mule.Agent.Settings as AgentSettings
use mule.Agent.Loading as AgentLoading

abbrev pub agent_kinds : List (Text × Kind)
agent_kinds =
    (codes "config", text_flag)
    ∷ (codes "server", text_flag)
    ∷ (codes "agent-id", text_flag)
    ∷ (codes "secret-file", text_flag)
    ∷ (codes "forward", text_flag)
    ∷ (codes "reverse", text_flag)
    ∷ (codes "send-client-addr", bool_flag)
    ∷ (codes "connect-timeout", duration_flag)
    ∷ (codes "handshake-timeout", duration_flag)
    ∷ (codes "idle-timeout", duration_flag)
    ∷ (codes "max-connections", int_flag)
    ∷ (codes "keepalive", duration_flag)
    ∷ (codes "reconnect-delay", duration_flag)
    ∷ common_kinds

abbrev pub agent_owned : List Text
agent_owned =
    codes "agent-id"
    ∷ codes "connect-timeout"
    ∷ codes "forward"
    ∷ codes "handshake-timeout"
    ∷ codes "idle-timeout"
    ∷ codes "keepalive"
    ∷ codes "max-connections"
    ∷ codes "reconnect-delay"
    ∷ codes "reverse"
    ∷ codes "secret-file"
    ∷ codes "send-client-addr"
    ∷ codes "server"
    ∷ []

-- The two loops over the mappings of an agent; no service may come twice.
unfoldable pub add_services :
    (Text → Failure) → List Text → List (Text × Text) → Result Failure (List (Text × Text))
unfolding parse_service_mapping lookup
add_services duplicate [] services = ok services
add_services duplicate (raw ∷ raws) services = do
  (service, addr) ← map_err mapping (parse_service_mapping raw)
  guard (is_none (lookup service services)) (duplicate service)
  add_services duplicate raws (insert service addr services)

unfoldable pub agent_from_flags : World → Assignments → Result Failure AgentSettings.Config
unfolding add_services AgentSettings.apply_defaults has_text
agent_from_flags w set = do
  forward ← add_services duplicate_forward (values_of (codes "forward") set) []
  reverse ← add_services duplicate_reverse (values_of (codes "reverse") set) []
  ok (
      AgentSettings.apply_defaults (record {
        server = value_of (codes "server") [] set;
        agent_id = value_of (codes "agent-id") [] set;
        secret_file = value_of (codes "secret-file") [] set;
        forward = forward;
        reverse = reverse;
        connect_timeout = duration_of w (codes "connect-timeout") (pos (10 * second)) set;
        handshake_timeout = duration_of w (codes "handshake-timeout") (pos (10 * second)) set;
        idle_timeout = duration_of w (codes "idle-timeout") (pos (300 * second)) set;
        max_connections = int_of w (codes "max-connections") (pos 100) set;
        keep_alive = duration_of w (codes "keepalive") (pos (20 * second)) set;
        reconnect_delay = duration_of w (codes "reconnect-delay") (pos second) set;
        send_client_addr =
            has_text (value_of (codes "send-client-addr") (codes "false") set) true_texts;
      }))

unfoldable pub agent_config : World → Text → Assignments → Result Failure AgentSettings.Config
unfolding AgentLoading.load_config agent_from_flags
agent_config w path set =
    if is_empty path
    then agent_from_flags w set
    else map_err load (AgentLoading.load_config w.agent_sources path)

-- `runAgent` up to `agent.New`, with the secret.
unfoldable pub agent_ready :
    World → List Text → Result Failure (AgentSettings.Config × Text × Common)
unfolding parse_flags reject_flags_with_config agent_config validate_common load_secret_file
agent_ready w args = do
  set ← map_err flags (parse_flags w.values agent_kinds args)
  map_err flags (reject_flags_with_config set (value_of (codes "config") [] set) agent_owned)
  cfg ← agent_config w (value_of (codes "config") [] set) set
  map_err mapping (validate_common (common_of w set))
  loaded ← map_err secret (load_secret_file w.os cfg.secret_file w.files)
  ok (cfg, loaded, common_of w set)
