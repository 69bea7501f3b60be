-- ===== src/Command.antt =====
-- cmd/mule/main.go: what the flags of the command line are parsed into.
pub mod Services
pub mod Flags
pub mod Assemble
pub mod Checks
pub mod Probe
pub mod Dispatch
pub mod Exposure
mod Runs
use mule.Base.{
  ℕ, Text, Bool, true, false, not, ◌||◌, [], ◌∷◌, List, Option, none, some, if◌then◌else◌, codes,
  text_eq, lookup, insert, Result, ok, err, guard, ◌>>=◌, ◌>>◌, map_err, ℤ,
}
use mule.Protocol.Frame.{direction_forward, direction_reverse}
use mule.Config.Strings.{cut, contains, is_empty}
use mule.Config.Normalize.{Common, is_none}
use mule.Config.Validate.{
  validate_route_id, validate_client_id, validate_tcp_address, validate_listen_address,
  validate_log_format, validate_log_level,
}
use mule.Config.Validate
use mule.Config.Limits.{not_positive}
use mule.Server.Settings.{AgentConfig}

-- One constructor for each message, with the text that it quotes.
pub data Error : Type 0 where
  bad_agent bad_mapping agent_needed bad_service_mapping unknown_agent : Text → Error
  duplicate_forward duplicate_reverse : Text → Text → Error
  bad_direction bad_shutdown_timeout : Error
  config : Validate.Error → Error

-- `if !ok || left == "" || right == "" { return err }`.
abbrev pub two_parts : Error → Option (Text × Text) → Result Error (Text × Text)
two_parts e none = err e
two_parts e (some (left, right)) =
    if is_empty left || is_empty right then err e else ok (left, right)

unfoldable pub parse_agent : Text → Result Error AgentConfig
unfolding cut
parse_agent raw = do
  (id, path) ← two_parts (bad_agent raw) (cut b'=' raw)
  map_err config (validate_client_id id)
  ok (record { id = id; secret_file = path; forward = []; reverse = [] })

-- Without an agent in the mapping, the only one.
abbrev pub only_agent : Text → Text → List AgentConfig → Result Error (Text × Text)
only_agent raw service (agent ∷ []) = ok (agent.id, service)
only_agent raw service agents = err (agent_needed raw)

unfoldable pub agent_and_service : List AgentConfig → Text → Text → Result Error (Text × Text)
unfolding cut contains
agent_and_service agents raw left =
    if contains b':' left
    then two_parts (bad_mapping raw) (cut b':' left)
    else only_agent raw left agents

abbrev pub add_forward : AgentConfig → Text → Text → Result Error AgentConfig
add_forward agent service addr = do
  map_err config (validate_tcp_address addr)
  guard (is_none (lookup service agent.forward)) (duplicate_forward service agent.id)
  ok (record agent { forward = insert service addr agent.forward })

abbrev pub add_reverse : AgentConfig → Text → Text → Result Error AgentConfig
add_reverse agent service addr = do
  map_err config (validate_listen_address addr)
  guard (is_none (lookup service agent.reverse)) (duplicate_reverse service agent.id)
  ok (record agent { reverse = insert service addr agent.reverse })

abbrev pub add_service : Bool → AgentConfig → Text → Text → Result Error AgentConfig
add_service true = add_forward
add_service false = add_reverse

-- The loop over the agents: the first of that id, which it changes in place.
unfoldable pub add_to_agent :
    List AgentConfig → Text → Text → Text → Bool → Result Error (List AgentConfig)
add_to_agent [] agent_id service addr forward = err (unknown_agent agent_id)
add_to_agent (agent ∷ rest) agent_id service addr forward =
    let others = add_to_agent rest agent_id service addr forward in
    if text_eq agent.id agent_id
    then (add_service forward agent service addr >>= λ changed. ok (changed ∷ rest))
    else (others >>= λ changed. ok (agent ∷ changed))

unfoldable pub add_server_mapping : List AgentConfig → Text → Bool → Result Error (List AgentConfig)
unfolding cut agent_and_service add_to_agent
add_server_mapping agents raw forward = do
  (left, addr) ← two_parts (bad_mapping raw) (cut b'=' raw)
  (agent_id, service) ← agent_and_service agents raw left
  map_err config (validate_route_id service)
  add_to_agent agents agent_id service addr forward

unfoldable pub parse_service_mapping : Text → Result Error (Text × Text)
unfolding cut
parse_service_mapping raw = do
  (service, addr) ← two_parts (bad_service_mapping raw) (cut b'=' raw)
  map_err config (validate_route_id service)
  ok (service, addr)

abbrev pub parse_direction : Text → Result Error ℕ
parse_direction raw =
    if text_eq raw (codes "forward")
    then ok direction_forward
    else if text_eq raw (codes "reverse")
    then ok direction_reverse
    else err bad_direction

unfoldable pub validate_common : Common → Result Error (Unit {0})
validate_common cfg = do
  map_err config (validate_log_format cfg.log_format)
  map_err config (validate_log_level cfg.log_level)
  if is_empty cfg.metrics_listen
      then ok tt
      else map_err config (validate_listen_address cfg.metrics_listen)
  guard (not (not_positive cfg.shutdown_timeout)) bad_shutdown_timeout
