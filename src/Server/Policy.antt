-- ===== src/Server/Policy.antt =====
-- internal/server/server.go: what the configuration lets an agent ask for.
use mule.Base.{
  Text, Bool, false, not, [], ◌∷◌, List, Option, none, some, if◌then◌else◌, lookup, text_eq,
}
use mule.Config.Normalize.{is_none}
use mule.Server.Settings.{AgentConfig, Config}

-- The loop of both functions: the first agent of that id.
unfoldable pub find_agent : Text → List AgentConfig → Option AgentConfig
find_agent agent_id [] = none
find_agent agent_id (agent ∷ rest) =
    if text_eq agent.id agent_id then some agent else find_agent agent_id rest

abbrev pub target_of : Text → Option AgentConfig → Option Text
target_of service none = none
target_of service (some agent) = lookup service agent.forward

abbrev pub forward_target : Config → Text → Text → Option Text
forward_target cfg agent_id service = target_of service (find_agent agent_id cfg.agents)

abbrev pub allows : Text → Option AgentConfig → Bool
allows service none = false
allows service (some agent) = not (is_none (lookup service agent.reverse))

abbrev pub reverse_allowed : Config → Text → Text → Bool
reverse_allowed cfg agent_id service = allows service (find_agent agent_id cfg.agents)
