-- ===== src/Command/Assemble/Runs.antt =====
-- Command lines, in a world without files.
use mule.Base.{◌≡◌, refl, true, false, [], ◌∷◌, none, codes, lookup, insert, has_text, err}
use mule.Config.Strings.{cut, contains}
use mule.Config.Validate.{
  validate_route_id, validate_client_id, validate_log_format, validate_log_level,
}
use mule.Config.Loading.{Sources, at_end}
use mule.Auth.Secret.{load_secret_file, not_opened}
use mule.Command.{
  parse_agent, agent_and_service, add_to_agent, add_server_mapping, parse_service_mapping,
  validate_common, unknown_agent,
}
use mule.Command.Flags.{
  parse_flags, parse, reject_flags_with_config, mixed_with_config, positional_arguments,
}
use mule.Command.Assemble.{World, flags, mapping, secret, duplicate_forward}
use mule.Command.Assemble.ServerSide.{
  server_ready, server_config, server_from_flags, parse_agents, add_mappings,
}
use mule.Command.Assemble.AgentSide.{agent_ready, agent_config, agent_from_flags, add_services}

abbrev no_sources {ℓ} : {F : Type ℓ} → Sources F
no_sources = record {
  read_file = λ path. none;
  decoder = record { first = λ text. err text; second_of = λ text. at_end };
  parse_duration = λ s. none;
}

abbrev world : World
world = record {
  values = record { parse_duration = λ s. none; parse_int = λ s. none };
  server_sources = no_sources;
  agent_sources = no_sources;
  os = record {
    is_windows = false;
    random = λ n. none;
    may_create = λ path. false;
    umasked = λ mode. mode;
    short_write = λ text. none;
    closes = true;
    may_open = λ file. true;
    may_examine = λ file. true;
    may_read = λ file. true;
  };
  files = [];
}

mixed :
    server_ready world (codes "--config=c" ∷ codes "--agent" ∷ codes "gpu-1=key" ∷ [])
    ≡ err (flags (mixed_with_config (codes "agent" ∷ [])))
unfolding server_ready parse_flags parse reject_flags_with_config lookup cut has_text
mixed = refl

positional :
    agent_ready world (codes "--server=h:4400" ∷ codes "gpu-1" ∷ [])
    ≡ err (flags (positional_arguments (codes "gpu-1" ∷ [])))
unfolding agent_ready parse_flags parse lookup cut has_text
positional = refl

unknown :
    server_ready world (codes "--agent=gpu-1=key" ∷ codes "--forward=gpu-2:ssh=h:22" ∷ [])
    ≡ err (mapping (unknown_agent (codes "gpu-2")))
unfolding server_ready server_config server_from_flags parse_agents parse_agent add_mappings
    add_server_mapping agent_and_service add_to_agent parse_flags parse reject_flags_with_config
    lookup cut contains has_text validate_client_id validate_route_id
unknown = refl

duplicate :
    agent_ready world
      (codes "--forward" ∷ codes "ssh=:2222" ∷ codes "--forward" ∷ codes "ssh=:2223" ∷ [])
    ≡ err (duplicate_forward (codes "ssh"))
unfolding agent_ready agent_config agent_from_flags add_services parse_service_mapping parse_flags
    parse reject_flags_with_config lookup insert cut has_text validate_route_id
duplicate = refl

no_secret_file :
    agent_ready world (
      codes "--server=h:4400"
      ∷ codes "--agent-id=gpu-1"
      ∷ codes "--secret-file=key"
      ∷ codes "--forward=ssh=:2222"
      ∷ [])
    ≡ err (secret not_opened)
unfolding agent_ready agent_config agent_from_flags add_services parse_service_mapping parse_flags
    parse reject_flags_with_config lookup insert cut has_text validate_route_id validate_common
    validate_log_format validate_log_level load_secret_file
no_secret_file = refl
