-- ===== src/Command/Runs.antt =====
-- Concrete flags, and the theorem at them.
use mule.Base.{
  ◌≡◌, refl, ◌++◌, Text, true, [], ◌∷◌, some, if◌then◌else◌, codes, lookup, insert, ok, err,
}
use mule.Config.Strings.{cut, contains, atoi, unsigned, digits_value}
use mule.Config.Address.{validate_host_port, split_host_port, split_plain, split_bracketed}
use mule.Config.Validate.{
  route_id_pattern, validate_route_id, validate_tcp_address, validate_client_id,
}
use mule.Server.Settings.{AgentConfig}
use mule.Command.{
  agent_needed, duplicate_forward, parse_agent, agent_and_service, add_to_agent, add_server_mapping,
}
use mule.Command.Services.{Names, service_of, is_changed, add_server_mapping-service_of}

abbrev gpu_1 : AgentConfig
gpu_1 = record { id = codes "gpu-1"; secret_file = codes "a"; forward = []; reverse = [] }

abbrev gpu_2 : AgentConfig
gpu_2 = record { id = codes "gpu-2"; secret_file = codes "b"; forward = []; reverse = [] }

parsed_agent : parse_agent (codes "gpu-1=a") ≡ ok gpu_1
unfolding parse_agent cut validate_client_id
parsed_agent = refl

abbrev with_ssh : AgentConfig
with_ssh = record gpu_2 { forward = (codes "ssh", codes "h:22") ∷ [] }

ssh_added :
    add_server_mapping (gpu_1 ∷ gpu_2 ∷ []) (codes "gpu-2:ssh=h:22") true
    ≡ ok (gpu_1 ∷ with_ssh ∷ [])
unfolding add_server_mapping agent_and_service add_to_agent cut contains validate_route_id
    validate_tcp_address validate_host_port split_host_port split_plain split_bracketed atoi
    unsigned digits_value lookup insert
ssh_added = refl

ssh_twice :
    add_server_mapping (with_ssh ∷ []) (codes "ssh=h:23") true
    ≡ err (duplicate_forward (codes "ssh") (codes "gpu-2"))
unfolding add_server_mapping agent_and_service add_to_agent cut contains validate_route_id
    validate_tcp_address validate_host_port split_host_port split_plain split_bracketed atoi
    unsigned digits_value lookup insert
ssh_twice = refl

which_agent :
    add_server_mapping (gpu_1 ∷ gpu_2 ∷ []) (codes "ssh=h:22") true
    ≡ err (agent_needed (codes "ssh=h:22"))
unfolding add_server_mapping agent_and_service cut contains
which_agent = refl

add_server_mapping-service_of_example :
    (left : Text) × (agent_id : Text) × (service : Text) × (addr : Text) × (codes "gpu-2:ssh=h:22"
      ≡ left ++ b'=' ∷ addr)
    × Names (gpu_1 ∷ gpu_2 ∷ []) left agent_id service
    × (route_id_pattern service ≡ true)
    × (service_of (gpu_1 ∷ with_ssh ∷ []) true (codes "gpu-1") (codes "ssh") ≡ (
        if is_changed true true agent_id (codes "gpu-1") service (codes "ssh")
        then some addr
        else service_of (gpu_1 ∷ gpu_2 ∷ []) true (codes "gpu-1") (codes "ssh")))
add_server_mapping-service_of_example =
    add_server_mapping-service_of (gpu_1 ∷ gpu_2 ∷ []) (gpu_1 ∷ with_ssh ∷ [])
      (codes "gpu-2:ssh=h:22") (codes "gpu-1") (codes "ssh") true true ssh_added
