-- ===== src/Server/Loading/Runs.antt =====
-- A file of two agents, met in both orders.
use mule.Base.{◌≡◌, refl, Text, [], ◌∷◌, codes, pos, ok, has_text}
use mathlib.Core.List.{Permᴰ}
use mule.Config.Strings.{cut, contains, atoi, unsigned, digits_value}
use mule.Config.Address.{validate_host_port, split_host_port, split_plain, split_bracketed}
use mule.Config.Validate.{
  validate_route_id, validate_tcp_address, validate_client_id, validate_udp_address,
  validate_listen_address,
}
use mule.Config.Services.{check_services}
use mule.Server.Settings.{apply_defaults, check_agents, validate_config}
use mule.Server.Loading.{FileAgentConfig, FileConfig}
use mule.Server.Loading.Order.{loaded, SamePolicy, load_config-order}

abbrev gpu_1 : Text × FileAgentConfig
gpu_1 = (
  codes "gpu-1",
  record { secret_file = codes "a"; forward = (codes "ssh", codes "h:22") ∷ []; reverse = [] },
)

abbrev gpu_2 : Text × FileAgentConfig
gpu_2 = (
  codes "gpu-2",
  record { secret_file = codes "b"; forward = []; reverse = (codes "web", codes ":80") ∷ [] },
)

abbrev file : FileConfig
file = record {
  listen_udp = codes ":4400";
  agents = [];
  handshake_timeout = [];
  idle_timeout = [];
  dial_timeout = [];
  max_streams = pos 0;
  max_pending_dials = pos 0;
  keep_alive = [];
}

in_order_valid :
    validate_config (loaded file (gpu_1 ∷ gpu_2 ∷ []) (pos 0) (pos 0) (pos 0) (pos 0)) ≡ ok tt
unfolding apply_defaults validate_config check_agents check_services validate_client_id
    validate_route_id validate_udp_address validate_tcp_address validate_listen_address
    validate_host_port split_host_port split_plain split_bracketed cut contains atoi unsigned
    digits_value has_text
in_order_valid = refl

load_config-order_example :
    (validate_config (loaded file (gpu_2 ∷ gpu_1 ∷ []) (pos 0) (pos 0) (pos 0) (pos 0)) ≡ ok tt)
    × SamePolicy
        (loaded file (gpu_1 ∷ gpu_2 ∷ []) (pos 0) (pos 0) (pos 0) (pos 0))
        (loaded file (gpu_2 ∷ gpu_1 ∷ []) (pos 0) (pos 0) (pos 0) (pos 0))
load_config-order_example =
    load_config-order file (gpu_1 ∷ gpu_2 ∷ []) (gpu_2 ∷ gpu_1 ∷ []) (pos 0) (pos 0) (pos 0) (pos 0)
      (Permᴰ.swap refl refl) in_order_valid
