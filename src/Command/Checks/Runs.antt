-- ===== src/Command/Checks/Runs.antt =====
-- A world with one configuration of each role, and the theorem at it.
use mule.Base.{
  ℕ, zero, suc, ◌≡◌, ◌↔◌, refl, Text, true, false, [], ◌∷◌, none, some, codes, pos, lookup, insert,
  has_text, ok, err,
}
use mule.Config.Strings.{cut, contains, atoi, unsigned, digits_value}
use mule.Config.Address.{validate_host_port, split_host_port, split_plain}
use mule.Config.Validate.{
  validate_route_id, validate_tcp_address, validate_client_id, validate_udp_address,
  validate_listen_address,
}
use mule.Config.Services.{check_services}
use mule.Config.Loading.{Sources, at_end, decode_yaml_strict}
use mule.Auth.Keys.{Crypto, ca_certificate, role_certificate, serial_number}
use mule.Auth.Identities.{add_client, add_clients, multi_client_tls_config}
use mule.Auth.Encoding.{hex_encode, hex_decode, trim_left, trim_right, trim_space}
use mule.Auth.Secret.{Os, SecretError, decode_secret, load_secret_file, generate_secret_file}
use mule.Command.Flags.{parse_flags, parse}
use mule.Command.Assemble.{World}
use mule.Command.Checks.{
  CheckError, client_identities, check_role, check_agent_config, check_server_config,
  run_check_config, run_check, run_keygen, keygen_path,
}
use mule.Command.Checks.Starting.{ServerStarts, AgentStarts, check_role_iff}
use mule.Server.Settings as ServerSettings
use mule.Server.Loading as ServerLoading
use mule.Agent.Settings as AgentSettings
use mule.Agent.Loading as AgentLoading

abbrev repeated : ℕ → Text → Text
repeated zero s = []
repeated (suc n) [] = 0 ∷ repeated n []
repeated (suc n) (c ∷ s) = c ∷ repeated n (c ∷ s)

abbrev crypto : Crypto
crypto = record {
  hkdf = λ secret salt label n. some (repeated n secret);
  public_key = λ seed. seed;
  creates = λ template key issuer. true;
}

abbrev os : Os
os = record {
  is_windows = false;
  random = λ n. some (repeated n (codes "r"));
  may_create = λ path. true;
  umasked = λ mode. mode;
  short_write = λ text. none;
  closes = true;
  may_open = λ file. true;
  may_examine = λ file. true;
  may_read = λ file. true;
}

abbrev server_file : ServerLoading.FileConfig
server_file = record {
  listen_udp = codes ":4400";
  agents =
      (
        codes "gpu-1",
        record {
          secret_file = codes "key";
          forward = (codes "ssh", codes "h:22") ∷ [];
          reverse = [];
        },
      )
      ∷ [];
  handshake_timeout = [];
  idle_timeout = [];
  dial_timeout = [];
  max_streams = pos 0;
  max_pending_dials = pos 0;
  keep_alive = [];
}

abbrev agent_file : AgentLoading.FileConfig
agent_file = record {
  server = codes "h:4400";
  agent_id = codes "gpu-1";
  secret_file = codes "key";
  forward = (codes "ssh", codes ":2222") ∷ [];
  reverse = [];
  connect_timeout = [];
  handshake_timeout = [];
  idle_timeout = [];
  max_connections = pos 0;
  keep_alive = [];
  reconnect_delay = [];
  send_client_addr = false;
}

abbrev sources {ℓ} : {F : Type ℓ} → F → Sources F
sources fc = record {
  read_file = λ path. some (codes "yaml");
  decoder = record { first = λ text. ok fc; second_of = λ text. at_end };
  parse_duration = λ s. none;
}

abbrev world : World
world = record {
  values = record { parse_duration = λ s. none; parse_int = λ s. none };
  server_sources = sources server_file;
  agent_sources = sources agent_file;
  os = os;
  files =
      (
        codes "key",
        record { is_regular = true; mode = 384; content = hex_encode (repeated 32 (codes "k")) },
      )
      ∷ [];
}

check_role_iff_example :
    ((check_role crypto world false (codes "server") (codes "c") ≡ ok tt)
      ↔ ServerStarts crypto world (codes "c"))
    × ((check_role crypto world false (codes "agent") (codes "c") ≡ ok tt)
        ↔ AgentStarts world (codes "c"))
check_role_iff_example = check_role_iff crypto world (codes "c")

server_accepted :
    run_check_config crypto world (codes "--role" ∷ codes "server" ∷ codes "--config=c" ∷ [])
    ≡ ok tt
unfolding run_check_config parse_flags parse lookup cut has_text check_role check_server_config
    ServerLoading.load_config decode_yaml_strict ServerSettings.apply_defaults
    ServerSettings.validate_config ServerSettings.check_agents check_services validate_client_id
    validate_route_id validate_udp_address validate_tcp_address validate_host_port split_host_port
    split_plain contains atoi unsigned digits_value client_identities load_secret_file decode_secret
    hex_decode trim_space trim_left trim_right multi_client_tls_config add_clients add_client
    ca_certificate role_certificate serial_number insert
server_accepted = refl

agent_accepted :
    run_check_config crypto world (codes "--role=agent" ∷ codes "--config=c" ∷ []) ≡ ok tt
unfolding run_check_config parse_flags parse lookup cut has_text check_role check_agent_config
    AgentLoading.load_config decode_yaml_strict AgentSettings.apply_defaults
    AgentSettings.validate_config check_services validate_client_id validate_route_id
    validate_udp_address validate_listen_address validate_host_port split_host_port split_plain
    contains atoi unsigned digits_value load_secret_file decode_secret hex_decode trim_space
    trim_left trim_right
agent_accepted = refl

not_there :
    run_check world (codes "--secret-file=other" ∷ [])
    ≡ err (CheckError.secret SecretError.not_opened)
unfolding run_check parse_flags parse lookup cut has_text load_secret_file
not_there = refl

not_overwritten :
    (run_keygen world (codes "--out=key" ∷ [])).1 ≡ err (CheckError.secret SecretError.not_created)
unfolding run_keygen keygen_path parse_flags parse lookup cut has_text generate_secret_file
not_overwritten = refl
