-- ===== src/Command/Checks.antt =====
-- cmd/mule/main.go: `runCheckConfig`, `runCheck` and `runKeygen`.
pub mod Starting
mod Runs
use mule.Base.{
  Text, Bool, true, false, [], ◌∷◌, ◌||◌, not, List, if◌then◌else◌, codes, has_text, text_eq,
  Result, ok, err, guard, ◌>>=◌, ◌>>◌, map_err,
}
use mule.Config.Strings.{is_empty}
use mule.Config.Loading.{LoadError}
use mule.Auth.Keys.{Crypto}
use mule.Auth.Keys
use mule.Auth.Identities.{ClientIdentity, multi_client_tls_config}
use mule.Auth.Secret.{FileSystem, Os, SecretError, load_secret_file, generate_secret_file}
use mule.Command.Flags.{FlagError, Kind, text_flag, bool_flag, Assignments, parse_flags, value_of}
use mule.Command.Assemble.{World, true_texts}
use mule.Server.Startup.{load_identities}
use mule.Server.Settings as ServerSettings
use mule.Server.Loading as ServerLoading
use mule.Agent.Settings as AgentSettings
use mule.Agent.Loading as AgentLoading

pub data CheckError : Type 0 where
  flags : FlagError → CheckError
  missing_flags bad_role : CheckError
  load : LoadError → CheckError
  agent_settings : AgentSettings.Error → CheckError
  server_settings : ServerSettings.Error → CheckError
  secret : SecretError → CheckError
  identity : Keys.Error → CheckError

abbrev pub check_agent_secret : World → Bool → Text → Result CheckError (Unit {0})
check_agent_secret w true path = ok tt
check_agent_secret w false path = map_err secret (load_secret_file w.os path w.files) >>= λ s. ok tt

unfoldable pub check_agent_config : World → Bool → Text → Result CheckError (Unit {0})
unfolding AgentLoading.load_config AgentSettings.validate_config load_secret_file
check_agent_config w skip_secrets path = do
  cfg ← map_err load (AgentLoading.load_config w.agent_sources path)
  map_err agent_settings (AgentSettings.validate_config cfg)
  check_agent_secret w skip_secrets cfg.secret_file

-- The loop over the agents.
unfoldable pub client_identities :
    World → List ServerSettings.AgentConfig → Result CheckError (List ClientIdentity)
unfolding load_secret_file
client_identities w [] = ok []
client_identities w (agent ∷ rest) = do
  loaded ← map_err secret (load_secret_file w.os agent.secret_file w.files)
  clients ← client_identities w rest
  ok (record { id = agent.id; secret = loaded } ∷ clients)

abbrev pub check_server_secrets :
    Crypto → World → Bool → List ServerSettings.AgentConfig → Result CheckError (Unit {0})
check_server_secrets crypto w true agents = ok tt
check_server_secrets crypto w false agents = do
  clients ← client_identities w agents
  authn ← map_err identity (multi_client_tls_config crypto clients)
  ok tt

unfoldable pub check_server_config : Crypto → World → Bool → Text → Result CheckError (Unit {0})
unfolding ServerLoading.load_config ServerSettings.validate_config client_identities
    multi_client_tls_config
check_server_config crypto w skip_secrets path = do
  cfg ← map_err load (ServerLoading.load_config w.server_sources path)
  map_err server_settings (ServerSettings.validate_config cfg)
  check_server_secrets crypto w skip_secrets cfg.agents

unfoldable pub check_role :
    Crypto → World → Bool → (role path : Text) → Result CheckError (Unit {0})
unfolding check_agent_config check_server_config
check_role crypto w skip_secrets role path =
    if text_eq role (codes "agent")
    then check_agent_config w skip_secrets path
    else if text_eq role (codes "server")
    then check_server_config crypto w skip_secrets path
    else err bad_role

abbrev pub check_config_kinds : List (Text × Kind)
check_config_kinds =
    (codes "role", text_flag) ∷ (codes "config", text_flag) ∷ (codes "skip-secrets", bool_flag) ∷ []

abbrev pub skips_secrets : Assignments → Bool
skips_secrets set = has_text (value_of (codes "skip-secrets") (codes "false") set) true_texts

unfoldable pub run_check_config : Crypto → World → List Text → Result CheckError (Unit {0})
unfolding parse_flags check_role has_text
run_check_config crypto w args = do
  set ← map_err flags (parse_flags w.values check_config_kinds args)
  guard
      (not
        (is_empty (value_of (codes "role") [] set) || is_empty (value_of (codes "config") [] set)))
      missing_flags
  check_role crypto w (skips_secrets set) (value_of (codes "role") [] set)
      (value_of (codes "config") [] set)

unfoldable pub run_check : World → List Text → Result CheckError (Unit {0})
unfolding parse_flags load_secret_file
run_check w args = do
  set ← map_err flags (parse_flags w.values ((codes "secret-file", text_flag) ∷ []) args)
  guard (not (is_empty (value_of (codes "secret-file") [] set))) missing_flags
  map_err secret (load_secret_file w.os (value_of (codes "secret-file") [] set) w.files) >>= λ s.
      ok tt

-- The output file, if the arguments give one.
unfoldable pub keygen_path : World → List Text → Result CheckError Text
unfolding parse_flags
keygen_path w args = do
  set ← map_err flags (parse_flags w.values ((codes "out", text_flag) ∷ []) args)
  guard (not (is_empty (value_of (codes "out") [] set))) missing_flags
  ok (value_of (codes "out") [] set)

abbrev pub keygen_at : World → Result CheckError Text → FileSystem × Result CheckError (Unit {0})
keygen_at w (err e) = (w.files, err e)
keygen_at w (ok path) =
    let (files, result) = generate_secret_file w.os path w.files in (files, map_err secret result)

unfoldable pub run_keygen : World → List Text → FileSystem × Result CheckError (Unit {0})
unfolding keygen_path generate_secret_file
run_keygen w args = keygen_at w (keygen_path w args)
