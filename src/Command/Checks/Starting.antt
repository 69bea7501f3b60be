-- ===== src/Command/Checks/Starting.antt =====
-- A configuration that `check-config` accepts is one that the program starts with.
use mule.Base.{
  codes, refl, List, [], ◌∷◌, Result, err, ◌>>=◌, ◌≡◌, ◌↔◌, sym, ap, ◌∙◌, Text, false, ok, map_err,
  map_err_iff, on_ok, ok-injective,
}
use mule.Config.Loading.{Sources, decode_yaml_strict, readable, optional_duration}
use mule.Auth.Keys.{Crypto}
use mule.Auth.Identities.{Authenticator, ClientIdentity, multi_client_tls_config}
use mule.Auth.Secret.{SecretError, load_secret_file}
use mule.Command.Assemble.{World}
use mule.Command.Checks.{
  CheckError, client_identities, check_role, check_agent_config, check_server_config,
}
use mule.Server.Startup.{load_identities, authenticate}
use mule.Server.Startup
use mule.Config.Limits.{or_default_idem}
use mule.Server.Settings.Defaults.{apply_defaults_idem}
use mule.Server.Settings as ServerSettings
use mule.Server.Loading as ServerLoading
use mule.Agent.Settings as AgentSettings
use mule.Agent.Loading as AgentLoading

server_load_defaulted :
    (sources : Sources ServerLoading.FileConfig) (path : Text) (cfg : ServerSettings.Config)
    → ServerLoading.load_config sources path ≡ ok cfg
    → ServerSettings.apply_defaults cfg ≡ cfg
unfolding ServerLoading.load_config
server_load_defaulted sources path cfg e =
    on_ok (readable (sources.read_file path)) _ e λ text read e1.
      on_ok (decode_yaml_strict sources.decoder text) _ e1 λ fc decoded e2.
        on_ok (optional_duration sources.parse_duration fc.handshake_timeout) _ e2 λ a pa e3.
          on_ok (optional_duration sources.parse_duration fc.idle_timeout) _ e3 λ b pb e4.
            on_ok (optional_duration sources.parse_duration fc.dial_timeout) _ e4 λ c pc e5.
              on_ok (optional_duration sources.parse_duration fc.keep_alive) _ e5 λ d pd e6.
                ap ServerSettings.apply_defaults (sym (ok-injective e6))
                ∙ apply_defaults_idem (ServerLoading.config_of fc a b c d)
                ∙ ok-injective e6

-- `Run` gets to its listeners with what the file gives.
abbrev pub ServerStarts : Crypto → World → Text → Type 0
ServerStarts crypto w path =
    (cfg : ServerSettings.Config) × (authn : Authenticator) × (ServerLoading.load_config
        w.server_sources path
      ≡ ok cfg)
    × (authenticate crypto w.os w.files (ServerSettings.apply_defaults cfg) ≡ ok authn)

with_secret :
    (agent : ServerSettings.AgentConfig) (loaded : Result SecretError Text)
    (rest : Result SecretError (List ClientIdentity))
    → (map_err CheckError.secret loaded >>= λ s. map_err CheckError.secret rest >>= λ clients.
        ok (record { id = agent.id; secret = s } ∷ clients))
      ≡ map_err CheckError.secret
          (loaded >>= λ s. rest >>= λ clients. ok (record { id = agent.id; secret = s } ∷ clients))
with_secret agent (err e) rest = refl
with_secret agent (ok s) (err e) = refl
with_secret agent (ok s) (ok clients) = refl

-- `check-config` reads the secrets as `Run` does.
client_identities-load_identities :
    (w : World) (agents : List ServerSettings.AgentConfig)
    → client_identities w agents ≡ map_err CheckError.secret (load_identities w.os w.files agents)
unfolding client_identities load_identities
client_identities-load_identities w [] = refl
client_identities-load_identities w (agent ∷ rest) = rw (client_identities-load_identities w rest) (
    with_secret agent (load_secret_file w.os agent.secret_file w.files)
      (load_identities w.os w.files rest))

checked_starts :
    (crypto : Crypto) (w : World) (path : Text)
    → check_server_config crypto w false path ≡ ok tt
    → ServerStarts crypto w path
unfolding check_server_config authenticate
checked_starts crypto w path e =
    on_ok (map_err CheckError.load (ServerLoading.load_config w.server_sources path)) _ e
      λ cfg loaded e1.
        on_ok (map_err CheckError.server_settings (ServerSettings.validate_config cfg)) _ e1
          λ u valid e2. on_ok (client_identities w cfg.agents) _ e2 λ clients have e3.
            on_ok (map_err CheckError.identity (multi_client_tls_config crypto clients)) _ e3
              λ authn made e4.
                let load_is =
                  (map_err_iff CheckError.load (ServerLoading.load_config w.server_sources path)
                      cfg).0
                    loaded in
                let same = server_load_defaulted w.server_sources path cfg load_is in
                let valid_is =
                  (map_err_iff CheckError.server_settings (ServerSettings.validate_config cfg) u).0
                    valid in
                let have_is =
                  (map_err_iff CheckError.secret (load_identities w.os w.files cfg.agents)
                      clients).0
                    (sym (client_identities-load_identities w cfg.agents) ∙ have) in
                let made_is =
                  (map_err_iff CheckError.identity (multi_client_tls_config crypto clients) authn).0
                    made in
                (
                  cfg,
                  authn,
                  load_is,
                  ap (authenticate crypto w.os w.files) same ∙ rw (valid_is, have_is, made_is),
                )

starts_checked :
    (crypto : Crypto) (w : World) (path : Text)
    → ServerStarts crypto w path
    → check_server_config crypto w false path ≡ ok tt
unfolding check_server_config authenticate
starts_checked crypto w path (cfg, authn, loaded, e) =
    let same = server_load_defaulted w.server_sources path cfg loaded in
    on_ok (map_err Startup.settings (ServerSettings.validate_config cfg)) _
      (sym (ap (authenticate crypto w.os w.files) same) ∙ e)
      λ u valid e1.
        on_ok (map_err Startup.secret (load_identities w.os w.files cfg.agents)) _ e1
          λ clients have e2.
            let valid_is =
              (map_err_iff Startup.settings (ServerSettings.validate_config cfg) u).0 valid in
            let have_is =
              (map_err_iff Startup.secret (load_identities w.os w.files cfg.agents) clients).0
                have in
            let made_is =
              (map_err_iff Startup.identity (multi_client_tls_config crypto clients) authn).0 e2 in
            let read = client_identities-load_identities w cfg.agents in
            rw (loaded, valid_is, read, have_is, made_is)

check_server_config_iff :
    (crypto : Crypto) (w : World) (path : Text)
    → (check_server_config crypto w false path ≡ ok tt) ↔ ServerStarts crypto w path
check_server_config_iff crypto w path = (checked_starts crypto w path, starts_checked crypto w path)

agent_defaults_idem :
    (cfg : AgentSettings.Config)
    → AgentSettings.apply_defaults (AgentSettings.apply_defaults cfg)
      ≡ AgentSettings.apply_defaults cfg
unfolding AgentSettings.apply_defaults
agent_defaults_idem cfg = simp or_default_idem

agent_load_defaulted :
    (sources : Sources AgentLoading.FileConfig) (path : Text) (cfg : AgentSettings.Config)
    → AgentLoading.load_config sources path ≡ ok cfg
    → AgentSettings.apply_defaults cfg ≡ cfg
unfolding AgentLoading.load_config
agent_load_defaulted sources path cfg e =
    on_ok (readable (sources.read_file path)) _ e λ text read e1.
      on_ok (decode_yaml_strict sources.decoder text) _ e1 λ fc decoded e2.
        on_ok (optional_duration sources.parse_duration fc.connect_timeout) _ e2 λ a pa e3.
          on_ok (optional_duration sources.parse_duration fc.handshake_timeout) _ e3 λ b pb e4.
            on_ok (optional_duration sources.parse_duration fc.idle_timeout) _ e4 λ c pc e5.
              on_ok (optional_duration sources.parse_duration fc.keep_alive) _ e5 λ d pd e6.
                on_ok (optional_duration sources.parse_duration fc.reconnect_delay) _ e6 λ f pf e7.
                  ap AgentSettings.apply_defaults (sym (ok-injective e7))
                  ∙ agent_defaults_idem (AgentLoading.config_of fc a b c d f)
                  ∙ ok-injective e7

-- `runAgent` loads the file and the secret, and what `Run` checks first holds.
abbrev pub AgentStarts : World → Text → Type 0
AgentStarts w path =
    (cfg : AgentSettings.Config) × (loaded : Text) × (AgentLoading.load_config w.agent_sources path
      ≡ ok cfg)
    × (load_secret_file w.os cfg.secret_file w.files ≡ ok loaded)
    × (AgentSettings.validate_config (AgentSettings.apply_defaults cfg) ≡ ok tt)

check_agent_config_iff :
    (w : World) (path : Text) → (check_agent_config w false path ≡ ok tt) ↔ AgentStarts w path
unfolding check_agent_config
check_agent_config_iff w path = (
  λ e.
      on_ok (map_err CheckError.load (AgentLoading.load_config w.agent_sources path)) _ e
        λ cfg loaded e1.
          on_ok (map_err CheckError.agent_settings (AgentSettings.validate_config cfg)) _ e1
            λ u valid e2.
              on_ok (map_err CheckError.secret (load_secret_file w.os cfg.secret_file w.files)) _ e2
                λ secret have e3.
                  let load_is =
                    (map_err_iff CheckError.load (AgentLoading.load_config w.agent_sources path)
                        cfg).0
                      loaded in
                  let same = agent_load_defaulted w.agent_sources path cfg load_is in
                  (
                    cfg,
                    secret,
                    load_is,
                    (map_err_iff CheckError.secret (load_secret_file w.os cfg.secret_file w.files)
                          secret).0
                        have,
                    ap AgentSettings.validate_config same
                        ∙ (map_err_iff CheckError.agent_settings (AgentSettings.validate_config cfg)
                              u).0
                            valid,
                  ),
  λ (cfg, secret, loaded, have, valid).
      let same = agent_load_defaulted w.agent_sources path cfg loaded in
      rw (loaded, sym (ap AgentSettings.validate_config same) ∙ valid, have),
)

-- check-config accepts a file exactly if the program starts with it, in the same world: as a
-- server, Run gets its authenticator from it, and as an agent, its secret is loaded and what Run
-- checks first holds.
pub check_role_iff :
    (crypto : Crypto) (w : World) (path : Text)
    → ((check_role crypto w false (codes "server") path ≡ ok tt) ↔ ServerStarts crypto w path)
      × ((check_role crypto w false (codes "agent") path ≡ ok tt) ↔ AgentStarts w path)
unfolding check_role
check_role_iff crypto w path =
    (check_server_config_iff crypto w path, check_agent_config_iff w path)
