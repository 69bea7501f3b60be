-- ===== src/Server/Startup.antt =====
-- internal/server/server.go: `Run` before its accept loop: the configuration, the secrets, the
-- identities and the listeners. What `quic.ListenAddr` and `net.Listen` give is a parameter.
use mule.Base.{Text, Bool, [], ◌∷◌, ◌++◌, List, Result, ok, guard, ◌>>=◌, ◌>>◌, map_err}
use mule.Auth.Keys.{Crypto}
use mule.Auth.Keys
use mule.Auth.Identities.{ClientIdentity, Authenticator, multi_client_tls_config}
use mule.Auth.Secret.{FileSystem, Os, SecretError, load_secret_file}
use mule.Server.Settings.{AgentConfig, Config, apply_defaults, validate_config}
use mule.Server.Settings

pub data Error : Type 0 where
  settings : Settings.Error → Error
  secret : SecretError → Error
  identity : Keys.Error → Error
  not_listening : Text → Error

-- The loop over the agents; the first secret that is not loaded ends it.
unfoldable pub load_identities :
    Os → FileSystem → List AgentConfig → Result SecretError (List ClientIdentity)
unfolding load_secret_file
load_identities os files [] = ok []
load_identities os files (agent ∷ rest) = do
  loaded ← load_secret_file os agent.secret_file files
  clients ← load_identities os files rest
  ok (record { id = agent.id; secret = loaded } ∷ clients)

-- From the configuration with its defaults to the authenticator.
unfoldable pub authenticate : Crypto → Os → FileSystem → Config → Result Error Authenticator
unfolding validate_config load_identities multi_client_tls_config
authenticate crypto os files cfg = do
  map_err settings (validate_config cfg)
  clients ← map_err secret (load_identities os files cfg.agents)
  map_err identity (multi_client_tls_config crypto clients)

-- A listener of `acceptReverse`.
pub record Listener : Type 0 where
  pub agent_id : Text
  pub service : Text
  pub address : Text

abbrev pub listeners_of : Text → List (Text × Text) → List Listener
listeners_of agent_id [] = []
listeners_of agent_id ((service, address) ∷ rest) =
    record { agent_id = agent_id; service = service; address = address }
    ∷ listeners_of agent_id rest

abbrev pub all_listeners : List AgentConfig → List Listener
all_listeners [] = []
all_listeners (agent ∷ rest) = listeners_of agent.id agent.reverse ++ all_listeners rest

-- Whether each address can be listened on; the first that cannot ends the loop.
abbrev pub listen_all : (Text → Bool) → List Listener → Result Error (Unit {0})
listen_all listens [] = ok tt
listen_all listens (l ∷ rest) =
    guard (listens l.address) (not_listening l.address) >> listen_all listens rest

-- What the accept loop starts with.
pub record Running : Type 0 where
  pub config : Config
  pub authenticator : Authenticator
  pub listeners : List Listener

unfoldable pub start_with :
    Crypto → Os → FileSystem → (udp tcp : Text → Bool) → Config → Result Error Running
unfolding authenticate
start_with crypto os files udp tcp cfg = do
  authn ← authenticate crypto os files cfg
  guard (udp cfg.listen_udp) (not_listening cfg.listen_udp)
  listen_all tcp (all_listeners cfg.agents)
  ok (record { config = cfg; authenticator = authn; listeners = all_listeners cfg.agents })

unfoldable pub start :
    Crypto → Os → FileSystem → (udp tcp : Text → Bool) → Config → Result Error Running
unfolding start_with apply_defaults
start crypto os files udp tcp cfg = start_with crypto os files udp tcp (apply_defaults cfg)
