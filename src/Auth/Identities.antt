-- ===== src/Auth/Identities.antt =====
-- internal/auth/tls.go: the TLS configurations of the agent and of the server, as far as they say
-- who is who. A peer's certificates are its public keys, none where a key is not Ed25519.
use mule.Base.{
  Text, Bool, false, not, [], ◌∷◌, ◌++◌, List, Option, none, some, if◌then◌else◌, codes, text_eq,
  lookup, insert, Result, ok, err, guard, ◌>>=◌, ◌>>◌,
}
use mule.Config.Strings.{is_empty}
use mule.Config.Normalize.{is_nil, is_none}
use mule.Auth.Keys.{
  Role, forward, exit, Certificate, Crypto, Error, id_required, no_client, same_identity,
  exit_server_name, probe_server_name, role_public_key, ca_certificate, role_certificate,
}

pub record ClientIdentity : Type 0 where
  pub id : Text
  pub secret : Text

pub record Authenticator : Type 0 where
  -- `certBySNI`, the pool, and `ClientByPublicKey`.
  pub certificates : List (Text × Certificate)
  pub authorities : List Certificate
  pub client_by_public_key : List (Text × Text)

-- The agent's configuration.
pub record TlsConfig : Type 0 where
  pub certificate : Certificate
  pub server_name : Text
  pub authority : Certificate
  pub expected_peer : Text

abbrev pub exit_server_name_for_client : Text → Text
exit_server_name_for_client id =
    if is_empty id then exit_server_name else id ++ codes "." ++ exit_server_name

abbrev pub probe_server_name_for_client : Text → Text
probe_server_name_for_client id =
    if is_empty id then probe_server_name else id ++ codes "." ++ probe_server_name

abbrev pub no_duplicate : Text → Option Text → Result Error (Unit {0})
no_duplicate id none = ok tt
no_duplicate id (some existing) = err (same_identity existing id)

abbrev pub other_role : Role → Role
other_role forward = exit
other_role exit = forward

-- The public key of the first certificate.
abbrev pub leaf_key : List (Option Text) → Option Text
leaf_key [] = none
leaf_key (key ∷ rest) = key

abbrev pub client_of : List (Text × Text) → Option Text → Option Text
client_of clients none = none
client_of clients (some key) = lookup key clients

abbrev pub client_id_for_tls_state : List (Text × Text) → List (Option Text) → Option Text
client_id_for_tls_state clients peer = client_of clients (leaf_key peer)

-- `VerifyConnection` of the agent's configuration.
abbrev pub is_key : Text → Option Text → Bool
is_key expected none = false
is_key expected (some key) = text_eq key expected

abbrev pub verify_connection : TlsConfig → List (Option Text) → Bool
verify_connection cfg peer = is_key cfg.expected_peer (leaf_key peer)

-- `GetCertificate` of the server's configuration, by the server name that a peer asks for.
abbrev pub get_certificate : Authenticator → Text → Option Certificate
get_certificate authn server_name = lookup server_name authn.certificates

-- `VerifyConnection` of the server's configuration.
abbrev pub is_client : Authenticator → List (Option Text) → Bool
is_client authn peer = not (is_none (client_id_for_tls_state authn.client_by_public_key peer))

module _ (crypto : Crypto) where
  unfoldable pub add_client : Authenticator → ClientIdentity → Result Error Authenticator
  unfolding ca_certificate role_certificate
  add_client authn client = do
    guard (not (is_empty client.id)) id_required
    ca ← ca_certificate crypto client.secret
    cert ← role_certificate crypto client.secret exit ca.1
    key ← role_public_key crypto client.secret forward
    no_duplicate client.id (lookup key authn.client_by_public_key)
    ok (record {
      certificates =
          insert (probe_server_name_for_client client.id) cert
            (insert (exit_server_name_for_client client.id) cert authn.certificates);
      authorities = ca.0 ∷ authn.authorities;
      client_by_public_key = insert key client.id authn.client_by_public_key;
    })

  unfoldable pub add_clients : Authenticator → List ClientIdentity → Result Error Authenticator
  unfolding add_client
  add_clients authn [] = ok authn
  add_clients authn (client ∷ rest) = do authn' ← add_client authn client; add_clients authn' rest

  unfoldable pub multi_client_tls_config : List ClientIdentity → Result Error Authenticator
  unfolding add_clients
  multi_client_tls_config clients = do
    guard (not (is_nil clients)) no_client
    add_clients (record { certificates = []; authorities = []; client_by_public_key = [] }) clients

  unfoldable pub tls_config_with_server_name : Text → Role → Text → Result Error TlsConfig
  unfolding ca_certificate role_certificate
  tls_config_with_server_name secret role server_name = do
    ca ← ca_certificate crypto secret
    cert ← role_certificate crypto secret role ca.1
    peer ← role_public_key crypto secret (other_role role)
    ok (record {
      certificate = cert;
      server_name = server_name;
      authority = ca.0;
      expected_peer = peer;
    })
