-- ===== src/Auth/Mutual.antt =====
-- An agent and a server that share its secret, and the certificates that they show each other.
use mule.Base.{
  ◌≡◌, ◌⊎◌, inl, inr, refl, sym, ap, ◌∙◌, Text, true, false, not, [], ◌∷◌, ◌++◌, List, some, codes,
  text_eq, text_eq_refl, lookup, insert, ok, guard, on_ok, ok-injective, arith, subst, Distinct,
  has_text,
}
use mule.Config.Strings.{is_empty}
use mule.Config.Normalize.{is_nil}
use mule.Auth.Keys.{
  derive_private_key, serial_number, role_identity_label, role_name, Role, forward, exit,
  Certificate, Crypto, Error, id_required, no_client, role_public_key, ca_certificate,
  role_certificate,
}
use mule.Auth.Identities.{
  ClientIdentity, Authenticator, TlsConfig, exit_server_name_for_client,
  probe_server_name_for_client, no_duplicate, client_id_for_tls_state, verify_connection,
  get_certificate, add_client, add_clients, multi_client_tls_config, tls_config_with_server_name,
}
use mule.Auth.Owners.{Owns, client_id_iff}
use mule.Auth.Names.{inserted_other, inserted_own, apart_here, apart_rest}

abbrev pub ids_of : List ClientIdentity → List Text
ids_of [] = []
ids_of (client ∷ rest) = client.id ∷ ids_of rest

abbrev pub Holds : ClientIdentity → List ClientIdentity → Type 0
Holds client [] = ⊥
Holds client (c ∷ rest) = (c ≡ client) ⊎ Holds client rest

module _ (crypto : Crypto) where
  role_certificate-key :
      (secret : Text) (role : Role) (ca : Text) (cert : Certificate)
      → role_certificate crypto secret role ca ≡ ok cert
      → role_public_key crypto secret role ≡ ok cert.key
  unfolding role_certificate
  role_certificate-key secret role ca cert e =
      on_ok (derive_private_key crypto secret (role_identity_label role)) _ e λ seed derived e1.
        on_ok
          (serial_number crypto secret
            (codes "mule/v2/" ++ role_name role ++ codes " certificate serial"))
          _ e1
          λ serial numbered e2.
            on_ok (guard (crypto.creates _ (crypto.public_key seed) ca) Error.no_certificate) _ e2
              λ u created e3. rw derived (ap (λ (c : Certificate). ok c.key) (ok-injective e3))

  add_client-certificate :
      (authn authn' : Authenticator) (client : ClientIdentity)
      → add_client crypto authn client ≡ ok authn'
      → (is_empty client.id ≡ false)
        × ((cert : Certificate) × (role_public_key crypto client.secret exit ≡ ok cert.key)
            × (authn'.certificates
                ≡ insert
                    (probe_server_name_for_client client.id)
                    cert
                    (insert (exit_server_name_for_client client.id) cert authn.certificates)))
  unfolding add_client
  add_client-certificate authn authn' client e =
      on_ok (guard (not (is_empty client.id)) id_required) _ e λ u named e1.
        on_ok (ca_certificate crypto client.secret) _ e1 λ ca authority e2.
          on_ok (role_certificate crypto client.secret exit ca.1) _ e2 λ cert certified e3.
            on_ok (role_public_key crypto client.secret forward) _ e3 λ key derived e4.
              on_ok (no_duplicate client.id (lookup key authn.client_by_public_key)) _ e4
                λ u' new e5. (
                  ground arith,
                  (
                    cert,
                    role_certificate-key client.secret exit ca.1 cert certified,
                    ap (λ (a : Authenticator). a.certificates) (sym (ok-injective e5)),
                  ),
                )

  others_kept :
      (id : Text) (authn authn' : Authenticator) (clients : List ClientIdentity)
      → is_empty id ≡ false
      → has_text id (ids_of clients) ≡ false
      → add_clients crypto authn clients ≡ ok authn'
      → lookup (exit_server_name_for_client id) authn'.certificates
        ≡ lookup (exit_server_name_for_client id) authn.certificates
  unfolding add_clients has_text
  others_kept id authn authn' [] named apart e =
      ap (λ (a : Authenticator). lookup (exit_server_name_for_client id) a.certificates)
        (sym (ok-injective e))
  others_kept id authn authn' (client ∷ rest) named apart e =
      on_ok (add_client crypto authn client) _ e λ next added e1.
        let (named', (cert, key, is)) = add_client-certificate authn next client added in
        others_kept id next authn' rest named (apart_rest id client.id (ids_of rest) apart) e1
        ∙ ap (lookup (exit_server_name_for_client id)) is
        ∙ inserted_other id client.id cert authn.certificates named named'
            (apart_here id client.id (ids_of rest) apart)

  shown :
      (client : ClientIdentity) (authn authn' : Authenticator) (clients : List ClientIdentity)
      → Distinct (ids_of clients)
      → add_clients crypto authn clients ≡ ok authn'
      → Holds client clients
      → (is_empty client.id ≡ false)
        × ((cert : Certificate) × (role_public_key crypto client.secret exit ≡ ok cert.key)
            × (lookup (exit_server_name_for_client client.id) authn'.certificates ≡ some cert))
  unfolding add_clients
  shown client authn authn' [] distinct e h = absurd h
  shown client authn authn' (c ∷ rest) distinct e (inr h) =
      on_ok (add_client crypto authn c) _ e
        λ next added e1. shown client next authn' rest distinct.1 e1 h
  shown client authn authn' (c ∷ rest) distinct e (inl h) =
      on_ok (add_client crypto authn c) _ e λ next added e1.
        let (named, (cert, key, is)) = add_client-certificate authn next c added in
        subst
          (λ (client : ClientIdentity).
            (is_empty client.id ≡ false)
            × ((cert : Certificate) × (role_public_key crypto client.secret exit ≡ ok cert.key)
                × (lookup (exit_server_name_for_client client.id) authn'.certificates ≡ some cert)))
          h
          (
            named,
            (
              cert,
              key,
              others_kept c.id next authn' rest named distinct.0 e1
                  ∙ ap (lookup (exit_server_name_for_client c.id)) is
                  ∙ inserted_own c.id cert authn.certificates named,
            ),
          )

  owns :
      (key : Text) (client : ClientIdentity) (clients : List ClientIdentity)
      → Holds client clients
      → role_public_key crypto client.secret forward ≡ ok key
      → Owns crypto key client.id clients
  owns key client [] h e = absurd h
  owns key client (c ∷ rest) (inr h) e = inr (owns key client rest h e)
  owns key client (c ∷ rest) (inl h) e = inl (ap (λ (c : ClientIdentity). c.id) h, rw h e)

  -- What the agent's configuration is made of.
  configured :
      (secret : Text) (name : Text) (cfg : TlsConfig)
      → tls_config_with_server_name crypto secret forward name ≡ ok cfg
      → (cfg.server_name ≡ name)
        × (role_public_key crypto secret forward ≡ ok cfg.certificate.key)
        × (role_public_key crypto secret exit ≡ ok cfg.expected_peer)
  unfolding tls_config_with_server_name
  configured secret name cfg e = on_ok (ca_certificate crypto secret) _ e λ ca authority e1.
      on_ok (role_certificate crypto secret forward ca.1) _ e1 λ cert certified e2.
        on_ok (role_public_key crypto secret exit) _ e2 λ peer derived e3.
          let is = ok-injective e3 in
          (
            ap (λ (c : TlsConfig). c.server_name) (sym is),
            role_certificate-key secret forward ca.1 cert certified
                ∙ ap (λ (c : TlsConfig). ok c.certificate.key) is,
            derived ∙ ap (λ (c : TlsConfig). ok c.expected_peer) is,
          )

  -- An agent and a server that share the agent's secret verify each other: for the server name
  -- that the agent asks for, the server has a certificate whose key is the one that the agent
  -- expects, and the server takes the agent's certificate for that of this client, if the ids of
  -- the clients are distinct.
  pub tls-Mutual :
      (clients : List ClientIdentity) (client : ClientIdentity) (authn : Authenticator)
      (cfg : TlsConfig)
      → Distinct (ids_of clients)
      → Holds client clients
      → multi_client_tls_config crypto clients ≡ ok authn
      → tls_config_with_server_name crypto client.secret forward
          (exit_server_name_for_client client.id)
        ≡ ok cfg
      → ((cert : Certificate) × (get_certificate authn cfg.server_name ≡ some cert)
          × (verify_connection cfg (some cert.key ∷ []) ≡ true))
        × (client_id_for_tls_state authn.client_by_public_key (some cfg.certificate.key ∷ [])
            ≡ some client.id)
  unfolding multi_client_tls_config
  tls-Mutual clients client authn cfg distinct held e own =
      let (name, key, peer) =
        configured client.secret (exit_server_name_for_client client.id) cfg own in
      on_ok (guard (not (is_nil clients)) no_client) _ e λ u some_client e1.
        let (named, (cert, cert_key, there)) = shown client _ authn clients distinct e1 held in
        let same : cert.key ≡ cfg.expected_peer = ok-injective (sym cert_key ∙ peer) in
        (
          (
            cert,
            ap (λ n. lookup n authn.certificates) name ∙ there,
            ap (λ k. text_eq k cfg.expected_peer) same ∙ text_eq_refl cfg.expected_peer,
          ),
          (client_id_iff crypto clients authn (some cfg.certificate.key ∷ []) cfg.certificate.key
                client.id e refl).1
              (owns cfg.certificate.key client clients held key),
        )
