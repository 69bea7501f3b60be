-- ===== src/Auth/Owners.antt =====
-- Whom the server takes a peer for.
use mule.Base.{
  ◌≡◌, sym, ap, ◌∙◌, ◌↔◌, ◌⊎◌, inl, inr, Text, not, [], ◌∷◌, List, Option, none, some, text_eq_iff,
  lookup, insert, lookup-insert, Result, ok, guard, on_ok, ok-injective, arith,
}
use mule.Config.Strings.{is_empty}
use mule.Config.Normalize.{is_nil}
use mule.Auth.Keys.{
  forward, exit, Crypto, Error, id_required, no_client, ca_certificate, role_certificate,
  role_public_key,
}
use mule.Auth.Identities.{
  ClientIdentity, Authenticator, no_duplicate, leaf_key, client_id_for_tls_state, add_client,
  add_clients, multi_client_tls_config,
}

module _ (crypto : Crypto) where
  -- One of the clients is of that id, and that is the public key of its secret.
  abbrev pub Owns : Text → Text → List ClientIdentity → Type 0
  Owns key id [] = ⊥
  Owns key id (client ∷ rest) =
      ((client.id ≡ id) × (role_public_key crypto client.secret forward ≡ ok key))
      ⊎ Owns key id rest

  add_client-keys :
      (authn authn' : Authenticator) (client : ClientIdentity)
      → add_client crypto authn client ≡ ok authn'
      → (key : Text) × (role_public_key crypto client.secret forward ≡ ok key)
        × (lookup key authn.client_by_public_key ≡ none)
        × (authn'.client_by_public_key ≡ insert key client.id authn.client_by_public_key)
  unfolding add_client
  add_client-keys authn authn' client e =
      on_ok (guard (not (is_empty client.id)) id_required) _ e λ u named e1.
        on_ok (ca_certificate crypto client.secret) _ e1 λ ca authority e2.
          on_ok (role_certificate crypto client.secret exit ca.1) _ e2 λ cert certified e3.
            on_ok (role_public_key crypto client.secret forward) _ e3 λ key derived e4.
              on_ok (no_duplicate client.id (lookup key authn.client_by_public_key)) _ e4
                λ u' new e5. (
                  key,
                  derived,
                  ground arith,
                  ap (λ (a : Authenticator). a.client_by_public_key) (sym (ok-injective e5)),
                )

  inserted_iff :
      (k key id' id : Text) (m : List (Text × Text)) (derived : Result Error Text)
      → derived ≡ ok k
      → lookup k m ≡ none
      → (lookup key (insert k id' m) ≡ some id)
        ↔ ((lookup key m ≡ some id) ⊎ ((id' ≡ id) × (derived ≡ ok key)))
  inserted_iff k key id' id m derived d new = (
    λ e. ground (arith, lookup-insert k key id' m, text_eq_iff k key),
    λ e. ground (arith, lookup-insert k key id' m, text_eq_iff k key),
  )

  add_clients-keys :
      (authn authn' : Authenticator) (clients : List ClientIdentity) (key id : Text)
      → add_clients crypto authn clients ≡ ok authn'
      → (lookup key authn'.client_by_public_key ≡ some id)
        ↔ ((lookup key authn.client_by_public_key ≡ some id) ⊎ Owns key id clients)
  unfolding add_clients
  add_clients-keys authn authn' [] key id e =
      let same : authn ≡ authn' = ok-injective e in
      (
        λ found. inl (ap (λ (a : Authenticator). lookup key a.client_by_public_key) same ∙ found),
        λ found.
            ap (λ (a : Authenticator). lookup key a.client_by_public_key) (sym same)
            ∙ elim found [ inl f ↦ f | inr none_left ↦ absurd none_left ],
      )
  add_clients-keys authn authn' (client ∷ rest) key id e =
      on_ok (add_client crypto authn client) _ e λ next added e1.
        let (k, derived, new, is) = add_client-keys authn next client added in
        let (to, from) = add_clients-keys next authn' rest key id e1 in
        let inserted = lookup-insert k key client.id authn.client_by_public_key in
        let (here, there) =
          inserted_iff k key client.id id authn.client_by_public_key
            (role_public_key crypto client.secret forward) derived new in
        (
          λ found. elim (to found) [
            | inl f ↦ elim (here (sym (ap (lookup key) is) ∙ f)) [
              | inl before ↦ inl before
              | inr this ↦ inr (inl this)
            ]
            | inr other ↦ inr (inr other)
          ],
          λ found. elim found [
            | inl before ↦ from (inl (ap (lookup key) is ∙ there (inl before)))
            | inr (inl this) ↦ from (inl (ap (lookup key) is ∙ there (inr this)))
            | inr (inr other) ↦ from (inr other)
          ],
        )

  no_entry : (key id : Text) → lookup {V = Text} key [] ≡ some id → ⊥
  unfolding lookup
  no_entry key id h = cc

  -- The server takes a peer for a client exactly if the key of the peer's first certificate is the
  -- one that the secret of that client gives, whatever the order of the clients.
  pub client_id_iff :
      (clients : List ClientIdentity) (authn : Authenticator) (peer : List (Option Text))
      (key id : Text)
      → multi_client_tls_config crypto clients ≡ ok authn
      → leaf_key peer ≡ some key
      → (client_id_for_tls_state authn.client_by_public_key peer ≡ some id) ↔ Owns key id clients
  unfolding multi_client_tls_config
  client_id_iff clients authn peer key id e leaf =
      on_ok (guard (not (is_nil clients)) no_client) _ e λ u some_client e1.
        let (to, from) = add_clients-keys _ authn clients key id e1 in
        rw leaf (
          λ found. elim (to found) [
            | inl nothing ↦ absurd (no_entry key id nothing)
            | inr owns ↦ owns
          ],
          λ owns. from (inr owns),
        )
