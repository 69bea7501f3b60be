-- ===== src/Auth/Runs.antt =====
-- Concrete identities, on primitives that give what they are asked for, and the theorems at them.
use mule.Base.{
  false, Distinct, has_text, ℕ, zero, suc, ◌%◌, ◌≡◌, refl, ◌<◌, ◌↔◌, Text, true, [], ◌∷◌, List,
  some, codes, length, ok, All, IsByte, lookup, insert, Result, err, inl, inr, arith, subst,
}
use mule.Auth.Keys.{
  forward, Certificate, Crypto, Error, serial_number, ca_certificate, role_certificate, hkdf_salt,
}
use mule.Auth.Identities.{
  TlsConfig, get_certificate, verify_connection, tls_config_with_server_name,
  exit_server_name_for_client, ClientIdentity, Authenticator, client_id_for_tls_state, add_client,
  add_clients, multi_client_tls_config,
}
use mule.Auth.Mutual.{ids_of, tls-Mutual}
use mule.Auth.Owners.{Owns, client_id_iff}

-- So many bytes of one value.
abbrev repeated : ℕ → ℕ → Text
repeated v zero = []
repeated v (suc n) = v ∷ repeated v n

-- The first byte of the secret, or zero, in each place.
abbrev first_byte : Text → ℕ
first_byte [] = 0
first_byte (v ∷ s) = v % 256

abbrev crypto : Crypto
crypto = record {
  hkdf = λ secret salt label n. some (repeated (first_byte secret) n);
  public_key = λ seed. seed;
  creates = λ template key issuer. true;
}

repeated-bytes : (v n : ℕ) → v < 256 → (length (repeated v n) ≡ n) × All IsByte (repeated v n)
repeated-bytes v zero h = (refl, tt)
repeated-bytes v (suc n) h = let (same, bytes) = repeated-bytes v n h in (rw same, (h, bytes))

hkdf-length :
    (secret label out : Text)
    → crypto.hkdf secret hkdf_salt label 16 ≡ some out
    → (length out ≡ 16) × All IsByte out
hkdf-length secret label out e =
    subst (λ (o : Text). (length o ≡ 16) × All IsByte o) (some_is e)
      (repeated-bytes (first_byte secret) 16 (below secret))
  where
    some_is :
        some (repeated (first_byte secret) 16) ≡ some out → repeated (first_byte secret) 16 ≡ out
    some_is h = cc

    below : (s : Text) → first_byte s < 256
    below [] = omega arith
    below (v ∷ s) = omega arith

-- All bytes of this secret give zero, so that the last is set.
least_serial : serial_number crypto [] (codes "label") ≡ ok 1
unfolding serial_number
least_serial = refl

abbrev clients : List ClientIdentity
clients =
    record { id = codes "gpu-1"; secret = codes "a" }
    ∷ record { id = codes "gpu-2"; secret = codes "b" }
    ∷ []

-- What the configuration gives, with an empty one for a failure.
abbrev or_empty : Result Error Authenticator → Authenticator
or_empty (ok authn) = authn
or_empty (err e) = record { certificates = []; authorities = []; client_by_public_key = [] }

abbrev built : Authenticator
unfolding multi_client_tls_config
built = or_empty (multi_client_tls_config crypto clients)

built_is : multi_client_tls_config crypto clients ≡ ok built
unfolding multi_client_tls_config built add_clients add_client ca_certificate role_certificate
    serial_number lookup insert
built_is = refl

abbrev key_of_b : Text
key_of_b = repeated b'b' 32

client_id_iff_example :
    (client_id_for_tls_state built.client_by_public_key (some key_of_b ∷ []) ≡ some (codes "gpu-2"))
    ↔ Owns crypto key_of_b (codes "gpu-2") clients
client_id_iff_example =
    client_id_iff crypto clients built (some key_of_b ∷ []) key_of_b (codes "gpu-2") built_is refl

second_client :
    client_id_for_tls_state built.client_by_public_key (some key_of_b ∷ []) ≡ some (codes "gpu-2")
second_client = client_id_iff_example.1 (inr (inl (refl, refl)))

abbrev no_certificate_yet : Certificate
no_certificate_yet = record {
  template = record {
    serial = 0;
    common_name = [];
    dns_names = [];
    is_ca = false;
    server_auth = false;
  };
  key = [];
  issuer = [];
}

abbrev or_empty_tls : Result Error TlsConfig → TlsConfig
or_empty_tls (ok cfg) = cfg
or_empty_tls (err e) = record {
  certificate = no_certificate_yet;
  server_name = [];
  authority = no_certificate_yet;
  expected_peer = [];
}

abbrev first_client : ClientIdentity
first_client = record { id = codes "gpu-1"; secret = codes "a" }

abbrev first_tls : TlsConfig
unfolding tls_config_with_server_name
first_tls = or_empty_tls (
    tls_config_with_server_name crypto (codes "a") forward
      (exit_server_name_for_client (codes "gpu-1")))

first_tls_is :
    tls_config_with_server_name crypto
      (codes "a")
      forward
      (exit_server_name_for_client (codes "gpu-1"))
    ≡ ok first_tls
unfolding first_tls tls_config_with_server_name ca_certificate role_certificate serial_number
first_tls_is = refl

ids-Distinct : Distinct (ids_of clients)
unfolding has_text
ids-Distinct = (refl, (refl, tt))

tls-Mutual_example :
    ((cert : Certificate) × (get_certificate built first_tls.server_name ≡ some cert)
      × (verify_connection first_tls (some cert.key ∷ []) ≡ true))
    × (client_id_for_tls_state built.client_by_public_key (some first_tls.certificate.key ∷ [])
        ≡ some (codes "gpu-1"))
tls-Mutual_example =
    tls-Mutual crypto clients first_client built first_tls ids-Distinct (inl refl) built_is
      first_tls_is
