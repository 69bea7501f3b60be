-- ===== src/Server/Accepting/Runs.antt =====
-- A server of two agents and a prober, and the theorems at it.
use mule.Base.{
  ℕ, zero, suc, ◌≡◌, refl, Text, true, false, [], ◌∷◌, List, none, some, codes, Result, ok, err,
  lookup, insert, delete, arith,
}
use mule.Auth.Keys.{Crypto, Error, ca_certificate, role_certificate, serial_number}
use mule.Auth.Identities.{
  ClientIdentity, Authenticator, add_client, add_clients, multi_client_tls_config,
  probe_server_name_for_client,
}
use mule.Server.Connections.{register, unregister}
use mule.Server.Accepting.{
  Peer, Loop, unauthorized, over_capacity, already_connected, serves, answers_probe,
  answers_legacy_probe, Event, arrives, probe_ends, agent_ends, accept_fails, accept_failed,
  accept_connection, accept_loop,
}
use mule.Server.Accepting.Acceptor.{accept_quic}
use mule.Server.Accepting.Owned.{AllOwned, accept_loop-AllOwned}
use mule.Server.Accepting.Probes.{SlotsFit, accept_loop-SlotsFit}

abbrev repeated : ℕ → Text → Text
repeated zero s = []
repeated (suc n) [] = 0 ∷ repeated n []
repeated (suc n) (c ∷ s) = c ∷ repeated n (c ∷ s)

-- Keys that are the first byte of the secret.
abbrev crypto : Crypto
crypto = record {
  hkdf = λ secret salt label n. some (repeated n secret);
  public_key = λ seed. seed;
  creates = λ template key issuer. true;
}

abbrev identities : List ClientIdentity
identities =
    record { id = codes "gpu-1"; secret = codes "a" }
    ∷ record { id = codes "gpu-2"; secret = codes "b" }
    ∷ []

abbrev or_empty : Result Error Authenticator → Authenticator
or_empty (ok authn) = authn
or_empty (err e) = record { certificates = []; authorities = []; client_by_public_key = [] }

abbrev authn : Authenticator
unfolding multi_client_tls_config
authn = or_empty (multi_client_tls_config crypto identities)

configured : multi_client_tls_config crypto identities ≡ ok authn
unfolding multi_client_tls_config authn add_clients add_client ca_certificate role_certificate
    serial_number lookup insert
configured = refl

abbrev peer : ℕ → Text → Text → Peer
peer conn secret name = record {
  conn = conn;
  certificates = some (repeated 32 secret) ∷ [];
  server_name = name;
}

abbrev idle : Loop
idle = record { conns = []; auth_failures = 0; probes = 0; serving = []; probing = [] }

abbrev probe_name : Text
probe_name = probe_server_name_for_client (codes "gpu-1")

abbrev events : List Event
events =
    arrives (peer 1 (codes "a") (codes "gpu-1.exit"))
    ∷ arrives (peer 2 (codes "z") (codes "gpu-1.exit"))
    ∷ arrives (peer 3 (codes "a") probe_name)
    ∷ arrives (peer 4 (codes "a") (codes "gpu-1.exit"))
    ∷ probe_ends 3
    ∷ arrives (peer 5 (codes "a") (codes "gpu-1.exit"))
    ∷ arrives (peer 6 (codes "b") (codes "gpu-2.exit"))
    ∷ arrives (peer 7 (codes "b") (probe_server_name_for_client (codes "gpu-2")))
    ∷ agent_ends 1
    ∷ arrives (peer 8 (codes "a") (codes "gpu-1.exit"))
    ∷ accept_fails false
    ∷ []

decisions_made :
    (accept_loop 1 authn.client_by_public_key events idle).decisions
    ≡ serves (codes "gpu-1")
      ∷ unauthorized
      ∷ answers_probe (codes "gpu-1")
      ∷ already_connected
      ∷ answers_legacy_probe (codes "gpu-1")
      ∷ serves (codes "gpu-2")
      ∷ over_capacity
      ∷ serves (codes "gpu-1")
      ∷ []
unfolding accept_loop accept_connection multi_client_tls_config authn add_clients add_client
    ca_certificate role_certificate serial_number lookup insert register unregister delete
decisions_made = refl

returned : (accept_loop 1 authn.client_by_public_key events idle).returned ≡ some accept_failed
unfolding accept_loop accept_connection multi_client_tls_config authn add_clients add_client
    ca_certificate role_certificate serial_number lookup insert register unregister delete
returned = refl

accept_loop-AllOwned_example :
    AllOwned crypto identities (accept_loop 1 authn.client_by_public_key events idle).loop
accept_loop-AllOwned_example =
    accept_loop-AllOwned crypto identities authn configured 1 events idle (tt, tt)

accept_loop-SlotsFit_example :
    SlotsFit 1 (accept_loop 1 authn.client_by_public_key events idle).loop
accept_loop-SlotsFit_example =
    accept_loop-SlotsFit 1 authn.client_by_public_key events idle (refl, omega arith)

-- The third connection arrives when the context is done.
acceptor_shuts_down :
    accept_quic (
      record { accepted = some (peer 1 (codes "a") probe_name); is_taken = true }
      ∷ record { accepted = some (peer 2 (codes "b") probe_name); is_taken = true }
      ∷ record { accepted = some (peer 3 (codes "a") probe_name); is_taken = false }
      ∷ [])
    ≡ record {
      sent = some (peer 1 (codes "a") probe_name) ∷ some (peer 2 (codes "b") probe_name) ∷ [];
      closed = 3 ∷ [];
      has_returned = true;
    }
unfolding accept_quic
acceptor_shuts_down = refl

-- Nothing is accepted after an error.
acceptor_fails :
    (accept_quic (
      record { accepted = none; is_taken = true }
      ∷ record { accepted = some (peer 1 (codes "a") probe_name); is_taken = true }
      ∷ [])).sent
    ≡ none ∷ []
unfolding accept_quic
acceptor_fails = refl
