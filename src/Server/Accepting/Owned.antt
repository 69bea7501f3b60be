-- ===== src/Server/Accepting/Owned.antt =====
-- For whom the accept loop takes the connections that it serves.
use mule.Base.{
  ℕ, ◌==◌, ◌≡◌, refl, Text, Bool, true, false, [], ◌∷◌, List, Option, none, some, ltb, text_eq, All,
  ok, Bool-cases, Option-cases, inl, inr,
}
use mule.Auth.Keys.{Crypto}
use mule.Auth.Identities.{
  ClientIdentity, Authenticator, client_id_for_tls_state, leaf_key, multi_client_tls_config,
  probe_server_name_for_client,
}
use mule.Auth.Owners.{Owns, client_id_iff}
use mule.Server.Connections.{register}
use mule.Server.Accepting.{
  Peer, Started, Loop, Decision, over_capacity, already_connected, answers_probe,
  answers_legacy_probe, started, try_probe, accept_agent, dispatch, accept_connection, without,
  end_probe_of, end_agent_of, find, Event, arrives, probe_ends, agent_ends, accept_fails,
  listener_fails, cancels, accept_loop,
}

module _ (crypto : Crypto) (identities : List ClientIdentity) where
  -- The peer of a goroutine has shown the key that the secret of its agent gives.
  abbrev pub Owned : Started → Type 0
  Owned s =
      (key : Text) × (leaf_key s.peer.certificates ≡ some key)
      × Owns crypto key s.agent_id identities

  abbrev pub AllOwned : Loop → Type 0
  AllOwned loop = All Owned loop.serving × All Owned loop.probing

  All-without : (conn : ℕ) (ss : List Started) → All Owned ss → All Owned (without conn ss)
  All-without conn [] h = h
  All-without conn (s ∷ ss) h = elim (Bool-cases (s.peer.conn == conn)) [
    | inl e ↦ rw e h.1
    | inr e ↦ rw e (h.0, All-without conn ss h.1)
  ]

  AllOwned-probe :
      (free : Bool) (agent_id : Text) (peer : Peer) (is_legacy : Bool) (d e : Decision)
      (loop : Loop)
      → Owned (started agent_id peer is_legacy)
      → AllOwned loop
      → AllOwned (try_probe free agent_id peer is_legacy d e loop).0
  AllOwned-probe true agent_id peer is_legacy d e loop owned h = (h.0, (owned, h.1))
  AllOwned-probe false agent_id peer is_legacy d e loop owned h = h

  AllOwned-agent :
      (capacity : ℕ) (agent_id : Text) (peer : Peer) (loop : Loop)
      (conns : Option (List (Text × ℕ)))
      → Owned (started agent_id peer false)
      → AllOwned loop
      → AllOwned (accept_agent capacity agent_id peer loop conns).0
  AllOwned-agent capacity agent_id peer loop (some conns) owned h = ((owned, h.0), h.1)
  AllOwned-agent capacity agent_id peer loop none owned h =
      AllOwned-probe (ltb loop.probes capacity) agent_id peer true (answers_legacy_probe agent_id)
        already_connected loop owned h

  AllOwned-dispatch :
      (capacity : ℕ) (peer : Peer) (loop : Loop) (client : Option Text)
      → ((agent_id : Text) → client ≡ some agent_id → Owned (started agent_id peer false))
      → AllOwned loop
      → AllOwned (dispatch capacity peer loop client).0
  AllOwned-dispatch capacity peer loop none owned h = h
  AllOwned-dispatch capacity peer loop (some agent_id) owned h =
      elim (Bool-cases (text_eq peer.server_name (probe_server_name_for_client agent_id))) [
        | inl e ↦ rw e (
            AllOwned-probe (ltb loop.probes capacity) agent_id peer false (answers_probe agent_id)
              over_capacity loop (owned agent_id refl) h)
        | inr e ↦ rw e (
            AllOwned-agent capacity agent_id peer loop (register agent_id peer.conn loop.conns)
              (owned agent_id refl) h)
      ]

  module _ (authn : Authenticator)
      (configured : multi_client_tls_config crypto identities ≡ ok authn) where
    client_owns :
        (peer : Peer) (agent_id : Text)
        → client_id_for_tls_state authn.client_by_public_key peer.certificates ≡ some agent_id
        → Owned (started agent_id peer false)
    client_owns peer agent_id e = elim (Option-cases (leaf_key peer.certificates)) [
      | inl missing ↦ absurd (let none_found = rw missing at e in cc)
      | inr (key, leaf) ↦ (
        key,
        leaf,
        (client_id_iff crypto identities authn peer.certificates key agent_id configured leaf).0 e,
      )
    ]

    AllOwned-end_probe :
        (conn : ℕ) (loop : Loop) (s : Option Started)
        → AllOwned loop
        → AllOwned (end_probe_of conn loop s)
    AllOwned-end_probe conn loop none h = h
    AllOwned-end_probe conn loop (some s) h = (h.0, All-without conn loop.probing h.1)

    AllOwned-end_agent :
        (conn : ℕ) (loop : Loop) (s : Option Started)
        → AllOwned loop
        → AllOwned (end_agent_of conn loop s)
    AllOwned-end_agent conn loop none h = h
    AllOwned-end_agent conn loop (some s) h = (All-without conn loop.serving h.0, h.1)

    -- Whatever connections arrive and in whatever order goroutines end, every goroutine that the
    -- accept loop of a server has running for an agent, for its streams or for a probe, serves a
    -- peer whose first certificate has the key that the secret of that agent gives.
    pub accept_loop-AllOwned :
        (capacity : ℕ) (events : List Event) (loop : Loop)
        → AllOwned loop
        → AllOwned (accept_loop capacity authn.client_by_public_key events loop).loop
    unfolding accept_loop accept_connection
    accept_loop-AllOwned capacity [] loop h = h
    accept_loop-AllOwned capacity (arrives peer ∷ events) loop h =
        accept_loop-AllOwned capacity events _ (
          AllOwned-dispatch capacity peer loop
            (client_id_for_tls_state authn.client_by_public_key peer.certificates)
            (client_owns peer) h)
    accept_loop-AllOwned capacity (probe_ends conn ∷ events) loop h =
        accept_loop-AllOwned capacity events _
          (AllOwned-end_probe conn loop (find conn loop.probing) h)
    accept_loop-AllOwned capacity (agent_ends conn ∷ events) loop h =
        accept_loop-AllOwned capacity events _
          (AllOwned-end_agent conn loop (find conn loop.serving) h)
    accept_loop-AllOwned capacity (accept_fails is_done ∷ events) loop h = h
    accept_loop-AllOwned capacity (listener_fails ∷ events) loop h = h
    accept_loop-AllOwned capacity (cancels ∷ events) loop h = h
